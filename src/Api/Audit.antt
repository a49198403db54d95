-- ===== src/Api/Audit.antt =====
-- The listing of audit events: list_events of server/src/internal_api/v2/audit.rs with its statement over
-- the table audit.audit_events. The encoding of cursors, Rust's `trim` and the JSON of a row are
-- parameters.
pub mod Order
pub mod Walked
use tweet_db.Base.{
  ℕ, ltb, ◌==◌, ◌&&◌, ◌||◌, not, Option, none, some, Bool, true, false, List, [], ◌∷◌, take, keep,
  if◌then◌else◌, String, same_text, AppResult, ok, err, ◌>>=◌, bad_request, text,
}
use tweet_db.Auth.{SessionRecord}
use tweet_db.Api.{
  same_option, ensure_cursor_version, cursor_version, resolve_limit, audit_read, require_capability,
}
use tweet_db.Api.Pages.{list_page}

-- The columns of audit.audit_events.
pub record AuditRow : Type 0 where
  pub id : ℕ
  pub actor_user_id : Option ℕ
  pub event_type : String
  pub resource_type : String
  pub resource_id : Option String
  pub details : String
  pub created_at : ℕ

-- The filters of AuditEventListQuery.
pub record AuditFilter : Type 0 where
  pub actor_user_id : Option ℕ
  pub resource_type : Option String
  pub resource_id : Option String
  pub event_type : Option String

pub record AuditEventCursor : Type 0 where
  pub v : ℕ
  pub filter : AuditFilter
  pub created_at : ℕ
  pub id : ℕ

abbrev pub unless_empty : String → Option String
unless_empty value = if same_text value "" then none else some value

unfoldable pub normalize_filter : (String → String) → Option String → Option String
normalize_filter trim none = none
normalize_filter trim (some raw) = unless_empty (trim raw)

unfoldable pub normalized : (String → String) → AuditFilter → AuditFilter
normalized trim q = record {
  actor_user_id = q.actor_user_id;
  resource_type = normalize_filter trim q.resource_type;
  resource_id = normalize_filter trim q.resource_id;
  event_type = normalize_filter trim q.event_type;
}

abbrev pub same_id : Option ℕ → Option ℕ → Bool
same_id none none = true
same_id none (some b) = false
same_id (some a) none = false
same_id (some a) (some b) = a == b

unfoldable pub same_filter : AuditFilter → AuditFilter → Bool
same_filter a b =
    same_id a.actor_user_id b.actor_user_id
    && (same_option a.resource_type b.resource_type
        && (same_option a.resource_id b.resource_id && same_option a.event_type b.event_type))

unfoldable pub check_cursor : AuditFilter → AuditEventCursor → AppResult (Unit {0})
check_cursor filter cursor = ensure_cursor_version cursor.v >>= λ _.
    (if same_filter cursor.filter filter
      then ok tt
      else err (bad_request (text "cursor does not match filters" ∷ [])))

-- `$1 IS NULL OR column = $1`, where a null column is never equal.
abbrev pub allows_id : Option ℕ → Option ℕ → Bool
allows_id none column = true
allows_id (some wanted) none = false
allows_id (some wanted) (some value) = value == wanted

abbrev pub allows_text : Option String → Option String → Bool
allows_text none column = true
allows_text (some wanted) none = false
allows_text (some wanted) (some value) = same_text value wanted

unfoldable pub matches : AuditFilter → AuditRow → Bool
matches f r =
    allows_id f.actor_user_id r.actor_user_id
    && (allows_text f.resource_type (some r.resource_type)
        && (allows_text f.resource_id r.resource_id
            && allows_text f.event_type (some r.event_type)))

-- `(a.created_at, a.id) < (created_at, id)`
unfoldable pub is_below : ℕ → ℕ → AuditRow → Bool
is_below created_at id r =
    ltb r.created_at created_at || (r.created_at == created_at && ltb r.id id)

abbrev pub after_cursor : Option AuditEventCursor → AuditRow → Bool
after_cursor none r = true
after_cursor (some c) r = is_below c.created_at c.id r

-- `ORDER BY created_at DESC, id DESC`
unfoldable pub insert_newest : AuditRow → List AuditRow → List AuditRow
insert_newest r [] = r ∷ []
insert_newest r (x ∷ rows) =
    let later = x ∷ insert_newest r rows in
    if is_below r.created_at r.id x then r ∷ x ∷ rows else later

unfoldable pub newest_first : List AuditRow → List AuditRow
newest_first [] = []
newest_first (r ∷ rows) = insert_newest r (newest_first rows)

-- The statement, with its LIMIT.
unfoldable pub select_events :
    List AuditRow → AuditFilter → Option AuditEventCursor → ℕ → List AuditRow
select_events table f cursor n =
    take n (newest_first (keep (λ r. matches f r && after_cursor cursor r) table))

unfoldable pub event_cursor : AuditFilter → AuditRow → AuditEventCursor
event_cursor f r = record { v = cursor_version; filter = f; created_at = r.created_at; id = r.id }

module _ {V : Type 0} (trim : String → String) (audit_event_json_from_row : AuditRow → V)
    (encode_cursor : AuditEventCursor → AppResult String)
    (decode : String → AppResult AuditEventCursor) where
  unfoldable pub list_events :
      List AuditRow
      → Option SessionRecord
      → AuditFilter
      → Option ℕ
      → Option String
      → AppResult (List V × Option String)
  list_events table session query limit cursor = require_capability session audit_read >>= λ _.
      (let f = normalized trim query in
        list_page audit_event_json_from_row (event_cursor f) encode_cursor decode (check_cursor f)
          (select_events table f) (resolve_limit limit) cursor)
