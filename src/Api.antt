-- ===== src/Api.antt =====
-- server/src/internal_api/v2/common.rs: what the internal API makes of limits, filters, cursors and
-- sessions. Rust's text functions, the parser of numbers and the encoding of cursors are parameters.
pub mod Pages
pub mod Audit
pub mod Capabilities
use tweet_db.Base.{
  ℕ, suc, ◌+◌, ltb, leb, min, max, ◌==◌, ◌&&◌, ◌||◌, not, Option, none, some, Bool, true, false,
  List, [], ◌∷◌, map, if◌then◌else◌, String, same_text, AppResult, ok, err, ◌>>=◌, AppError,
  bad_request, forbidden, text, length, take,
}
use mathlib.Core.Logic.{ite}
use tweet_db.Auth.{SessionRecord}
use tweet_db.Auth.Roles.{require_registered_session}

abbrev pub default_limit : ℕ
default_limit = 50

abbrev pub max_limit : ℕ
max_limit = 100

abbrev pub cursor_version : ℕ
cursor_version = 1

abbrev pub unwrap_or {ℓ} : {A : Type ℓ} → Option A → A → A
unwrap_or none a = a
unwrap_or (some x) a = x

-- `clamp(1, MAX_LIMIT)`
unfoldable pub resolve_limit : Option ℕ → ℕ
resolve_limit value = max 1 (min (unwrap_or value default_limit) max_limit)

-- `saturating_add(1)`, of a limit far below the greatest number.
unfoldable pub limit_plus_one : ℕ → ℕ
limit_plus_one limit = limit + 1

unfoldable pub ensure_cursor_version : ℕ → AppResult (Unit {0})
ensure_cursor_version version =
    if version == cursor_version
    then ok tt
    else err (bad_request (text "unsupported cursor version" ∷ []))

abbrev pub same_option : Option String → Option String → Bool
same_option none none = true
same_option none (some b) = false
same_option (some a) none = false
same_option (some a) (some b) = same_text a b

unfoldable pub ensure_filter_match : Option String → Option String → String → AppResult (Unit {0})
ensure_filter_match cursor_value request_value message =
    if same_option cursor_value request_value then ok tt else err (bad_request (text message ∷ []))

-- The rows of a page, with the cursor after the last of them if there are more.
module _ {R V C : Type 0} (to_item : R → V) (to_cursor : R → C)
    (encode_cursor : C → AppResult String) where
  unfoldable pub page_items : List R → Option String → AppResult (List V × Option String)
  page_items [] last = ok ([], last)
  page_items (row ∷ rows) last = encode_cursor (to_cursor row) >>= λ cursor.
      (page_items rows (some cursor) >>= λ rest. ok (to_item row ∷ rest.0, rest.1))

  abbrev pub keep_cursor : Bool → List V × Option String → List V × Option String
  keep_cursor true page = page
  keep_cursor false page = (page.0, none)

  unfoldable pub paginate_rows : List R → ℕ → AppResult (List V × Option String)
  paginate_rows rows limit =
      let has_more = ltb limit (length rows) in
      page_items (if has_more then take limit rows else rows) none >>= λ page.
      ok (keep_cursor has_more page)

pub data Capability : Type 0 where
  identity_read identity_write tweet_read media_read media_transfer_write storage_read : Capability
  transfer_write search_read search_write audit_read system_read : Capability

unfoldable pub user_capabilities : SessionRecord → List Capability
user_capabilities s =
    if s.user_is_admin
    then identity_read ∷ identity_write ∷ tweet_read ∷ media_read ∷ media_transfer_write
      ∷ storage_read ∷ transfer_write ∷ search_read ∷ search_write ∷ audit_read ∷ system_read ∷ []
    else tweet_read ∷ media_read ∷ storage_read ∷ system_read ∷ []

abbrev pub capability_name : Capability → String
capability_name identity_read = "identity.read"
capability_name identity_write = "identity.write"
capability_name tweet_read = "tweet.read"
capability_name media_read = "media.read"
capability_name media_transfer_write = "media.transfer.write"
capability_name storage_read = "storage.read"
capability_name transfer_write = "transfer.write"
capability_name search_read = "search.read"
capability_name search_write = "search.write"
capability_name audit_read = "audit.read"
capability_name system_read = "system.read"

unfoldable pub session_capability_names : SessionRecord → List String
session_capability_names s = map capability_name (user_capabilities s)

Capability-discrete : Discrete Capability
Capability-discrete = hlevel

unfoldable pub has_capability : Capability → List Capability → Bool
unfolding Capability-discrete
has_capability c [] = false
has_capability c (x ∷ xs) = ite (Capability-discrete x c) true false || has_capability c xs

abbrev pub capable_if : Bool → SessionRecord → AppResult SessionRecord
capable_if true s = ok s
capable_if false s = err (forbidden (text "capability required" ∷ []))

abbrev pub capable : Capability → SessionRecord → AppResult SessionRecord
capable capability s =
    capable_if (s.user_is_admin || has_capability capability (user_capabilities s)) s

unfoldable pub require_capability : Option SessionRecord → Capability → AppResult SessionRecord
require_capability session capability = require_registered_session session >>= capable capability
