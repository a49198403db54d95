-- ===== src/Api/Audit/Walked.antt =====
-- A client that follows the cursors of the listing of audit events.
use mathlib.Core.Path.{subst, fun_ext}
use mathlib.Core.List.{Perm}
use text.Mathlib.TextEquality.{eq_iff}
use tweet_db.Base.{
  ℕ, suc, ◌≤◌, ◌<◌, ◌≡◌, refl, ap, ◌∙◌, ◌&&◌, Option, none, some, Bool, true, List, [], ◌∷◌, map,
  take, keep, length, String, AppResult, ok, Bool-cases, inl, inr, arith,
}
use tweet_db.Auth.{SessionRecord}
use tweet_db.Api.{same_option, ensure_cursor_version, resolve_limit, audit_read, require_capability}
use tweet_db.Api.Pages.{walk, list_page, walk_all, IsListing, IsReadable}
use tweet_db.Api.Audit.{
  AuditRow, AuditFilter, AuditEventCursor, normalized, same_id, same_filter, check_cursor, matches,
  insert_newest, newest_first, select_events, event_cursor, list_events,
}
use tweet_db.Api.Audit.Order.{
  below, IsNewestFirst, Keyed, keep-Keyed, newest_first-IsNewestFirst, newest_first-Perm,
  newest_first-keep, keep_after, keep-All, newest_first-All,
}

same_option_refl : (o : Option String) → same_option o o ≡ true
same_option_refl none = refl
same_option_refl (some s) = (eq_iff s s).1 refl

same_id_refl : (o : Option ℕ) → same_id o o ≡ true
same_id_refl none = refl
same_id_refl (some n) = ground arith

same_filter_refl : (f : AuditFilter) → same_filter f f ≡ true
unfolding same_filter
same_filter_refl f =
    rw
      (
        same_id_refl f.actor_user_id,
        same_option_refl f.resource_type,
        same_option_refl f.resource_id,
        same_option_refl f.event_type,
      )
      refl

-- The listing accepts the cursors that it hands out.
check_cursor-event_cursor :
    (f : AuditFilter) (r : AuditRow) → check_cursor f (event_cursor f r) ≡ ok tt
unfolding check_cursor event_cursor ensure_cursor_version
check_cursor-event_cursor f r = rw (same_filter_refl f) refl

length-insert_newest :
    (r : AuditRow) (rows : List AuditRow) → length (insert_newest r rows) ≡ suc (length rows)
unfolding insert_newest
length-insert_newest r [] = refl
length-insert_newest r (x ∷ rows) = elim (Bool-cases (below r x)) [
  | inl e ↦ rw e refl
  | inr e ↦ rw e (ap suc (length-insert_newest r rows))
]

length-newest_first :
    (p : AuditRow → Bool) (rows : List AuditRow) → length (newest_first (keep p rows)) ≤ length rows
unfolding newest_first
length-newest_first p [] = omega arith
length-newest_first p (r ∷ rows) =
    let ih = length-newest_first p rows in
    elim (Bool-cases (p r)) [
      | inl e ↦
          let one = length-insert_newest r (newest_first (keep p rows)) in
          rw e (omega (arith, ih, one))
      | inr e ↦ rw e (omega (arith, ih))
    ]

keep-true :
    (p : AuditRow → Bool) (rows : List AuditRow) → keep (λ r. p r && true) rows ≡ keep p rows
keep-true p [] = refl
keep-true p (r ∷ rows) = elim (Bool-cases (p r)) [
  | inl e ↦ rw (e) (ap (λ xs. r ∷ xs) (keep-true p rows))
  | inr e ↦ rw (e) (keep-true p rows)
]

module _ {V : Type 0} (trim : String → String) (to_json : AuditRow → V)
    (encode : AuditEventCursor → AppResult String) (decode : String → AppResult AuditEventCursor)
    (table : List AuditRow) where
  -- The statement of the listing gives the first of the events that the filters allow, or of those after
  -- the one of a cursor.
  select_events-IsListing :
      (f : AuditFilter)
      → Keyed table
      → IsListing to_json
          (event_cursor f)
          encode
          decode
          (check_cursor f)
          (select_events table f)
          (newest_first (keep (matches f) table))
  unfolding select_events event_cursor
  select_events-IsListing f keyed = record {
    first = λ n. ap (λ rows. take n (newest_first rows)) (keep-true (matches f) table);
    later = λ front after c n split. ap (take n) (
        newest_first-keep (matches f) c table
        ∙ ap (keep (below c)) split
        ∙ keep_after c front after (
            subst IsNewestFirst split (
              newest_first-IsNewestFirst (keep (matches f) table)
                (keep-Keyed (matches f) table keyed))));
  }

  list_events-page :
      (session : Option SessionRecord) (s : SessionRecord) (query : AuditFilter) (limit : Option ℕ)
      → require_capability session audit_read ≡ ok s
      → (cursor : Option String)
      → list_events trim to_json encode decode table session query limit cursor ≡ (
          let f = normalized trim query in
          list_page to_json
            (event_cursor f)
            encode
            decode
            (check_cursor f)
            (select_events table f)
            (resolve_limit limit)
            cursor)
  unfolding list_events
  list_events-page session s query limit admitted cursor = rw admitted refl

  -- If the cursors of the events can be encoded and read back, and the ids of the events are unique, then
  -- a client with the capability to read the audit that calls list_events with any filters and any limit,
  -- and follows the cursors as long as there are any, for which as many calls as there are events and one
  -- more are enough, is never refused and gets every event that the trimmed filters allow exactly once, in
  -- descending order of time and id, while the table does not change.
  pub walk-list_events :
      Keyed table
      → (session : Option SessionRecord) (s : SessionRecord)
      → require_capability session audit_read ≡ ok s
      → (query : AuditFilter) (limit : Option ℕ) (fuel : ℕ) → length table < fuel
      → IsReadable (event_cursor (normalized trim query)) encode decode table
      → (events : List AuditRow) × (walk
            (list_events trim to_json encode decode table session query limit)
            fuel
            none
          ≡ ok (map to_json events))
        × Perm events (keep (matches (normalized trim query)) table)
        × IsNewestFirst events
  walk-list_events keyed session s admitted query limit fuel enough readable =
      let f = normalized trim query in
      let rows = keep (matches f) table in
      let few = length-newest_first (matches f) table in
      let walked =
        walk_all to_json (event_cursor f) encode decode (check_cursor f) (select_events table f)
          (check_cursor-event_cursor f) (newest_first rows)
          (newest_first-All _ rows (keep-All _ (matches f) table readable))
          (select_events-IsListing f keyed) limit fuel (omega (arith, few, enough)) in
      (
        newest_first rows,
        ap (λ page. walk page fuel none) (fun_ext (list_events-page session s query limit admitted))
            ∙ walked,
        newest_first-Perm rows,
        newest_first-IsNewestFirst rows (keep-Keyed (matches f) table keyed),
      )
