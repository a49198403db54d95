-- ===== src/Tests/Requests.antt =====
-- A submission, a listing and the capabilities on concrete inputs.
use tweet_db.Base.{
  ℕ, zero, suc, keep, ◌≡◌, ◌↔◌, refl, ◌||◌, if◌then◌else◌, Option, none, some, true, false, List,
  [], ◌∷◌, map, length, String, same_text, AppResult, ok, err, AppError, sqlx, text, arith,
}
use tweet_db.Auth.{is_active}
use tweet_db.Auth.Roles.{require_admin_session, require_registered_session}
use tweet_db.Submit.Results.{Response, SubmitSummary}
use tweet_db.Submit.Execute.Steps.{Store}
use tweet_db.Submit.Execute.Handler.{
  SubmitTweetRequest, item_count, submit_tweets, submit_tweets_answers,
}
use tweet_db.Api.{identity_write, audit_read, user_capabilities, require_capability}
use tweet_db.Api.Capabilities.{is_browsing, require_capability_iff}
use mathlib.Core.List.{Perm}
use tweet_db.Api.Pages.{IsReadable, walk}
use tweet_db.Api.Audit.{
  AuditRow, AuditFilter, AuditEventCursor, normalized, normalize_filter, event_cursor, matches,
  list_events,
}
use tweet_db.Api.Audit.Order.{IsNewestFirst}
use tweet_db.Api.Audit.Walked.{walk-list_events}
use tweet_db.Tests.Accounts.{given}

abbrev message : AppError → String
message e = "error"

abbrev parse_one : String → Option ℕ
parse_one s = elim (same_text s "1") [ true ↦ some 1 | false ↦ none ]

abbrev refused {ℓ} : {A : Type ℓ} → AppResult A
refused = err (sqlx (text "refused" ∷ []))

-- A store that refuses some writes.
abbrev store : Store ℕ ℕ ℕ ℕ ℕ ℕ ℕ ℕ ℕ ℕ ℕ ℕ
store = record {
  preload = λ a b c d e f g. ok tt;
  insert_users_changed = λ users. ok (1 ∷ []);
  append_user_snapshots = λ xs. refused;
  append_user_stats = λ xs. refused;
  upsert_media_changed = λ xs. ok [];
  append_media_resources = λ xs. refused;
  enqueue_tasks = λ tasks. refused;
  upsert_tweet_places_changed = λ places. refused;
  insert_tweets_changed = λ xs. ok (1 ∷ []);
  append_tweet_edits = λ xs. refused;
  append_tweet_policies = λ xs. refused;
  append_tweet_community_notes = λ xs. refused;
  append_tweet_stats = λ xs. refused;
  sync_tweet_relations = λ xs. refused;
}

abbrev payload : SubmitTweetRequest ℕ ℕ ℕ
payload = record {
  users = record { id = "1"; registered_at = none } ∷ [];
  tweets = record { id = "1"; author_id = "1"; place = none; body = 0 } ∷ [];
  media = record { id = "x"; body = 0 } ∷ [];
}

given_admin : require_admin_session (some given) ≡ ok given
unfolding require_admin_session require_registered_session
given_admin = refl

submit_tweets_answers_example :
    (response : Response) × (summary : SubmitSummary) × (submit_tweets parse_one message
        (λ id u. some (ok 0))
        (λ id u. none)
        (λ id m. ok 0)
        (λ id m. none)
        (λ l. ok none)
        (λ id author place t. refused)
        (λ m. m)
        (λ w. w)
        (λ m r. none)
        true
        store
        3
        (some given)
        payload
      ≡ ok (some (response, summary)))
    × (length response.users ≡ length payload.users)
    × (length response.tweets ≡ length payload.tweets)
    × (length response.media ≡ length payload.media)
    × (summary.total ≡ item_count payload)
submit_tweets_answers_example =
    submit_tweets_answers parse_one message (λ id u. some (ok 0)) (λ id u. none) (λ id m. ok 0)
      (λ id m. none) (λ l. ok none) (λ id author place t. refused) (λ m. m) (λ w. w) (λ m r. none)
      true store 3 given payload given_admin (omega arith)

require_capability_iff_example : (require_capability (some given) identity_write ≡ ok given) ↔ (
    (some given ≡ some given)
    × (is_active given.registration_state ≡ true)
    × (given.user_disabled_at ≡ none)
    × ((given.user_is_admin || is_browsing identity_write) ≡ true))
require_capability_iff_example = require_capability_iff (some given) identity_write given

-- Three events, two of which are logins, and a listing of the logins with one event for each page.
abbrev event : ℕ → String → AuditRow
event id event_type = record {
  id = id;
  actor_user_id = some 3;
  event_type = event_type;
  resource_type = "session";
  resource_id = none;
  details = "";
  created_at = 100;
}

abbrev events : List AuditRow
events = event 1 "login" ∷ event 2 "logout" ∷ event 3 "login" ∷ []

abbrev logins : AuditFilter
logins = record {
  actor_user_id = none;
  resource_type = none;
  resource_id = some "";
  event_type = some "login";
}

abbrev as_given : String → String
as_given s = s

abbrev encode_row : AuditEventCursor → AppResult String
encode_row c = elim c.id [ suc (suc (suc n)) ↦ ok "c" | suc (suc zero) ↦ ok "b" | other ↦ ok "a" ]

abbrev decode_row : String → AppResult AuditEventCursor
decode_row s =
    let f = normalized as_given logins in
    if same_text s "a"
    then ok (event_cursor f (event 1 "login"))
    else if same_text s "b"
    then ok (event_cursor f (event 2 "logout"))
    else ok (event_cursor f (event 3 "login"))

rows-IsReadable :
    IsReadable (event_cursor (normalized as_given logins)) encode_row decode_row events
unfolding event_cursor normalized normalize_filter
rows-IsReadable = (("a", refl, refl), (("b", refl, refl), (("c", refl, refl), tt)))

may_read_audit : require_capability (some given) audit_read ≡ ok given
unfolding require_capability require_registered_session user_capabilities
may_read_audit = refl

walk-list_events_example :
    (found : List AuditRow) × (walk
        (list_events as_given (λ r. r.id) encode_row decode_row events (some given) logins (some 1))
        4
        none
      ≡ ok (map (λ r. r.id) found))
    × Perm found (keep (matches (normalized as_given logins)) events)
    × IsNewestFirst found
walk-list_events_example =
    walk-list_events as_given (λ r. r.id) encode_row decode_row events
      ((refl, (refl, tt)), ((refl, tt), (tt, tt))) (some given) given may_read_audit logins (some 1)
      4 (omega arith) rows-IsReadable
