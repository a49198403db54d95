-- ===== src/Tests/Accounts.antt =====
-- Sessions, secrets and the dictionary of strings on concrete inputs.
use tweet_db.Base.{
  ℕ, ◌≡◌, ◌↔◌, refl, inl, ◌&&◌, not, Option, none, some, true, false, List, [], ◌∷◌, All, String,
  same_text, ok, err, config, text, arith,
}
use tweet_db.Base.Int.{pos}
use tweet_db.Base.Dict.{lookup}
use tweet_db.StringDict.Semantic.{
  tweet_source, as_db_str, semantic_from_db, semantic_from_db-as_db_str,
}
use tweet_db.StringDict.{
  Entry, World, find_id, find_entry, is_cached, normalize_value, get_id, ensure_ids, ensure_many,
}
use tweet_db.StringDict.Agreement.{Consistent}
use tweet_db.StringDict.Ensured.{asked_each, ensure_ids-asked_each, is_present, ensure_many-Loads}
use tweet_db.Auth.Store.{find_session}
use tweet_db.Auth.Session.{refresh_authorization_if_needed, renew_session, session_expires_at}
use tweet_db.Secrets.{
  split_dot, CompoundSecret, dotless, parse_compound_secret, compound_value, token_verifier_mac,
}
use tweet_db.Secrets.RoundTrip.{parse_compound_secret-compound_value}
use tweet_db.Auth.{same_bytes, Db, SessionRow, AuthorizationRow, UserRow, SessionRecord, is_active}
use tweet_db.Auth.Environment.{Environment, check_authorization}
use tweet_db.Auth.Session.{Clock, renew, revoked, resolve_request_session}
use tweet_db.Auth.Session.Admitted.{Admitted, resolve_request_session-Admitted}
use tweet_db.Auth.Session.Revoked.{IsFree, revocation_webhook-IsFree}
use tweet_db.Auth.Login.{CallbackQuery, revocation_webhook}
use tweet_db.Auth.Login.Registered.{AllBound}
use tweet_db.Auth.Login.Handled.{
  Event, request, login, callback, logout, notice, handle_all, handle_all-AllBound,
}
use tweet_db.Auth.Roles.{
  require_admin_session, require_registered_session, build_internal_session_me_response,
}
use tweet_db.Auth.Roles.Guards.{
  status_of, expected, require_admin_session_iff, require_admin_session-build_internal,
}

abbrev show_seven : ℕ → String
show_seven n = "7"

abbrev read_seven : String → Option ℕ
read_seven s = elim (same_text s "7") [ true ↦ some 7 | false ↦ none ]

abbrev secret : CompoundSecret
secret = record { selector = 7; verifier = "a.b" }

seven_dotless : dotless (show_seven secret.selector) ≡ true
unfolding dotless
seven_dotless = refl

parse_compound_secret-compound_value_example :
    parse_compound_secret read_seven (compound_value show_seven secret) ≡ some secret
parse_compound_secret-compound_value_example =
    parse_compound_secret-compound_value read_seven show_seven secret seven_dotless refl

abbrev env : Environment
env = record {
  session = record {
    cookie_name = "session";
    pending_login_cookie_name = "login";
    cookie_secure = true;
    ttl_hours = pos 1;
    absolute_ttl_hours = pos 2;
    auto_renew = true;
    pending_login_ttl_seconds = pos 600;
  };
  sso = record { login_redirect_uri = "https://a"; authorization_cache_ttl_seconds = pos 60 };
  parse_uuid = read_seven;
  show_uuid = show_seven;
  hmac = λ s. 1 ∷ [];
  get_authorization = λ id. ok (record { status = 404; body = err (config (text "none" ∷ [])) });
  post_exchange = λ code verifier.
      ok (record { status = 200; body = ok (record { subject_id = 4; authorization_id = 5 }) });
  same_name = same_text;
  trim = λ s. s;
  is_word = λ s. true;
}

abbrev row : SessionRow
row = record {
  verifier_hash = 1 ∷ [];
  user_id = some 3;
  sso_subject_id = 4;
  authorization_id = 5;
  registration_state = "active";
  expires_at = 2000;
  last_seen_at = 0;
  created_at = 0;
}

abbrev authorization : AuthorizationRow
authorization = record {
  sso_subject_id = 4;
  user_id = some 3;
  status = "active";
  last_checked_at = 990;
  remote_expires_at = none;
  revoked_at = none;
}

abbrev ada : UserRow
ada = record { username = "ada"; is_admin = true; disabled_at = none; disabled_by_user_id = none }

abbrev db : Db
db = record {
  sessions = (7, row) ∷ [];
  users = (3, ada) ∷ [];
  authorizations = (5, authorization) ∷ [];
  subjects = (4, 3) ∷ [];
  pending_logins = [];
  audit_events = [];
}

abbrev clock : Clock
clock = record { at_start = 1000; at_refresh = 1000; after_check = 1001 }

abbrev pub given : SessionRecord
given = record {
  selector = 7;
  verifier_hash = 1 ∷ [];
  user_id = some 3;
  username = some "ada";
  user_is_admin = true;
  user_disabled_at = none;
  user_disabled_by_user_id = none;
  sso_subject_id = 4;
  authorization_id = 5;
  registration_state = "active";
  expires_at = 4600;
  last_seen_at = 0;
  created_at = 0;
  authorization_status = "active";
  authorization_last_checked_at = 990;
  authorization_remote_expires_at = none;
}

-- The session is renewed for one hour.
request_resolves : resolve_request_session env clock (some "7.a") true db ≡ (
  ok (renew "7.a" 4600, some given),
  (resolve_request_session env clock (some "7.a") true db).1,
)
unfolding resolve_request_session parse_compound_secret split_dot find_session lookup
    token_verifier_mac same_bytes refresh_authorization_if_needed renew_session session_expires_at
request_resolves = refl

resolve_request_session-Admitted_example :
    (s : CompoundSecret) × (parse_compound_secret env.parse_uuid "7.a" ≡ some s)
    × Admitted env clock db s given
resolve_request_session-Admitted_example =
    resolve_request_session-Admitted env clock "7.a" true db request_resolves

not_found : check_authorization env 5 ≡ ok none
unfolding check_authorization
not_found = refl

revocation_webhook-IsFree_example :
    ((revocation_webhook env 1000 5 db).0 ≡ ok revoked)
    × IsFree 5 (revocation_webhook env 1000 5 db).1.sessions
revocation_webhook-IsFree_example = revocation_webhook-IsFree env 1000 5 db (inl not_found)

abbrev new_secret : CompoundSecret
new_secret = record { selector = 8; verifier = "b" }

abbrev answer : CallbackQuery
answer = record { code = some "code"; error = none }

abbrev requests : List Event
requests =
    request clock (some "7.a") true
    ∷ login 1000 7 "v"
    ∷ callback 1001 998 new_secret (some "7") answer
    ∷ logout (some given)
    ∷ notice 1002 5
    ∷ []

handle_all-AllBound_example : AllBound env.session 5 (handle_all env requests db).sessions
handle_all-AllBound_example =
    handle_all-AllBound env 5 requests db (tt, (tt, (omega arith, (tt, (tt, tt)))))
      ((refl, refl), tt)

require_admin_session_iff_example : (require_admin_session (some given) ≡ ok given) ↔ (
    (some given ≡ some given)
    × (is_active given.registration_state ≡ true)
    × (given.user_disabled_at ≡ none)
    × (given.user_is_admin ≡ true))
require_admin_session_iff_example = require_admin_session_iff (some given) given

require_admin_session-build_internal_example :
    let me = build_internal_session_me_response (some given) in
    (status_of (require_admin_session (some given))
      ≡ expected me.registered (me.registered && (not me.disabled && me.is_admin)))
    × (status_of (require_registered_session (some given))
        ≡ expected me.registered (me.registered && not me.disabled))
require_admin_session-build_internal_example = require_admin_session-build_internal (some given)

abbrev web : Entry
web = record { semantic = tweet_source; value = "web" }

abbrev empty : World
empty = record {
  table = record { rows = []; next_id = 1 };
  cache = record { by_key = []; by_id = [] };
}

empty-Consistent : Consistent empty
unfolding find_id find_entry
empty-Consistent = record {
  table_sound = record { back = λ k id h. absurd (cc h); fresh = λ id e h. absurd (cc h) };
  keys = λ k id h. absurd (cc h);
  entries = λ id e h. absurd (cc h);
  both = λ k id h. absurd (cc h);
}

ensure_ids-asked_each_example :
    ((
      (ensure_ids (λ s. s) tweet_source ("web" ∷ "" ∷ []) empty).0,
      (ensure_ids (λ s. s) tweet_source ("web" ∷ "" ∷ []) empty).1.table,
    )
      ≡ asked_each (λ s. s) tweet_source ("web" ∷ "" ∷ []) empty.table)
    × Consistent (ensure_ids (λ s. s) tweet_source ("web" ∷ "" ∷ []) empty).1
ensure_ids-asked_each_example =
    ensure_ids-asked_each (λ s. s) (λ s. refl) tweet_source ("web" ∷ "" ∷ []) empty empty-Consistent

ensure_many-Loads_example :
    Consistent (ensure_many (λ s. s) (web ∷ web ∷ []) empty)
    × All
        (λ x.
          is_cached
            (get_id (λ s. s) x.semantic x.value (ensure_many (λ s. s) (web ∷ web ∷ []) empty).cache)
          ≡ is_present (normalize_value (λ s. s) x.value))
        (web ∷ web ∷ [])
ensure_many-Loads_example =
    ensure_many-Loads (λ s. s) (λ s. refl) (web ∷ web ∷ []) empty empty-Consistent

semantic_from_db-as_db_str_example : semantic_from_db (as_db_str tweet_source) ≡ some tweet_source
semantic_from_db-as_db_str_example = semantic_from_db-as_db_str tweet_source
