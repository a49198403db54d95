-- ===== src/Auth/Login.antt =====
-- Logging in and out: server/src/auth/sso.rs, and the handlers of server/src/auth/session.rs that
-- register an account and log out. New uuids and verifiers, which are random, and the readings of the
-- clocks of the program (now) and of the database (db_now) are arguments; cookies and the redirects of
-- the successful branches are left out.
pub mod Registered
pub mod Kept
pub mod Renewed
pub mod Handled
use tweet_db.Base.{
  ℕ, ◌+◌, ◌==◌, Option, none, some, Bool, true, false, not, if◌then◌else◌, List, [], ◌∷◌, String,
  AppResult, ok, err, AppError, bad_request, text,
}
use tweet_db.Secrets.{CompoundSecret, token_verifier_mac}
use tweet_db.Auth.{
  SessionRow, AuthorizationRow, PendingSsoLogin, AuditEvent, Db, SessionRecord, Action, ◌>>=◌, pure,
  fails, lift,
}
use tweet_db.Auth.Store.{
  delete_expired_pending_sso_logins, insert_pending_sso_login, consume_pending_sso_login,
  upsert_authorization, find_subject_binding, NewSession, create_session, delete_session,
  insert_audit_event, bind_username_to_subject,
}
use tweet_db.Auth.Environment.{
  Environment, AuthorizationStatusResponse, SsoExchangeResponse, check_authorization, exchange_code,
}
use tweet_db.Auth.Session.{
  AuthorizationRefreshOutcome, unchanged, plus, session_expires_at, gone, lost, revoke,
}
use tweet_db.Auth.Roles.{require_pending_registration, normalize_username}

unfoldable pub begin_sso_login : Environment → ℕ → ℕ → String → Db → Db
begin_sso_login env now state code_verifier db =
    insert_pending_sso_login state
      (record {
        code_verifier = code_verifier;
        expires_at = plus 1 now env.session.pending_login_ttl_seconds;
      })
      (record db { pending_logins = delete_expired_pending_sso_logins now db.pending_logins })

abbrev pub require {ℓ} : {A : Type ℓ} → Option A → String → Action A
require none message = fails (bad_request (text message ∷ []))
require (some a) message = pure a

abbrev pub state_of : Option ℕ → String
state_of none = "pending"
state_of (some user) = "active"

-- What is inserted for the session of a login, from the user that the subject is bound to.
abbrev pub new_session :
    Environment → ℕ → CompoundSecret → SsoExchangeResponse → Option ℕ → NewSession
new_session env now secret exchange user_id = record {
  verifier_hash = token_verifier_mac env.show_uuid env.hmac secret.selector secret.verifier;
  user_id = user_id;
  sso_subject_id = exchange.subject_id;
  authorization_id = exchange.authorization_id;
  registration_state = state_of user_id;
  expires_at = session_expires_at env.session now now;
}

abbrev pub audited : AuditEvent → Action (Unit {0})
audited event db = (ok tt, insert_audit_event event db)

abbrev pub signed_in : CompoundSecret → Option ℕ → Action (Unit {0})
signed_in secret user_id = audited (record {
  actor_user_id = user_id;
  event_type = "auth.sso_callback";
  resource_type = "session";
  resource_id = some secret.selector;
})

abbrev pub authorization_row : ℕ → SsoExchangeResponse → Option ℕ → AuthorizationRow
authorization_row now exchange user_id = record {
  sso_subject_id = exchange.subject_id;
  user_id = user_id;
  status = "active";
  last_checked_at = now;
  remote_expires_at = none;
  revoked_at = none;
}

abbrev pub open_session :
    Environment → ℕ → ℕ → CompoundSecret → SsoExchangeResponse → Option ℕ → Action (Unit {0})
open_session env now db_now secret exchange user_id =
    create_session db_now secret.selector (new_session env now secret exchange user_id) >>= λ _.
    signed_in secret user_id

unfoldable pub sign_in :
    Environment → ℕ → ℕ → CompoundSecret → SsoExchangeResponse → Option ℕ → Action (Unit {0})
sign_in env now db_now secret exchange user_id =
    upsert_authorization exchange.authorization_id (authorization_row now exchange user_id) >>= λ _.
    open_session env now db_now secret exchange user_id

abbrev pub bound_sign_in :
    Environment → ℕ → ℕ → CompoundSecret → SsoExchangeResponse → Action (Unit {0})
bound_sign_in env now db_now secret exchange db =
    sign_in env now db_now secret exchange (find_subject_binding exchange.subject_id db) db

pub record CallbackQuery : Type 0 where
  pub code : Option String
  pub error : Option String

-- The callback from the exchange of the code on, from the consumption of the pending login on, and
-- from its beginning. False is the redirect that shows the error of the query.
abbrev pub exchange_and_sign_in :
    Environment → ℕ → ℕ → CompoundSecret → String → PendingSsoLogin → Action Bool
exchange_and_sign_in env now db_now secret code pending =
    lift (exchange_code env code pending.code_verifier) >>= λ exchange.
    (bound_sign_in env now db_now secret exchange >>= λ _. pure true)

abbrev pub with_pending :
    Environment → ℕ → ℕ → CompoundSecret → String → Option PendingSsoLogin → Action Bool
with_pending env now db_now secret code found =
    require found "pending login expired" >>= exchange_and_sign_in env now db_now secret code

abbrev pub with_state : Environment → ℕ → ℕ → CompoundSecret → String → ℕ → Action Bool
with_state env now db_now secret code state =
    consume_pending_sso_login state now >>= with_pending env now db_now secret code

abbrev pub with_cookie : Environment → ℕ → ℕ → CompoundSecret → String → String → Action Bool
with_cookie env now db_now secret code cookie =
    require (env.parse_uuid cookie) "invalid pending login state"
    >>= with_state env now db_now secret code

abbrev pub with_code : Environment → ℕ → ℕ → CompoundSecret → Option String → String → Action Bool
with_code env now db_now secret state_cookie code =
    require state_cookie "missing pending login state" >>= with_cookie env now db_now secret code

abbrev pub called_back :
    Environment
    → ℕ
    → ℕ
    → CompoundSecret
    → Option String
    → Option String
    → Option String
    → Action Bool
called_back env now db_now secret (some error) code state_cookie = pure false
called_back env now db_now secret none code state_cookie =
    require code "missing callback code" >>= with_code env now db_now secret state_cookie

unfoldable pub sso_callback :
    Environment → ℕ → ℕ → CompoundSecret → Option String → CallbackQuery → Action Bool
sso_callback env now db_now secret state_cookie query =
    called_back env now db_now secret query.error query.code state_cookie

abbrev pub notified :
    ℕ → ℕ → Option AuthorizationStatusResponse → Action AuthorizationRefreshOutcome
notified id now none = revoke id (gone now)
notified id now (some status) =
    if not status.active then revoke id (lost status now) else pure unchanged

unfoldable pub revocation_webhook : Environment → ℕ → ℕ → Action AuthorizationRefreshOutcome
revocation_webhook env now id = lift (check_authorization env id) >>= notified id now

abbrev pub bind_session : Environment → ℕ → ℕ → SessionRecord → String → Action ℕ
bind_session env now user_id s username =
    bind_username_to_subject env.same_name user_id username s.sso_subject_id s.authorization_id
      s.selector now

abbrev pub register_session : Environment → ℕ → ℕ → String → SessionRecord → Action ℕ
register_session env now user_id raw s =
    lift (normalize_username env.trim env.is_word raw) >>= bind_session env now user_id s

unfoldable pub internal_register_complete :
    Environment → ℕ → ℕ → Option SessionRecord → String → Action ℕ
internal_register_complete env now user_id session raw =
    lift (require_pending_registration session) >>= register_session env now user_id raw

-- Whether the SSO server revokes the authorization is not observed.
unfoldable pub internal_logout : Option SessionRecord → Action (Unit {0})
internal_logout none db = (ok tt, db)
internal_logout (some s) db =
    audited
      (record {
        actor_user_id = s.user_id;
        event_type = "session.logout";
        resource_type = "session";
        resource_id = some s.selector;
      })
      (delete_session s.selector db)
