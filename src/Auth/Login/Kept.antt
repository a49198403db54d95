-- ===== src/Auth/Login/Kept.antt =====
-- The handlers that keep the sessions bound, one after the other.
use mathlib.Core.Path.{subst}
use tweet_db.Base.{
  ℕ, ◌≡◌, refl, not, if◌then◌else◌, Option, none, some, Bool, true, false, String, AppResult, ok,
  err,
}
use tweet_db.Base.Dict.{lookup, insert, All-insert, All-remove, All-lookup}
use tweet_db.Base.{leb, ◌||◌, ◌+◌, ◌≤◌}
use tweet_db.Base.Int.{is_positive}
use tweet_db.Auth.{is_active}
use tweet_db.Auth.Roles.{is_present}
use tweet_db.Auth.Store.{find_subject_binding}
use tweet_db.Auth.Session.{plus}
use tweet_db.Config.{SessionSection}
use tweet_db.Secrets.{CompoundSecret}
use tweet_db.Auth.{
  SessionRow, AuthorizationRow, PendingSsoLogin, Db, SessionRecord, resume, Action, ◌>>=◌, pure,
  lift,
}
use tweet_db.Auth.Store.{
  is_allowed, StatusUpdate, unless_present, NewSession, inserted_session, create_session,
  update_found, update_authorization_status, upsert_authorization, consume_pending_sso_login,
  delete_session, delete_sessions_by_authorization, insert_audit_event, bind_unbound,
  bind_username_to_subject, register, is_taken,
}
use tweet_db.Auth.Environment.{
  Environment, AuthorizationStatusResponse, SsoExchangeResponse, check_authorization, exchange_code,
}
use tweet_db.Auth.Session.{revoke, session_expires_at, gone, lost, unchanged}
use tweet_db.Auth.Login.{
  authorization_row, open_session, signed_in, exchange_and_sign_in, with_pending, with_state,
  with_cookie, with_code, bind_session, register_session, state_of, new_session, sign_in,
  bound_sign_in, require, called_back, CallbackQuery, sso_callback, notified, revocation_webhook,
  internal_register_complete, internal_logout,
}
use tweet_db.Auth.Roles.{require_pending_registration, normalize_username}
use tweet_db.Auth.Login.Registered.{
  AllBound, IsBound, changed-AllBound, without-AllBound, register-IsBound, new_session_capped,
}

module _ (config : SessionSection) (skew : ℕ) where
  -- Whatever the action answers, the sessions that it leaves are bound if they were before.
  abbrev pub IsKeeping : {A : Type 0} → Action A → Type 0
  IsKeeping action =
      (db : Db) → AllBound config skew db.sessions → AllBound config skew (action db).1.sessions

  resume-IsKeeping :
      {A B : Type 0} (first : AppResult A × Db) (rest : A → Action B)
      → AllBound config skew first.1.sessions
      → ((a : A) → IsKeeping (rest a))
      → AllBound config skew (resume first rest).1.sessions
  resume-IsKeeping (ok a, db) rest h k = k a db h
  resume-IsKeeping (err e, db) rest h k = h

  pub then-IsKeeping :
      {A B : Type 0} (first : Action A) (rest : A → Action B)
      → IsKeeping first
      → ((a : A) → IsKeeping (rest a))
      → IsKeeping (first >>= rest)
  then-IsKeeping first rest h k db all = resume-IsKeeping (first db) rest (h db all) k

  pub choice-AllBound :
      {A : Type 0} (b : Bool) (x y : AppResult A × Db)
      → AllBound config skew x.1.sessions
      → AllBound config skew y.1.sessions
      → AllBound config skew (if b then x else y).1.sessions
  choice-AllBound true x y h k = h
  choice-AllBound false x y h k = k

  pub update-IsKeeping : (id : ℕ) (u : StatusUpdate) → IsKeeping (update_authorization_status id u)
  unfolding update_authorization_status
  update-IsKeeping id u db all = go (lookup id db.authorizations)
    where
      go : (o : Option AuthorizationRow) → AllBound config skew (update_found id u o db).1.sessions
      go none = all
      go (some row) = choice-AllBound (is_allowed u.status) _ _ all all

  pub revoke-IsKeeping : (id : ℕ) (u : StatusUpdate) → IsKeeping (revoke id u)
  unfolding revoke delete_sessions_by_authorization
  revoke-IsKeeping id u =
      then-IsKeeping (update_authorization_status id u) _ (update-IsKeeping id u)
        (λ _ db all. without-AllBound config skew id db.sessions all)

  pub require-IsKeeping :
      {A : Type 0} (o : Option A) (message : String) → IsKeeping (require o message)
  require-IsKeeping none message db all = all
  require-IsKeeping (some a) message db all = all

  upsert-IsKeeping : (id : ℕ) (row : AuthorizationRow) → IsKeeping (upsert_authorization id row)
  unfolding upsert_authorization
  upsert-IsKeeping id row db all = choice-AllBound (is_allowed row.status) _ _ all all

  create-IsKeeping :
      (db_now selector : ℕ) (new : NewSession)
      → IsBound config skew (selector, inserted_session db_now new)
      → IsKeeping (create_session db_now selector new)
  unfolding create_session
  create-IsKeeping db_now selector new own db all = go (lookup selector db.sessions)
    where
      go :
          (o : Option SessionRow)
          → AllBound config skew
              (unless_present o
                (record db { sessions = insert selector (inserted_session db_now new) db.sessions })
                db).1.sessions
      go none = All-insert _ selector (inserted_session db_now new) db.sessions own all
      go (some old) = all

  new_session-IsBound :
      (env : Environment) (now db_now : ℕ) (secret : CompoundSecret)
      (exchange : SsoExchangeResponse)
      → (user : Option ℕ) → env.session ≡ config
      → now ≤ db_now + skew
      → IsBound config skew
          (secret.selector, inserted_session db_now (new_session env now secret exchange user))
  new_session-IsBound env now db_now secret exchange user at synced = (
    owned user,
    subst
        (λ c.
          (not (is_positive c.absolute_ttl_hours)
            || leb (session_expires_at env.session now now)
                (plus 3600 db_now c.absolute_ttl_hours + skew))
          ≡ true)
        at (new_session_capped env.session skew now db_now synced),
  )
    where
      owned : (o : Option ℕ) → (not (is_active (state_of o)) || is_present o) ≡ true
      owned none = refl
      owned (some u) = refl

  pub sign_in-IsKeeping :
      (env : Environment) (now db_now : ℕ) (secret : CompoundSecret)
      (exchange : SsoExchangeResponse)
      → (user : Option ℕ) → env.session ≡ config
      → now ≤ db_now + skew
      → IsKeeping (sign_in env now db_now secret exchange user)
  unfolding sign_in insert_audit_event
  sign_in-IsKeeping env now db_now secret exchange user at synced =
      let new = new_session env now secret exchange user in
      then-IsKeeping
        (upsert_authorization exchange.authorization_id (authorization_row now exchange user))
        (λ _. open_session env now db_now secret exchange user)
        (upsert-IsKeeping exchange.authorization_id (authorization_row now exchange user))
        (λ _.
          then-IsKeeping (create_session db_now secret.selector new) (λ _. signed_in secret user)
            (create-IsKeeping db_now secret.selector new
              (new_session-IsBound env now db_now secret exchange user at synced))
            (λ _ db all. all))

  lift-IsKeeping : {A : Type 0} (r : AppResult A) → IsKeeping (lift r)
  lift-IsKeeping r db all = all

  exchange-IsKeeping :
      (env : Environment) (now db_now : ℕ) (secret : CompoundSecret) (code : String)
      (pending : PendingSsoLogin)
      → env.session ≡ config
      → now ≤ db_now + skew
      → IsKeeping (exchange_and_sign_in env now db_now secret code pending)
  exchange-IsKeeping env now db_now secret code pending at synced =
      then-IsKeeping (lift (exchange_code env code pending.code_verifier))
        (λ exchange. (bound_sign_in env now db_now secret exchange >>= λ _. pure true))
        (lift-IsKeeping (exchange_code env code pending.code_verifier))
        (λ exchange.
          then-IsKeeping (bound_sign_in env now db_now secret exchange) (λ _. pure true)
            (λ db.
              sign_in-IsKeeping env now db_now secret exchange
                (find_subject_binding exchange.subject_id db) at synced db)
            (λ _ db all. all))

  pub called_back-IsKeeping :
      (env : Environment) (now db_now : ℕ) (secret : CompoundSecret)
      (error code cookie : Option String)
      → env.session ≡ config
      → now ≤ db_now + skew
      → IsKeeping (called_back env now db_now secret error code cookie)
  unfolding consume_pending_sso_login
  called_back-IsKeeping env now db_now secret (some e) code cookie at synced = λ db all. all
  called_back-IsKeeping env now db_now secret none code cookie at synced =
      then-IsKeeping (require code "missing callback code") (with_code env now db_now secret cookie)
        (require-IsKeeping code "missing callback code")
        (λ c.
          then-IsKeeping (require cookie "missing pending login state")
            (with_cookie env now db_now secret c)
            (require-IsKeeping cookie "missing pending login state")
            (λ text.
              then-IsKeeping (require (env.parse_uuid text) "invalid pending login state")
                (with_state env now db_now secret c)
                (require-IsKeeping (env.parse_uuid text) "invalid pending login state")
                (λ state.
                  then-IsKeeping (consume_pending_sso_login state now)
                    (with_pending env now db_now secret c) (λ db all. all)
                    (λ found.
                      then-IsKeeping (require found "pending login expired")
                        (exchange_and_sign_in env now db_now secret c)
                        (require-IsKeeping found "pending login expired")
                        (λ pending.
                          exchange-IsKeeping env now db_now secret c pending at synced)))))

  pub sso_callback-IsKeeping :
      (env : Environment) (now db_now : ℕ) (secret : CompoundSecret) (cookie : Option String)
      → (query : CallbackQuery) → env.session ≡ config
      → now ≤ db_now + skew
      → IsKeeping (sso_callback env now db_now secret cookie query)
  unfolding sso_callback
  sso_callback-IsKeeping env now db_now secret cookie query at synced =
      called_back-IsKeeping env now db_now secret query.error query.code cookie at synced

  notified-IsKeeping :
      (id now : ℕ) (o : Option AuthorizationStatusResponse) → IsKeeping (notified id now o)
  notified-IsKeeping id now none db all = revoke-IsKeeping id (gone now) db all
  notified-IsKeeping id now (some status) db all = chosen status.active
    where
      chosen :
          (b : Bool)
          → AllBound config skew
              ((if not b then revoke id (lost status now) else pure unchanged) db).1.sessions
      chosen true = all
      chosen false = revoke-IsKeeping id (lost status now) db all

  pub webhook-IsKeeping :
      (env : Environment) (now id : ℕ) → IsKeeping (revocation_webhook env now id)
  unfolding revocation_webhook
  webhook-IsKeeping env now id =
      then-IsKeeping (lift (check_authorization env id)) (notified id now)
        (lift-IsKeeping (check_authorization env id)) (notified-IsKeeping id now)

  bind-IsKeeping :
      (same_name : String → String → Bool) (user_id : ℕ) (username : String)
      (subject authorization_id selector now : ℕ)
      → IsKeeping (
          bind_username_to_subject same_name user_id username subject authorization_id selector now)
  unfolding bind_username_to_subject insert_audit_event
  bind-IsKeeping same_name user_id username subject authorization_id selector now db all =
      choice-AllBound (is_taken same_name username db.users) _ _ all
        (unbound (lookup subject db.subjects))
    where
      registered :
          (row : SessionRow)
          → lookup selector db.sessions ≡ some row
          → IsBound config skew (selector, register user_id row)
      registered row at =
          register-IsBound config skew selector user_id row
            (All-lookup _ selector db.sessions all at)

      unbound :
          (o : Option ℕ)
          → AllBound config skew
              (bind_unbound o user_id username subject authorization_id selector now db).1.sessions
      unbound none =
          changed-AllBound config skew selector (register user_id) (lookup selector db.sessions)
            db.sessions registered all
      unbound (some other) = all

  pub register-IsKeeping :
      (env : Environment) (now user_id : ℕ) (session : Option SessionRecord) (raw : String)
      → IsKeeping (internal_register_complete env now user_id session raw)
  unfolding internal_register_complete
  register-IsKeeping env now user_id session raw =
      then-IsKeeping (lift (require_pending_registration session))
        (register_session env now user_id raw)
        (lift-IsKeeping (require_pending_registration session))
        (λ s.
          then-IsKeeping (lift (normalize_username env.trim env.is_word raw))
            (bind_session env now user_id s)
            (lift-IsKeeping (normalize_username env.trim env.is_word raw))
            (λ username.
              bind-IsKeeping env.same_name user_id username s.sso_subject_id s.authorization_id
                s.selector now))

  pub logout-IsKeeping : (session : Option SessionRecord) → IsKeeping (internal_logout session)
  unfolding internal_logout delete_session insert_audit_event
  logout-IsKeeping none db all = all
  logout-IsKeeping (some s) db all = All-remove _ s.selector db.sessions all
