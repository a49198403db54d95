-- ===== src/Auth/Roles/Guards.antt =====
-- What the guards let through.
use tweet_db.Base.{
  ℕ, ◌≡◌, ◌↔◌, Option, none, some, Bool, true, not, ◌&&◌, if◌then◌else◌, AppResult, ok, err,
  status_code, arith,
}
use tweet_db.Auth.{SessionRecord, is_active}
use tweet_db.Auth.Roles.{
  require_registered_session, require_admin_session, build_internal_session_me_response,
}

-- The guard of the administration lets exactly those sessions through whose registration is complete,
-- whose user is not disabled and is an administrator.
pub require_admin_session_iff :
    (session : Option SessionRecord) (s : SessionRecord)
    → (require_admin_session session ≡ ok s) ↔ (
        (session ≡ some s)
        × (is_active s.registration_state ≡ true)
        × (s.user_disabled_at ≡ none)
        × (s.user_is_admin ≡ true))
unfolding require_admin_session require_registered_session
require_admin_session_iff session s = (λ h. ground arith, λ h. ground arith)

-- The status of the answer, 200 where the guard lets the session through.
abbrev pub status_of {ℓ} : {A : Type ℓ} → AppResult A → ℕ
status_of (ok a) = 200
status_of (err e) = status_code e

-- A refused session: 401 if there is none or its registration is not complete, else 403.
abbrev pub expected : Bool → Bool → ℕ
expected registered allowed = if allowed then 200 else if registered then 403 else 401

-- What the client is told of its session agrees with the guards: a request passes the guard of the
-- administration if it is registered, not disabled and an administrator, is answered with 403 if it
-- is registered and one of the others fails, and with 401 if it is not registered; likewise for the
-- guard of registered sessions without the last condition.
pub require_admin_session-build_internal :
    (session : Option SessionRecord)
    → let me = build_internal_session_me_response session in
      (status_of (require_admin_session session)
        ≡ expected me.registered (me.registered && (not me.disabled && me.is_admin)))
      × (status_of (require_registered_session session)
          ≡ expected me.registered (me.registered && not me.disabled))
unfolding require_admin_session require_registered_session build_internal_session_me_response
    status_code
require_admin_session-build_internal session = (ground arith, ground arith)
