-- ===== src/Auth/Session/Revoked.antt =====
-- What happens to the sessions of an authorization that the SSO server no longer holds active.
use mathlib.Core.Path.{subst}
use tweet_db.Base.{
  ℕ, ◌≡◌, refl, sym, ◌⊎◌, inl, inr, ◌==◌, not, if◌then◌else◌, Option, none, some, true, false, [],
  ◌∷◌, All, AppResult, ok, err, Bool-cases, arith,
}
use tweet_db.Base.Dict.{Dict, lookup}
use tweet_db.Auth.{SessionRow, AuthorizationRow, Db, resume, ◌>>=◌, lift, pure}
use tweet_db.Auth.Store.{
  StatusUpdate, is_allowed, without_authorization, delete_sessions_by_authorization, update_found,
  update_authorization_status,
}
use tweet_db.Auth.Environment.{Environment, AuthorizationStatusResponse, check_authorization}
use tweet_db.Auth.Session.{unchanged, revoked, revoke, gone, lost}
use tweet_db.Auth.Login.{notified, revocation_webhook}

-- No session of the authorization is left.
abbrev pub IsFree : ℕ → Dict SessionRow → Type 0
IsFree id rows = All (λ e. (e.1.authorization_id == id) ≡ false) rows

without_authorization-IsFree :
    (id : ℕ) (rows : Dict SessionRow) → IsFree id (without_authorization id rows)
unfolding without_authorization
without_authorization-IsFree id [] = tt
without_authorization-IsFree id ((selector, row) ∷ rows) =
    let rest = without_authorization id rows in
    elim (Bool-cases (row.authorization_id == id)) [
      | inl same ↦
          subst (λ b. IsFree id (if b then rest else (selector, row) ∷ rest)) (sym same)
            (without_authorization-IsFree id rows)
      | inr other ↦
          subst (λ b. IsFree id (if b then rest else (selector, row) ∷ rest)) (sym other)
            (other, without_authorization-IsFree id rows)
    ]

update_found_ok :
    (id : ℕ) (u : StatusUpdate) (o : Option AuthorizationRow) (db : Db)
    → is_allowed u.status ≡ true
    → (update_found id u o db).0 ≡ ok tt
update_found_ok id u none db h = refl
update_found_ok id u (some row) db h = ground arith

resume_revoked-IsFree :
    (r : AppResult (Unit {0}) × Db) (id : ℕ)
    → r.0 ≡ ok tt
    → ((resume r (λ _ db. (ok revoked, delete_sessions_by_authorization id db))).0 ≡ ok revoked)
      × IsFree id
          (resume r (λ _ db. (ok revoked, delete_sessions_by_authorization id db))).1.sessions
unfolding delete_sessions_by_authorization
resume_revoked-IsFree (ok u, db) id h = (refl, without_authorization-IsFree id db.sessions)
resume_revoked-IsFree (err e, db) id h = absurd (cc h)

pub revoke-IsFree :
    (id : ℕ) (u : StatusUpdate) (db : Db)
    → is_allowed u.status ≡ true
    → ((revoke id u db).0 ≡ ok revoked) × IsFree id (revoke id u db).1.sessions
unfolding revoke update_authorization_status
revoke-IsFree id u db h =
    resume_revoked-IsFree (update_found id u (lookup id db.authorizations) db) id
      (update_found_ok id u (lookup id db.authorizations) db h)

-- The SSO server does not know the authorization, or says that it is revoked or expired.
abbrev pub IsLost : AppResult (Option AuthorizationStatusResponse) → Type 0
IsLost answer =
    (answer ≡ ok none)
    ⊎ ((status : AuthorizationStatusResponse) × (answer ≡ ok (some status))
        × (status.active ≡ false)
        × (is_allowed status.status ≡ true))

gone_allowed : (now : ℕ) → is_allowed (gone now).status ≡ true
unfolding is_allowed
gone_allowed now = refl

notified-IsFree :
    (id now : ℕ) (answer : AppResult (Option AuthorizationStatusResponse)) (db : Db)
    → IsLost answer
    → (((lift answer >>= notified id now) db).0 ≡ ok revoked)
      × IsFree id ((lift answer >>= notified id now) db).1.sessions
notified-IsFree id now (err e) db (inl h) = absurd (cc h)
notified-IsFree id now (err e) db (inr (status, h, k, l)) = absurd (cc h)
notified-IsFree id now (ok none) db h = revoke-IsFree id (gone now) db (gone_allowed now)
notified-IsFree id now (ok (some s)) db (inl h) = absurd (ground arith)
notified-IsFree id now (ok (some s)) db (inr (status, h, k, l)) =
    let off : s.active ≡ false = ground arith in
    let allowed : is_allowed s.status ≡ true = ground arith in
    subst
      (λ b.
        (((if not b then revoke id (lost s now) else pure unchanged) db).0 ≡ ok revoked)
        × IsFree id ((if not b then revoke id (lost s now) else pure unchanged) db).1.sessions)
      (sym off) (revoke-IsFree id (lost s now) db allowed)

-- When the webhook is called for an authorization that the SSO server does not know, or that it holds
-- not active with the status active, revoked or expired, the webhook succeeds and no session of the
-- authorization is left.
pub revocation_webhook-IsFree :
    (env : Environment) (now id : ℕ) (db : Db)
    → IsLost (check_authorization env id)
    → ((revocation_webhook env now id db).0 ≡ ok revoked)
      × IsFree id (revocation_webhook env now id db).1.sessions
unfolding revocation_webhook
revocation_webhook-IsFree env now id db h = notified-IsFree id now (check_authorization env id) db h
