-- ===== src/Auth.antt =====
-- server/src/auth and the part of server/src/db.rs that it calls: the rows of the schema iam, and
-- what a handler does to them. Uuids and times, in seconds, are numbers; the comparison of user
-- names in the database (citext) is a parameter. A failure of the connection itself is left out.
pub mod Store
pub mod Environment
pub mod Session
pub mod Roles
pub mod Login
use tweet_db.Base.{
  ℕ, ◌==◌, Option, none, some, Bool, true, false, not, ◌&&◌, ◌||◌, List, [], ◌∷◌, if◌then◌else◌,
  String, same_text, AppResult, ok, err, AppError, ◌≡◌, refl, arith,
}
use tweet_db.Base.Dict.{Dict}

pub record SessionRow : Type 0 where
  pub verifier_hash : List ℕ
  pub user_id : Option ℕ
  pub sso_subject_id : ℕ
  pub authorization_id : ℕ
  pub registration_state : String
  pub expires_at : ℕ
  pub last_seen_at : ℕ
  pub created_at : ℕ

pub record UserRow : Type 0 where
  pub username : String
  pub is_admin : Bool
  pub disabled_at : Option ℕ
  pub disabled_by_user_id : Option ℕ

pub record AuthorizationRow : Type 0 where
  pub sso_subject_id : ℕ
  pub user_id : Option ℕ
  pub status : String
  pub last_checked_at : ℕ
  pub remote_expires_at : Option ℕ
  pub revoked_at : Option ℕ

pub record PendingSsoLogin : Type 0 where
  pub code_verifier : String
  pub expires_at : ℕ

pub record AuditEvent : Type 0 where
  pub actor_user_id : Option ℕ
  pub event_type : String
  pub resource_type : String
  pub resource_id : Option ℕ

-- The tables by their keys; `subjects` gives the user of an SSO subject.
pub record Db : Type 0 where
  pub sessions : Dict SessionRow
  pub users : Dict UserRow
  pub authorizations : Dict AuthorizationRow
  pub subjects : Dict ℕ
  pub pending_logins : Dict PendingSsoLogin
  pub audit_events : List AuditEvent

-- A row of `find_session`.
pub record SessionRecord : Type 0 where
  pub selector : ℕ
  pub verifier_hash : List ℕ
  pub user_id : Option ℕ
  pub username : Option String
  pub user_is_admin : Bool
  pub user_disabled_at : Option ℕ
  pub user_disabled_by_user_id : Option ℕ
  pub sso_subject_id : ℕ
  pub authorization_id : ℕ
  pub registration_state : String
  pub expires_at : ℕ
  pub last_seen_at : ℕ
  pub created_at : ℕ
  pub authorization_status : String
  pub authorization_last_checked_at : ℕ
  pub authorization_remote_expires_at : Option ℕ

-- What a handler does: an answer or an error, and the database it leaves.
abbrev pub Action {ℓ} : Type ℓ → Type ℓ
Action A = Db → AppResult A × Db

module _ {ℓ κ} {A : Type ℓ} {B : Type κ} where
  abbrev pub resume : AppResult A × Db → (A → Action B) → AppResult B × Db
  resume (ok a, db) rest = rest a db
  resume (err e, db) rest = (err e, db)

  infixl 5 ◌>>=◌
  -- `.await?`
  abbrev pub ◌>>=◌ : Action A → (A → Action B) → Action B
  action >>= rest = λ db. resume (action db) rest

  -- What a chain that succeeds went through.
  pub resume-eq-ok :
      (first : AppResult A × Db) (rest : A → Action B) {result : B} {after : Db}
      → resume first rest ≡ (ok result, after)
      → (a : A) × (db : Db) × (first ≡ (ok a, db)) × (rest a db ≡ (ok result, after))
  resume-eq-ok (ok a, db) rest h = (a, db, refl, h)
  resume-eq-ok (err e, db) rest h = ground arith

abbrev pub pure {ℓ} : {A : Type ℓ} → A → Action A
pure a = λ db. (ok a, db)

abbrev pub fails {ℓ} : {A : Type ℓ} → AppError → Action A
fails e = λ db. (err e, db)

abbrev pub lift {ℓ} : {A : Type ℓ} → AppResult A → Action A
lift r = λ db. (r, db)

abbrev pub is_active : String → Bool
is_active status = same_text status "active"

-- `==` on bytes.
unfoldable pub same_bytes : List ℕ → List ℕ → Bool
same_bytes [] [] = true
same_bytes [] (y ∷ ys) = false
same_bytes (x ∷ xs) [] = false
same_bytes (x ∷ xs) (y ∷ ys) = (x == y) && same_bytes xs ys
