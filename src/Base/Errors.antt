-- ===== src/Base/Errors.antt =====
-- server/src/error.rs: an error is a kind and a message; `AppResult` is Rust's `Result`.
use Prim.Native.Nat.{ℕ}
use Prim.Native.String.{String}
use mathlib.Core.Path.{◌≡◌, refl}
use mathlib.Core.Logic.{◌⊎◌, inl, inr}
use mathlib.Core.List.{List}

-- A message is the list of the pieces that `format!` joins.
pub data Piece : Type 0 where
  text : String → Piece
  num : ℕ → Piece

abbrev pub Message : Type 0
Message = List Piece

-- The variants that wrap another library's error keep its message.
pub data AppError : Type 0 where
  bad_request unauthorized forbidden not_found conflict service_unavailable : Message → AppError
  upstream config search sqlx sqlx_migrate reqwest serde_json io : Message → AppError

-- `status_code`: the HTTP status that a failed request is answered with.
unfoldable pub status_code : AppError → ℕ
status_code (bad_request _) = 400
status_code (unauthorized _) = 401
status_code (forbidden _) = 403
status_code (not_found _) = 404
status_code (conflict _) = 409
status_code (service_unavailable _) = 503
status_code (upstream _) = 502
status_code (search _) = 500
status_code (config _) = 500
status_code (sqlx _) = 500
status_code (sqlx_migrate _) = 500
status_code (reqwest _) = 500
status_code (serde_json _) = 500
status_code (io _) = 500

pub data AppResult {ℓ} (A : Type ℓ) : Type ℓ where
  ok : A → AppResult A
  err : AppError → AppResult A

module _ {ℓ κ} {A : Type ℓ} {B : Type κ} where
  infixl 5 ◌>>=◌
  -- The `?` operator: the first error ends the function.
  abbrev pub ◌>>=◌ : AppResult A → (A → AppResult B) → AppResult B
  err e >>= rest = err e
  ok value >>= rest = rest value

  -- What a chain that succeeds went through.
  pub >>=-eq-ok :
      (first : AppResult A) (rest : A → AppResult B) {result : B}
      → (first >>= rest) ≡ ok result
      → (value : A) × (first ≡ ok value) × (rest value ≡ ok result)
  >>=-eq-ok (err e) rest p = cc
  >>=-eq-ok (ok value) rest p = (value, refl, p)

infixl 5 ◌>>◌
abbrev pub ◌>>◌ {ℓ} : {B : Type ℓ} → AppResult (Unit {0}) → AppResult B → AppResult B
check >> rest = check >>= λ _. rest

pub AppResult-cases {ℓ} :
    {A : Type ℓ} (r : AppResult A) → ((a : A) × (r ≡ ok a)) ⊎ ((e : AppError) × (r ≡ err e))
AppResult-cases (err e) = inr (e, refl)
AppResult-cases (ok a) = inl (a, refl)
