-- ===== src/Auth/Login/Registered.antt =====
-- What holds of every session in the database, whatever requests are handled.
use mathlib.Core.Path.{subst}
use tweet_db.Base.{
  ℕ, ◌≡◌, ◌+◌, ◌≤◌, ltb, ◌&&◌, refl, sym, ◌==◌, leb, not, ◌||◌, if◌then◌else◌, Option, none, some,
  Bool, true, [], ◌∷◌, All, Bool-cases, arith, inl, inr,
}
use tweet_db.Base.Dict.{Dict, All-insert}
use tweet_db.Base.Int.{ℤ, pos, negsuc, is_positive}
use tweet_db.Config.{SessionSection}
use tweet_db.Auth.{SessionRow, is_active}
use tweet_db.Auth.Roles.{is_present}
use tweet_db.Auth.Store.{changed, touched, register, without_authorization}
use tweet_db.Auth.Session.{plus, session_expires_at}

-- A session that is registered has a user.
abbrev pub is_owned : SessionRow → Bool
is_owned row = not (is_active row.registration_state) || is_present row.user_id

-- A session does not outlive the absolute limit, if there is one, by more than `skew` seconds.
abbrev pub is_capped : SessionSection → ℕ → SessionRow → Bool
is_capped config skew row =
    not (is_positive config.absolute_ttl_hours)
    || leb row.expires_at (plus 3600 row.created_at config.absolute_ttl_hours + skew)

abbrev pub IsBound : SessionSection → ℕ → ℕ × SessionRow → Type 0
IsBound config skew e = (is_owned e.1 ≡ true) × (is_capped config skew e.1 ≡ true)

abbrev pub AllBound : SessionSection → ℕ → Dict SessionRow → Type 0
AllBound config skew rows = All (IsBound config skew) rows

pub session_expires_at_capped :
    (config : SessionSection) (skew created_at now : ℕ)
    → (not (is_positive config.absolute_ttl_hours)
        || leb
            (session_expires_at config created_at now)
            (plus 3600 created_at config.absolute_ttl_hours + skew))
      ≡ true
unfolding session_expires_at
session_expires_at_capped config skew created_at now = ground arith

-- The absolute limit is counted from the clock of the program, and the creation by that of the
-- database, which is behind by at most `skew`.
pub new_session_capped :
    (config : SessionSection) (skew now db_now : ℕ)
    → now ≤ db_now + skew
    → (not (is_positive config.absolute_ttl_hours)
        || leb
            (session_expires_at config now now)
            (plus 3600 db_now config.absolute_ttl_hours + skew))
      ≡ true
unfolding session_expires_at
new_session_capped config skew now db_now synced = go config.absolute_ttl_hours
  where
    go :
        (limit : ℤ)
        → (not (is_positive limit)
            || leb
                (if is_positive limit && ltb (plus 3600 now limit) (plus 3600 now config.ttl_hours)
                  then plus 3600 now limit
                  else plus 3600 now config.ttl_hours)
                (plus 3600 db_now limit + skew))
          ≡ true
    go (pos n) = ground arith
    go (negsuc n) = ground arith

pub changed-AllBound :
    (config : SessionSection) (skew key : ℕ) (f : SessionRow → SessionRow) (o : Option SessionRow)
    → (rows : Dict SessionRow)
    → ((row : SessionRow) → o ≡ some row → IsBound config skew (key, f row))
    → AllBound config skew rows
    → AllBound config skew (changed key f o rows)
changed-AllBound config skew key f none rows own all = all
changed-AllBound config skew key f (some row) rows own all =
    All-insert _ key (f row) rows (own row refl) all

pub without-AllBound :
    (config : SessionSection) (skew id : ℕ) (rows : Dict SessionRow)
    → AllBound config skew rows
    → AllBound config skew (without_authorization id rows)
unfolding without_authorization
without-AllBound config skew id [] all = tt
without-AllBound config skew id ((selector, row) ∷ rows) all =
    let rest = without_authorization id rows in
    elim (Bool-cases (row.authorization_id == id)) [
      | inl same ↦
          subst (λ b. AllBound config skew (if b then rest else (selector, row) ∷ rest)) (sym same)
            (without-AllBound config skew id rows all.1)
      | inr other ↦
          subst (λ b. AllBound config skew (if b then rest else (selector, row) ∷ rest)) (sym other)
            (all.0, without-AllBound config skew id rows all.1)
    ]

pub register-IsBound :
    (config : SessionSection) (skew key user : ℕ) (row : SessionRow)
    → IsBound config skew (key, row)
    → IsBound config skew (key, register user row)
register-IsBound config skew key user row bound = (refl, bound.1)

pub touched-IsBound :
    (config : SessionSection) (skew key at now : ℕ) (row : SessionRow)
    → IsBound config skew (key, row)
    → IsBound config skew (key, touched at (session_expires_at config row.created_at now) row)
touched-IsBound config skew key at now row bound =
    (bound.0, session_expires_at_capped config skew row.created_at now)
