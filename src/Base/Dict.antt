-- ===== src/Base/Dict.antt =====
-- Maps with numbers as keys (`BTreeMap`, `HashMap`), as association lists; the program does not
-- observe the order of the entries.
use Prim.Native.Nat.{ℕ}
use mathlib.Core.Path.{◌≡◌, refl, sym, subst}
use mathlib.Core.Logic.{inl, inr}
use mathlib.Core.Option.{Option, none, some}
use mathlib.Core.List.{List, [], ◌∷◌}
use native.Mathlib.Omega.{arith}
use tweet_db.Base.Lists.{All}
use tweet_db.Base.Tests.{Bool-cases, ==_iff, ◌==◌, if◌then◌else◌}

abbrev pub Dict {ℓ} : Type ℓ → Type ℓ
Dict V = List (ℕ × V)

module _ {ℓ} {V : Type ℓ} where
  -- `map.get(&key)`
  unfoldable pub lookup : ℕ → Dict V → Option V
  lookup key [] = none
  lookup key ((at, value) ∷ entries) =
      let later = lookup key entries in if at == key then some value else later

  -- `map.insert(key, new)`
  unfoldable pub insert : ℕ → V → Dict V → Dict V
  insert key new [] = (key, new) ∷ []
  insert key new ((at, old) ∷ entries) =
      let later = (at, old) ∷ insert key new entries in
      if at == key then (key, new) ∷ entries else later

  -- `map.remove(&key)`
  unfoldable pub remove : ℕ → Dict V → Dict V
  remove key [] = []
  remove key ((at, value) ∷ entries) =
      let later = remove key entries in if at == key then later else (at, value) ∷ later

  pub lookup-insert :
      (set key : ℕ) (new : V) (entries : Dict V)
      → lookup key (insert set new entries) ≡ (if set == key then some new else lookup key entries)
  unfolding lookup insert
  lookup-insert set key new [] = refl
  lookup-insert set key new ((at, old) ∷ entries) =
      ground (arith, lookup-insert set key new entries)

  pub lookup-remove :
      (gone key : ℕ) (entries : Dict V)
      → lookup key (remove gone entries) ≡ (if gone == key then none else lookup key entries)
  unfolding lookup remove
  lookup-remove gone key [] = ground arith
  lookup-remove gone key ((at, value) ∷ entries) = ground (arith, lookup-remove gone key entries)

  module _ {κ} (P : ℕ × V → Type κ) where
    pub All-insert :
        (key : ℕ) (new : V) (entries : Dict V)
        → P (key, new)
        → All P entries
        → All P (insert key new entries)
    unfolding insert
    All-insert key new [] own all = (own, tt)
    All-insert key new ((at, old) ∷ entries) own all = elim (Bool-cases (at == key)) [
      | inl same ↦
          subst
            (λ b. All P (if b then (key, new) ∷ entries else (at, old) ∷ insert key new entries))
            (sym same) (own, all.1)
      | inr other ↦
          subst
            (λ b. All P (if b then (key, new) ∷ entries else (at, old) ∷ insert key new entries))
            (sym other) (all.0, All-insert key new entries own all.1)
    ]

    pub All-remove : (key : ℕ) (entries : Dict V) → All P entries → All P (remove key entries)
    unfolding remove
    All-remove key [] all = tt
    All-remove key ((at, old) ∷ entries) all = elim (Bool-cases (at == key)) [
      | inl same ↦
          subst (λ b. All P (if b then remove key entries else (at, old) ∷ remove key entries))
            (sym same) (All-remove key entries all.1)
      | inr other ↦
          subst (λ b. All P (if b then remove key entries else (at, old) ∷ remove key entries))
            (sym other) (all.0, All-remove key entries all.1)
    ]

    -- The value that is found under a key.
    pub All-lookup :
        (key : ℕ) (entries : Dict V) {v : V}
        → All P entries
        → lookup key entries ≡ some v
        → P (key, v)
    unfolding lookup
    All-lookup key [] all h = absurd (cc h)
    All-lookup key ((at, old) ∷ entries) {v} all h = elim (Bool-cases (at == key)) [
      | inl same ↦
          let found : old ≡ v = ground arith in
          subst (λ x. P (key, x)) found (subst (λ k. P (k, old)) ((==_iff at key).0 same) all.0)
      | inr other ↦ All-lookup key entries all.1 (ground arith)
    ]
