-- ===== src/Queue/Claims.antt =====
-- Which tasks a claim takes.
use tweet_db.Base.{
  ℕ, zero, suc, ◌≤◌, ◌<◌, ◌≡◌, refl, Bool, true, false, List, [], ◌∷◌, map, arith, String, take,
  drop, All, All-of, All-map, All-zip, All-take, All-drop, All-image, keep, length,
  take-append-drop, length-take, drop_all, ◌++◌, sym, ap, Bool-cases, inl, inr,
}
use mathlib.Core.Path.{subst}
use mathlib.Core.List.{Perm}
use mathlib.Core.List.Perm
use tweet_db.Queue.{
  Row, can_claim, before, insert_sorted, candidates, claimed, ids, member, update_where, claim,
}

module _ {X : Type 0} where
  -- Nothing that stands behind a task goes before it.
  abbrev pub Ordered : List (Row X) → Type 0
  Ordered [] = Unit {0}
  Ordered (r ∷ rows) = All (λ later. before later r ≡ false) rows × Ordered rows

  insert_sorted-All {κ} :
      (P : Row X → Type κ) (r : Row X) (rows : List (Row X))
      → P r
      → All P rows
      → All P (insert_sorted r rows)
  unfolding insert_sorted
  insert_sorted-All P r [] p all = (p, tt)
  insert_sorted-All P r (x ∷ xs) p all = elim (Bool-cases (before x r)) [
    | inl b ↦ rw b (all.0, insert_sorted-All P r xs p all.1)
    | inr b ↦ rw b (p, all)
  ]

  before_asym : (a b : Row X) → before a b ≡ true → before b a ≡ false
  unfolding before
  before_asym a b h = ground arith

  before_trans : (a b c : Row X) → before b a ≡ false → before c b ≡ false → before c a ≡ false
  unfolding before
  before_trans a b c h k = ground arith

  before_step : (a b c : Row X) → before a b ≡ true → before c a ≡ true → before c b ≡ true
  unfolding before
  before_step a b c h k = ground arith

  insert_sorted-Ordered :
      (r : Row X) (rows : List (Row X)) → Ordered rows → Ordered (insert_sorted r rows)
  unfolding insert_sorted
  insert_sorted-Ordered r [] o = (tt, tt)
  insert_sorted-Ordered r (x ∷ xs) o = elim (Bool-cases (before x r)) [
    | inl b ↦ rw b (
      insert_sorted-All (λ later. before later x ≡ false) r xs (before_asym x r b) o.0,
      insert_sorted-Ordered r xs o.1,
    )
    | inr b ↦ rw b ((b, All-map _ (λ later h. before_trans r x later b h) xs o.0), o)
  ]

  candidates-Ordered :
      (cutoff max_attempts : ℕ) (rows : List (Row X))
      → Ordered (candidates cutoff max_attempts rows)
  unfolding candidates
  candidates-Ordered cutoff max_attempts [] = tt
  candidates-Ordered cutoff max_attempts (r ∷ rows) =
      elim (Bool-cases (can_claim cutoff max_attempts r)) [
        | inl e ↦ rw e (
            insert_sorted-Ordered r (candidates cutoff max_attempts rows)
              (candidates-Ordered cutoff max_attempts rows))
        | inr e ↦ rw e (candidates-Ordered cutoff max_attempts rows)
      ]

  pub candidates-All {κ} :
      (P : Row X → Type κ) (cutoff max_attempts : ℕ) (rows : List (Row X))
      → All (λ r. can_claim cutoff max_attempts r ≡ true → P r) rows
      → All P (candidates cutoff max_attempts rows)
  unfolding candidates
  candidates-All P cutoff max_attempts [] all = tt
  candidates-All P cutoff max_attempts (r ∷ rows) all =
      elim (Bool-cases (can_claim cutoff max_attempts r)) [
        | inl e ↦ rw e (
            insert_sorted-All P r (candidates cutoff max_attempts rows) (all.0 e)
              (candidates-All P cutoff max_attempts rows all.1))
        | inr e ↦ rw e (candidates-All P cutoff max_attempts rows all.1)
      ]

  pub update_where-All {κ} :
      (P : Row X → Type κ) (test : Row X → Bool) (change : Row X → Row X) (rows : List (Row X))
      → All (λ r. (test r ≡ true → P (change r)) × (test r ≡ false → P r)) rows
      → All P (update_where test change rows)
  unfolding update_where
  update_where-All P test change [] all = tt
  update_where-All P test change (r ∷ rows) all = (
    elim (Bool-cases (test r)) [ inl e ↦ rw e (all.0.0 e) | inr e ↦ rw e (all.0.1 e) ],
    update_where-All P test change rows all.1,
  )

  Ordered-take :
      (limit : ℕ) (rows : List (Row X))
      → Ordered rows
      → All (λ left. All (λ chosen. before left chosen ≡ false) (take limit rows)) (drop limit rows)
  Ordered-take zero rows o = All-of _ (λ left. tt) rows
  Ordered-take (suc n) [] o = tt
  Ordered-take (suc n) (r ∷ rows) o =
      All-zip _ (λ left h k. (h, k)) (drop n rows) (All-drop _ n rows o.0) (Ordered-take n rows o.1)

  insert_sorted-Perm : (r : Row X) (rows : List (Row X)) → Perm (r ∷ rows) (insert_sorted r rows)
  unfolding insert_sorted
  insert_sorted-Perm r [] = Perm.refl (r ∷ [])
  insert_sorted-Perm r (x ∷ xs) = elim (Bool-cases (before x r)) [
    | inl b ↦ rw b (Perm.trans (Perm.swap _ _ _) (Perm.cons _ (insert_sorted-Perm r xs)))
    | inr b ↦ rw b (Perm.refl (r ∷ x ∷ xs))
  ]

  candidates-Perm :
      (cutoff max_attempts : ℕ) (rows : List (Row X))
      → Perm (keep (can_claim cutoff max_attempts) rows) (candidates cutoff max_attempts rows)
  unfolding candidates
  candidates-Perm cutoff max_attempts [] = Perm.nil
  candidates-Perm cutoff max_attempts (r ∷ rows) =
      elim (Bool-cases (can_claim cutoff max_attempts r)) [
        | inl e ↦ rw e (
            Perm.trans (Perm.cons _ (candidates-Perm cutoff max_attempts rows))
              (insert_sorted-Perm r (candidates cutoff max_attempts rows)))
        | inr e ↦ rw e (candidates-Perm cutoff max_attempts rows)
      ]

  -- The tasks that a claim may take are divided into those it takes, at most `limit`, which it returns,
  -- and those it leaves, of which none goes before one that it takes and of which there are none when
  -- it takes fewer than `limit`.
  pub claim_takes_first :
      (now cutoff max_attempts : ℕ) (worker : String) (limit : ℕ) (rows : List (Row X))
      → (taken : List (Row X)) × (left : List (Row X)) × Perm
          (keep (can_claim cutoff max_attempts) rows)
          (taken ++ left)
        × All (λ l. All (λ t. before l t ≡ false) taken) left
        × (length taken ≤ limit)
        × (length taken < limit → left ≡ [])
        × ((claim now cutoff max_attempts worker limit rows).1 ≡ map (claimed now worker) taken)
  unfolding claim
  claim_takes_first now cutoff max_attempts worker limit rows =
      let all = candidates cutoff max_attempts rows in
      (
        take limit all,
        drop limit all,
        subst (Perm (keep (can_claim cutoff max_attempts) rows)) (sym (take-append-drop limit all))
            (candidates-Perm cutoff max_attempts rows),
        Ordered-take limit all (candidates-Ordered cutoff max_attempts rows),
        omega (arith, length-take limit all),
        λ h. drop_all limit all (omega (arith, length-take limit all)),
        refl,
      )

  ids-claimed :
      (now : ℕ) (worker : String) (rows : List (Row X))
      → ids (map (claimed now worker) rows) ≡ ids rows
  unfolding claimed
  ids-claimed now worker [] = refl
  ids-claimed now worker (r ∷ rows) = ap (◌∷◌ r.id) (ids-claimed now worker rows)

  can_claim-claimed :
      (now cutoff max_attempts : ℕ) (worker : String) (r : Row X)
      → cutoff < now
      → can_claim cutoff max_attempts (claimed now worker r) ≡ false
  unfolding can_claim claimed
  can_claim-claimed now cutoff max_attempts worker r h = ground arith

  -- After a claim at the time `now`, a claim whose cutoff is before `now` returns none of the tasks
  -- that the first one returned, whatever its worker and limits.
  pub claim_exclusive :
      (now cutoff max_attempts : ℕ) (worker : String) (limit : ℕ) (rows : List (Row X))
      → (now2 cutoff2 max2 : ℕ) (worker2 : String) (limit2 : ℕ) → cutoff2 < now
      → let first = claim now cutoff max_attempts worker limit rows in
        let second = claim now2 cutoff2 max2 worker2 limit2 first.0 in
        All (λ r. member r.id (ids first.1) ≡ false) second.1
  unfolding claim claimed
  claim_exclusive now cutoff max_attempts worker limit rows now2 cutoff2 max2 worker2 limit2 h =
      let chosen = take limit (candidates cutoff max_attempts rows) in
      let after = update_where (λ r. member r.id (ids chosen)) (claimed now worker) rows in
      let again = candidates cutoff2 max2 after in
      rw (ids-claimed now worker chosen) (
        All-image _ (claimed now2 worker2) (take limit2 again) (
          All-take _ limit2 again (
            candidates-All (λ r. member r.id (ids chosen) ≡ false) cutoff2 max2 after
              (update_where-All
                (λ r. can_claim cutoff2 max2 r ≡ true → member r.id (ids chosen) ≡ false)
                (λ r. member r.id (ids chosen)) (claimed now worker) rows
                (All-of _
                  (λ r. (λ m e. cc (can_claim-claimed now cutoff2 max2 worker r h, e), λ m e. m))
                  rows)))))
