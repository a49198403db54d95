-- ===== src/Queue/Attempts.antt =====
-- What every row of a queue keeps: the columns that belong to its status and the bound on its attempts.
use tweet_db.Base.{
  ℕ, ◌+◌, ◌≤◌, ◌<◌, ◌≡◌, refl, Bool, true, false, Option, none, some, List, [], ◌∷◌, arith, ◌==◌,
  String, take, ◌&&◌, ltb, leb, All, All-of, All-map, All-zip, All-take, Bool-cases, inl, inr,
}
use tweet_db.Queue.{
  Status, pending, processing, completed, failed, canceled, Row, can_claim, claimable_status,
  is_stale, is_processing, candidates, claimed, ids, member, update_where, claim, must_expire,
  expired, expire_stale_tasks, after_failure, completed_row,
}
use tweet_db.Queue.Claims.{candidates-All, update_where-All}

abbrev pub is_set {ℓ} : {A : Type ℓ} → Option A → Bool
is_set none = false
is_set (some a) = true

-- The columns of a row with the given status: attempts, whether it is claimed, whether it has ended.
abbrev pub Fits : ℕ → Status → ℕ → Bool → Bool → Bool → Type 0
Fits max pending n by at done = (n < max) × (by ≡ false) × (at ≡ false) × (done ≡ false)
Fits max processing n by at done = (0 < n) × (n ≤ max) × (by ≡ true) × (at ≡ true) × (done ≡ false)
Fits max _ n by at done = (n ≤ max) × (by ≡ false) × (at ≡ false) × (done ≡ true)

claimed_lem :
    (cutoff max m n : ℕ) (s : Status) (by at done : Bool) (stale : Bool)
    → max ≤ m
    → Fits m s n by at done
    → claimable_status s (stale && ltb n max) ≡ true
    → (n + 1 ≤ m) × (done ≡ false)
claimed_lem cutoff max m n pending by at done stale up (lt, by0, at0, none_done) h =
    (omega arith, none_done)
claimed_lem cutoff max m n processing by at done stale up (pos, le, by1, at1, none_done) h =
    (ground arith, none_done)
claimed_lem cutoff max m n completed by at done stale up w h = absurd (ground arith)
claimed_lem cutoff max m n failed by at done stale up w h = absurd (ground arith)
claimed_lem cutoff max m n canceled by at done stale up w h = absurd (ground arith)

attempts_bounded : (max n : ℕ) (s : Status) (by at done : Bool) → Fits max s n by at done → n ≤ max
attempts_bounded max n pending by at done (lt, by0, at0, d) = omega arith
attempts_bounded max n processing by at done (pos, le, by1, at1, d) = le
attempts_bounded max n completed by at done (le, by0, at0, d) = le
attempts_bounded max n failed by at done (le, by0, at0, d) = le
attempts_bounded max n canceled by at done (le, by0, at0, d) = le

Fits-suc :
    (m n : ℕ) (s : Status) (by at done : Bool) → Fits m s n by at done → Fits (m + 1) s n by at done
Fits-suc m n pending by at done (lt, by0, at0, d) = (omega arith, by0, at0, d)
Fits-suc m n processing by at done (pos, le, by1, at1, d) = (pos, omega arith, by1, at1, d)
Fits-suc m n completed by at done (le, by0, at0, d) = (omega arith, by0, at0, d)
Fits-suc m n failed by at done (le, by0, at0, d) = (omega arith, by0, at0, d)
Fits-suc m n canceled by at done (le, by0, at0, d) = (omega arith, by0, at0, d)

module _ {X : Type 0} where
  abbrev pub WellFormed : ℕ → Row X → Type 0
  WellFormed max r =
      Fits max r.status r.attempt_count (is_set r.claimed_by) (is_set r.claimed_at)
        (is_set r.completed_at)

  -- The primary key.
  abbrev pub Unique : List (Row X) → Type 0
  Unique [] = Unit {0}
  Unique (r ∷ rows) = All (λ x. (x.id == r.id) ≡ false) rows × Unique rows

  claimed-WellFormed :
      (now cutoff max m : ℕ) (worker : String) (r : Row X)
      → max ≤ m
      → WellFormed m r
      → can_claim cutoff max r ≡ true
      → WellFormed m (claimed now worker r)
  unfolding can_claim claimed
  claimed-WellFormed now cutoff max m worker r up w h =
      let (le, done) =
        claimed_lem cutoff max m r.attempt_count r.status (is_set r.claimed_by)
          (is_set r.claimed_at) (is_set r.completed_at) (is_stale cutoff r.claimed_at) up w h in
      (omega arith, le, refl, refl, done)

  pub bounded : (max : ℕ) (r : Row X) → WellFormed max r → r.attempt_count ≤ max
  bounded max r w =
      attempts_bounded max r.attempt_count r.status (is_set r.claimed_by) (is_set r.claimed_at)
        (is_set r.completed_at) w

  expired-WellFormed : (now max : ℕ) (r : Row X) → WellFormed max r → WellFormed max (expired now r)
  unfolding expired
  expired-WellFormed now max r w = (bounded max r w, refl, refl, refl)

  pub completed_row-WellFormed :
      (now max : ℕ) (r : Row X) → WellFormed max r → WellFormed max (completed_row now r)
  unfolding completed_row
  completed_row-WellFormed now max r w = (bounded max r w, refl, refl, refl)

  pub after_failure-WellFormed :
      (now max m : ℕ) (message : String) (r : Row X)
      → max ≤ m
      → WellFormed m r
      → WellFormed m (after_failure now max message r)
  unfolding after_failure
  after_failure-WellFormed now max m message r up w = elim (Bool-cases (leb max r.attempt_count)) [
    | inl e ↦ rw e (bounded m r w, refl, refl, refl)
    | inr e ↦ rw e (ground arith, refl, refl, refl)
  ]

  can_claim-distinct :
      (cutoff max : ℕ) (rows : List (Row X))
      → Unique rows
      → All
          (λ r.
            can_claim cutoff max r ≡ false
            → All (λ c. can_claim cutoff max c ≡ true → (c.id == r.id) ≡ false) rows)
          rows
  can_claim-distinct cutoff max [] u = tt
  can_claim-distinct cutoff max (x ∷ rows) u = (
    λ no. (λ yes. absurd (cc (no, yes)), All-map _ (λ c d yes. d) rows u.0),
    All-zip _ (λ r d rest no. (λ yes. ground arith, rest no)) rows u.0
        (can_claim-distinct cutoff max rows u.1),
  )

  not_member :
      (id : ℕ) (rows : List (Row X))
      → All (λ c. (c.id == id) ≡ false) rows
      → member id (ids rows) ≡ false
  unfolding member
  not_member id [] all = refl
  not_member id (r ∷ rows) all = rw (all.0, not_member id rows all.1)

  -- Only tasks that can be claimed have the id of a candidate.
  chosen-can_claim :
      (cutoff max limit : ℕ) (rows : List (Row X))
      → Unique rows
      → All
          (λ r.
            member r.id (ids (take limit (candidates cutoff max rows))) ≡ true
            → can_claim cutoff max r ≡ true)
          rows
  chosen-can_claim cutoff max limit rows u =
      All-map _
        (λ r distinct m. elim (Bool-cases (can_claim cutoff max r)) [
          | inl e ↦ e
          | inr e ↦
              let none_of = not_member r.id (take limit (candidates cutoff max rows)) (
                All-take _ limit (candidates cutoff max rows)
                  (candidates-All (λ c. (c.id == r.id) ≡ false) cutoff max rows (distinct e))) in
              absurd (cc (none_of, m))
        ])
        rows (can_claim-distinct cutoff max rows u)

  update_where-distinct :
      (test : Row X → Bool) (change : Row X → Row X) (id : ℕ) (rows : List (Row X))
      → ((r : Row X) → (change r).id ≡ r.id)
      → All (λ x. (x.id == id) ≡ false) rows
      → All (λ x. (x.id == id) ≡ false) (update_where test change rows)
  update_where-distinct test change id rows same all =
      update_where-All _ test change rows (All-map _ (λ x d. (λ t. rw (same x) d, λ t. d)) rows all)

  update_where-Unique :
      (test : Row X → Bool) (change : Row X → Row X) (rows : List (Row X))
      → ((r : Row X) → (change r).id ≡ r.id)
      → Unique rows
      → Unique (update_where test change rows)
  unfolding update_where
  update_where-Unique test change [] same u = tt
  update_where-Unique test change (r ∷ rows) same u = (
    elim (Bool-cases (test r)) [
      | inl e ↦ rw (e, same r) (update_where-distinct test change r.id rows same u.0)
      | inr e ↦ rw e (update_where-distinct test change r.id rows same u.0)
    ],
    update_where-Unique test change rows same u.1,
  )

  -- A table whose ids are unique and whose rows are well formed.
  abbrev pub Healthy : ℕ → List (Row X) → Type 0
  Healthy max rows = Unique rows × All (WellFormed max) rows

  pub update_where-Healthy :
      (max : ℕ) (test : Row X → Bool) (change : Row X → Row X) (rows : List (Row X))
      → ((r : Row X) → (change r).id ≡ r.id)
      → All (λ r. test r ≡ true → WellFormed max r → WellFormed max (change r)) rows
      → Healthy max rows
      → Healthy max (update_where test change rows)
  update_where-Healthy max test change rows same keeps h = (
    update_where-Unique test change rows same h.0,
    update_where-All (WellFormed max) test change rows
        (All-zip _ (λ r k w. (λ t. k t w, λ t. w)) rows keeps h.1),
  )

  pub claim-Healthy :
      (now cutoff max m : ℕ) (worker : String) (limit : ℕ) (rows : List (Row X))
      → max ≤ m
      → Healthy m rows
      → Healthy m (claim now cutoff max worker limit rows).0
  unfolding claim claimed
  claim-Healthy now cutoff max m worker limit rows up h =
      update_where-Healthy m (λ r. member r.id (ids (take limit (candidates cutoff max rows))))
        (claimed now worker) rows (λ r. refl)
        (All-map _ (λ r can mem w. claimed-WellFormed now cutoff max m worker r up w (can mem)) rows
          (chosen-can_claim cutoff max limit rows h.0))
        h

  pub expire_stale_tasks-Healthy :
      (now cutoff max m : ℕ) (rows : List (Row X))
      → Healthy m rows
      → Healthy m (expire_stale_tasks now cutoff max rows)
  unfolding expire_stale_tasks expired
  expire_stale_tasks-Healthy now cutoff max m rows h =
      update_where-Healthy m (must_expire cutoff max) (expired now) rows (λ r. refl)
        (All-of _ (λ r t w. expired-WellFormed now m r w) rows) h

  -- A greater bound.
  WellFormed-suc : (m : ℕ) (r : Row X) → WellFormed m r → WellFormed (m + 1) r
  WellFormed-suc m r w =
      Fits-suc m r.attempt_count r.status (is_set r.claimed_by) (is_set r.claimed_at)
        (is_set r.completed_at) w

  pub Healthy-suc : (m : ℕ) (rows : List (Row X)) → Healthy m rows → Healthy (m + 1) rows
  Healthy-suc m rows h = (h.0, All-map _ (WellFormed-suc m) rows h.1)

  -- Neither update leaves a row processing.
  pub completed_row-ended :
      (now : ℕ) (r : Row X) → is_processing (completed_row now r).status ≡ false
  unfolding completed_row
  completed_row-ended now r = refl

  pub after_failure-ended :
      (now max : ℕ) (message : String) (r : Row X)
      → is_processing (after_failure now max message r).status ≡ false
  unfolding after_failure
  after_failure-ended now max message r = elim (Bool-cases (leb max r.attempt_count)) [
    | inl e ↦ rw e refl
    | inr e ↦ rw e refl
  ]
