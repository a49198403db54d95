-- ===== src/Api/Audit/Order.antt =====
-- The order of the audit events, newest first, and what a cursor cuts off.
use mathlib.Core.List.{Perm}
use mathlib.Core.List.Perm
use tweet_db.Base.{
  ◌≡◌, refl, ap, ◌==◌, ◌&&◌, Bool, true, false, List, [], ◌∷◌, ◌++◌, keep, All, All-map,
  if◌then◌else◌, Bool-cases, inl, inr, arith,
}
use tweet_db.Api.Audit.{AuditRow, is_below, insert_newest, newest_first}

abbrev pub below : AuditRow → AuditRow → Bool
below a b = is_below a.created_at a.id b

-- Each row is newer than all that follow it.
abbrev pub IsNewestFirst : List AuditRow → Type 0
IsNewestFirst [] = Unit
IsNewestFirst (r ∷ rows) = All (λ x. below r x ≡ true) rows × IsNewestFirst rows

-- id is the primary key.
abbrev pub Keyed : List AuditRow → Type 0
Keyed [] = Unit
Keyed (r ∷ rows) = All (λ x. (r.id == x.id) ≡ false) rows × Keyed rows

below_trans : (a b c : AuditRow) → below a b ≡ true → below b c ≡ true → below a c ≡ true
unfolding is_below
below_trans a b c h k = ground arith

below_asym : (a b : AuditRow) → below a b ≡ true → below b a ≡ false
unfolding is_below
below_asym a b h = ground arith

below_irrefl : (a : AuditRow) → below a a ≡ false
unfolding is_below
below_irrefl a = ground arith

below_total : (a b : AuditRow) → (a.id == b.id) ≡ false → below a b ≡ false → below b a ≡ true
unfolding is_below
below_total a b h k = ground arith

module _ (P : AuditRow → Type 0) where
  insert-All :
      (r : AuditRow) (rows : List AuditRow) → P r → All P rows → All P (insert_newest r rows)
  unfolding insert_newest
  insert-All r [] p all = (p, tt)
  insert-All r (x ∷ rows) p all = elim (Bool-cases (below r x)) [
    | inl e ↦ rw e (p, all)
    | inr e ↦ rw e (all.0, insert-All r rows p all.1)
  ]

  pub newest_first-All : (rows : List AuditRow) → All P rows → All P (newest_first rows)
  unfolding newest_first
  newest_first-All [] all = tt
  newest_first-All (r ∷ rows) all =
      insert-All r (newest_first rows) all.0 (newest_first-All rows all.1)

  pub keep-All : (q : AuditRow → Bool) (rows : List AuditRow) → All P rows → All P (keep q rows)
  keep-All q [] all = tt
  keep-All q (r ∷ rows) all = elim (Bool-cases (q r)) [
    | inl e ↦ rw e (all.0, keep-All q rows all.1)
    | inr e ↦ rw e (keep-All q rows all.1)
  ]

pub keep-Keyed : (q : AuditRow → Bool) (rows : List AuditRow) → Keyed rows → Keyed (keep q rows)
keep-Keyed q [] keyed = tt
keep-Keyed q (r ∷ rows) keyed = elim (Bool-cases (q r)) [
  | inl e ↦ rw e (keep-All _ q rows keyed.0, keep-Keyed q rows keyed.1)
  | inr e ↦ rw e (keep-Keyed q rows keyed.1)
]

insert-IsNewestFirst :
    (r : AuditRow) (rows : List AuditRow)
    → All (λ x. (r.id == x.id) ≡ false) rows
    → IsNewestFirst rows
    → IsNewestFirst (insert_newest r rows)
unfolding insert_newest
insert-IsNewestFirst r [] fresh ordered = (tt, tt)
insert-IsNewestFirst r (x ∷ rows) fresh ordered = elim (Bool-cases (below r x)) [
  | inl e ↦ rw e ((e, All-map _ (λ y h. below_trans r x y e h) rows ordered.0), ordered)
  | inr e ↦ rw e (
    insert-All _ r rows (below_total r x fresh.0 e) ordered.0,
    insert-IsNewestFirst r rows fresh.1 ordered.1,
  )
]

pub newest_first-IsNewestFirst :
    (rows : List AuditRow) → Keyed rows → IsNewestFirst (newest_first rows)
unfolding newest_first
newest_first-IsNewestFirst [] keyed = tt
newest_first-IsNewestFirst (r ∷ rows) keyed =
    insert-IsNewestFirst r (newest_first rows) (newest_first-All _ rows keyed.0)
      (newest_first-IsNewestFirst rows keyed.1)

insert-Perm : (r : AuditRow) (rows : List AuditRow) → Perm (insert_newest r rows) (r ∷ rows)
unfolding insert_newest
insert-Perm r [] = Perm.refl (r ∷ [])
insert-Perm r (x ∷ rows) = elim (Bool-cases (below r x)) [
  | inl e ↦ rw e (Perm.refl (r ∷ x ∷ rows))
  | inr e ↦ rw e (Perm.trans (Perm.cons x (insert-Perm r rows)) (Perm.swap r x rows))
]

pub newest_first-Perm : (rows : List AuditRow) → Perm (newest_first rows) rows
unfolding newest_first
newest_first-Perm [] = Perm.nil
newest_first-Perm (r ∷ rows) =
    Perm.trans (insert-Perm r (newest_first rows)) (Perm.cons r (newest_first-Perm rows))

-- Cutting at a row commutes with the insertion of another.
keep-insert :
    (c r : AuditRow) (rows : List AuditRow)
    → keep (below c) (insert_newest r rows)
      ≡ (if below c r then insert_newest r (keep (below c) rows) else keep (below c) rows)
unfolding insert_newest
keep-insert c r [] = refl
keep-insert c r (x ∷ rows) = elim (Bool-cases (below r x)) [
  | inl e ↦ elim (Bool-cases (below c r)) [
    | inl f ↦ let g = below_trans c r x f e in rw (e, f, g, e) refl
    | inr f ↦ rw (e, f) refl
  ]
  | inr e ↦ elim (Bool-cases (below c r)) [
    | inl f ↦ elim (Bool-cases (below c x)) [
      | inl g ↦ rw (e, g, keep-insert c r rows, f, e) refl
      | inr g ↦ rw (e, g, keep-insert c r rows, f) refl
    ]
    | inr f ↦ elim (Bool-cases (below c x)) [
      | inl g ↦ rw (e, g, keep-insert c r rows, f) refl
      | inr g ↦ rw (e, g, keep-insert c r rows, f) refl
    ]
  ]
]

pub newest_first-keep :
    (p : AuditRow → Bool) (c : AuditRow) (rows : List AuditRow)
    → newest_first (keep (λ r. p r && below c r) rows) ≡ keep (below c) (newest_first (keep p rows))
unfolding newest_first
newest_first-keep p c [] = refl
newest_first-keep p c (r ∷ rows) = elim (Bool-cases (p r)) [
  | inl e ↦ elim (Bool-cases (below c r)) [
    | inl f ↦
        rw (e, f, keep-insert c r (newest_first (keep p rows)), f, newest_first-keep p c rows) refl
    | inr f ↦
        rw (e, f, keep-insert c r (newest_first (keep p rows)), f, newest_first-keep p c rows) refl
  ]
  | inr e ↦ rw (e) (newest_first-keep p c rows)
]

keep_whole :
    (c : AuditRow) (rows : List AuditRow)
    → All (λ x. below c x ≡ true) rows
    → keep (below c) rows ≡ rows
keep_whole c [] all = refl
keep_whole c (r ∷ rows) all = rw (all.0) (ap (λ xs. r ∷ xs) (keep_whole c rows all.1))

-- A row in front of the one of the cursor is newer.
newer_front :
    (b c : AuditRow) (front after : List AuditRow)
    → All (λ x. below b x ≡ true) (front ++ (c ∷ after))
    → below b c ≡ true
newer_front b c [] after all = all.0
newer_front b c (x ∷ front) after all = newer_front b c front after all.1

pub keep_after :
    (c : AuditRow) (front after : List AuditRow)
    → IsNewestFirst (front ++ (c ∷ after))
    → keep (below c) (front ++ (c ∷ after)) ≡ after
keep_after c [] after ordered = rw (below_irrefl c) (keep_whole c after ordered.0)
keep_after c (b ∷ front) after ordered =
    let newer = newer_front b c front after ordered.0 in
    rw (below_asym b c newer) (keep_after c front after ordered.1)
