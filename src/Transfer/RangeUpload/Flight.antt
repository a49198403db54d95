-- ===== src/Transfer/RangeUpload/Flight.antt =====
-- Futures in flight: a list of distinct part numbers, from which any one may leave.
use mathlib.Core.List.{Perm}
use mathlib.Core.List.Perm
use mathlib.Core.Path.{subst}
use tweet_db.Base.{
  ℕ, zero, suc, ◌≡◌, refl, sym, ap, ◌∙◌, ◌⊎◌, inl, inr, ◌≢◌, some, List, [], ◌∷◌, ◌++◌, map, arith,
  Option-cases, length, ◌+◌, All, append_assoc,
}
use tweet_db.Transfer.Ranges.{RangeSpec}
use tweet_db.Transfer.RangeUpload.{take_at}

abbrev pub In : ℕ → List ℕ → Type 0
In p [] = ⊥
In p (x ∷ xs) = (x ≡ p) ⊎ In p xs

abbrev pub Distinct : List ℕ → Type 0
Distinct [] = Unit {0}
Distinct (x ∷ xs) = ¬ (In x xs) × Distinct xs

abbrev pub numbers : List RangeSpec → List ℕ
numbers = map (λ spec. spec.part_number)

pub In-append : (p : ℕ) (xs ys : List ℕ) → In p (xs ++ ys) → In p xs ⊎ In p ys
In-append p [] ys h = inr h
In-append p (x ∷ xs) ys (inl e) = inl (inl e)
In-append p (x ∷ xs) ys (inr h) = elim (In-append p xs ys h) [ inl l ↦ inl (inr l) | inr r ↦ inr r ]

pub In-append_left : (p : ℕ) (xs ys : List ℕ) → In p xs → In p (xs ++ ys)
In-append_left p (x ∷ xs) ys (inl e) = inl e
In-append_left p (x ∷ xs) ys (inr h) = inr (In-append_left p xs ys h)
In-append_left p [] ys h = absurd h

pub In-append_right : (p : ℕ) (xs ys : List ℕ) → In p ys → In p (xs ++ ys)
In-append_right p [] ys h = h
In-append_right p (x ∷ xs) ys h = inr (In-append_right p xs ys h)

pub Distinct-append_one :
    (n : ℕ) (xs : List ℕ) → Distinct xs → ¬ (In n xs) → Distinct (xs ++ n ∷ [])
Distinct-append_one n [] d fresh = ((λ h. h), tt)
Distinct-append_one n (x ∷ xs) d fresh = (
  (λ h. elim (In-append x xs (n ∷ []) h) [
    | inl old ↦ d.0 old
    | inr (inl e) ↦ fresh (inl (sym e))
    | inr (inr bad) ↦ bad
  ]),
  Distinct-append_one n xs d.1 (λ h. fresh (inr h)),
)

pub map-append_one :
    (spec : RangeSpec) (xs : List RangeSpec)
    → numbers (xs ++ spec ∷ []) ≡ numbers xs ++ spec.part_number ∷ []
map-append_one spec [] = refl
map-append_one spec (x ∷ xs) = ap (◌∷◌ x.part_number) (map-append_one spec xs)

-- What it means that `x` leaves `xs`, and `rest` remains.
pub record Leaves (x : ℕ) (xs rest : List ℕ) : Type 0 where
  pub member : In x xs
  pub distinct : Distinct rest
  pub others : (p : ℕ) → In p rest → In p xs × (p ≢ x)
  pub split : (p : ℕ) → In p xs → (p ≡ x) ⊎ In p rest

take_at-step {ℓ} :
    {A : Type ℓ} (i : ℕ) (x y : A) (xs rest : List A)
    → take_at (suc i) (x ∷ xs) ≡ some (y, rest)
    → (ys : List A) × (take_at i xs ≡ some (y, ys)) × (rest ≡ x ∷ ys)
unfolding take_at
take_at-step i x y xs rest h = elim (Option-cases (take_at i xs)) [
  | inl e ↦ absurd (ground (arith, e))
  | inr ((z, zs), e) ↦ (zs, ground (arith, e), ground (arith, e))
]

Leaves-head : (y : ℕ) (xs : List ℕ) → Distinct (y ∷ xs) → Leaves y (y ∷ xs) xs
Leaves-head y xs d = record {
  member = inl refl;
  distinct = d.1;
  others = λ p h. (inr h, λ e. d.0 (subst (λ k. In k xs) e h));
  split = λ p h. elim h [ inl e ↦ inl (sym e) | inr r ↦ inr r ];
}

Leaves-tail :
    (x y : ℕ) (xs rest : List ℕ)
    → Distinct (y ∷ xs)
    → Leaves x xs rest
    → Leaves x (y ∷ xs) (y ∷ rest)
Leaves-tail x y xs rest d l = record {
  member = inr l.member;
  distinct = ((λ h. d.0 (l.others y h).0), l.distinct);
  others = λ p h. elim h [
    | inl e ↦ (inl e, λ q. d.0 (subst (λ k. In k xs) (sym (e ∙ q)) l.member))
    | inr r ↦ (inr (l.others p r).0, (l.others p r).1)
  ];
  split = λ p h. elim h [
    | inl e ↦ inr (inl e)
    | inr r ↦ elim (l.split p r) [ inl q ↦ inl q | inr q ↦ inr (inr q) ]
  ];
}

pub take_at-Leaves :
    (i x : ℕ) (xs rest : List ℕ) → Distinct xs → take_at i xs ≡ some (x, rest) → Leaves x xs rest
unfolding take_at
take_at-Leaves i x [] rest d h = cc
take_at-Leaves zero x (y ∷ xs) rest d h =
    let head : y ≡ x = ground arith in
    let tail : xs ≡ rest = ground arith in rw (← head, ← tail) (Leaves-head y xs d)
take_at-Leaves (suc i) x (y ∷ xs) rest d h =
    let inner = take_at-step i y x xs rest h in
    rw inner.2 (Leaves-tail x y xs inner.0 d (take_at-Leaves i x xs inner.0 d.1 inner.1))

pub take_at-numbers :
    (i : ℕ) (spec : RangeSpec) (specs rest : List RangeSpec)
    → take_at i specs ≡ some (spec, rest)
    → take_at i (numbers specs) ≡ some (spec.part_number, numbers rest)
unfolding take_at
take_at-numbers i spec [] rest h = cc
take_at-numbers zero spec (x ∷ specs) rest h = ground arith
take_at-numbers (suc i) spec (x ∷ specs) rest h =
    let inner = take_at-step i x spec specs rest h in
    let ih = take_at-numbers i spec specs inner.0 inner.1 in ground (arith, ih, inner.2)

pub take_at-length {ℓ} :
    {A : Type ℓ} (i : ℕ) (x : A) (xs rest : List A)
    → take_at i xs ≡ some (x, rest)
    → length xs ≡ length rest + 1
unfolding take_at
take_at-length i x [] rest h = cc
take_at-length zero x (y ∷ xs) rest h = ground arith
take_at-length (suc i) x (y ∷ xs) rest h =
    let inner = take_at-step i y x xs rest h in
    omega (arith, take_at-length i x xs inner.0 inner.1, ap length inner.2)

pub take_at-All {ℓ κ} :
    {A : Type ℓ} (P : A → Type κ) (i : ℕ) (x : A) (xs rest : List A)
    → All P xs
    → take_at i xs ≡ some (x, rest)
    → P x × All P rest
unfolding take_at
take_at-All P i x [] rest a h = cc
take_at-All P zero x (y ∷ xs) rest a h =
    let head : y ≡ x = ground arith in let tail : xs ≡ rest = ground arith in rw (← head, ← tail) a
take_at-All P (suc i) x (y ∷ xs) rest a h =
    let inner = take_at-step i y x xs rest h in
    let ih = take_at-All P i x xs inner.0 a.1 inner.1 in rw inner.2 (ih.0, (a.0, ih.1))

pub take_at-perm : (i x : ℕ) (xs rest : List ℕ) → take_at i xs ≡ some (x, rest) → Perm xs (x ∷ rest)
unfolding take_at
take_at-perm i x [] rest h = cc
take_at-perm zero x (y ∷ xs) rest h =
    let head : y ≡ x = ground arith in
    let tail : xs ≡ rest = ground arith in rw (← head, ← tail) (Perm.refl (y ∷ xs))
take_at-perm (suc i) x (y ∷ xs) rest h =
    let inner = take_at-step i y x xs rest h in
    rw inner.2
      (Perm.trans (Perm.cons y (take_at-perm i x xs inner.0 inner.1)) (Perm.swap x y inner.0))

-- A number that leaves one list for the end of the list in front of it.
pub move-perm :
    (n : ℕ) (front xs rest back : List ℕ)
    → Perm xs (n ∷ rest)
    → Perm ((front ++ n ∷ []) ++ (rest ++ back)) (front ++ (xs ++ back))
move-perm n front xs rest back p =
    rw (append_assoc front (n ∷ []) (rest ++ back))
      (Perm.append_left front (Perm.append_right back (Perm.symm p)))

pub take_at-split :
    (i x p : ℕ) (xs rest : List ℕ) → take_at i xs ≡ some (x, rest) → In p xs → (p ≡ x) ⊎ In p rest
unfolding take_at
take_at-split i x p [] rest h m = cc
take_at-split zero x p (y ∷ xs) rest h m =
    let head : y ≡ x = ground arith in
    let tail : xs ≡ rest = ground arith in
    elim m [ inl e ↦ inl (sym e ∙ head) | inr r ↦ inr (subst (In p) tail r) ]
take_at-split (suc i) x p (y ∷ xs) rest h m =
    let inner = take_at-step i y x xs rest h in
    rw inner.2 (elim m [
      | inl e ↦ inr (inl e)
      | inr r ↦ elim (take_at-split i x p xs inner.0 inner.1 r) [
        | inl q ↦ inl q
        | inr q ↦ inr (inr q)
      ]
    ])
