-- ===== src/Transfer/Ranges/Tiling.antt =====
-- The ranges of range.rs tile the object behind its first chunk.
use mathlib.Core.Path.{subst}
use tweet_db.Base.{
  leb, length, ℕ, zero, suc, ◌+◌, ◌*◌, ◌≤◌, ◌<◌, ◌≡◌, refl, ◌⊎◌, inl, inr, some, List, [], ◌∷◌,
  arith, ltb, Bool-cases, ◌-◌, min, ok, err,
}
use tweet_db.Transfer.Ranges.{
  RangeSpec, len, u64_mod, part_limit_error, range_loop, push, build_range_specs,
}

-- Consecutive part numbers from `part`, consecutive bytes from `cursor` to `content`, no range empty
-- or longer than a chunk, and only the last one shorter.
abbrev pub Tiles : ℕ → ℕ → ℕ → ℕ → List RangeSpec → Type 0
Tiles chunk content cursor part [] = cursor ≡ content
Tiles chunk content cursor part (s ∷ ss) =
    (s.part_number ≡ part)
    × (s.start ≡ cursor)
    × (0 < len s)
    × (len s ≤ chunk)
    × ((len s ≡ chunk) ⊎ (cursor + len s ≡ content))
    × Tiles chunk content (cursor + len s) (part + 1) ss

module _ (chunk content : ℕ) (fits : content < u64_mod) where
  range_loop_limit :
      (m cursor part : ℕ)
      → part + m ≡ 10001
      → 1 ≤ part
      → cursor + m * chunk < content
      → range_loop (suc m) chunk content cursor part ≡ some (err part_limit_error)
  unfolding range_loop
  range_loop_limit zero cursor part e p h = ground arith
  range_loop_limit (suc m) cursor part e p h =
      ground (arith, range_loop_limit m (cursor + chunk) (part + 1))

  range_of : ℕ → ℕ → RangeSpec
  range_of cursor part = record {
    part_number = part;
    start = cursor;
    end_inclusive = min (cursor + chunk) content - 1;
  }

  len-range_of :
      (cursor part : ℕ)
      → 0 < chunk
      → cursor < content
      → len (range_of cursor part) ≡ min (cursor + chunk) content - cursor
  unfolding len range_of
  len-range_of cursor part k h = omega arith

  range_loop-step :
      (fuel cursor part : ℕ)
      → 1 ≤ part
      → part ≤ 10000
      → 0 < chunk
      → cursor < content
      → range_loop (suc fuel) chunk content cursor part
        ≡ push
            (range_of cursor part)
            (range_loop fuel chunk content (min (cursor + chunk) content) (part + 1))
  unfolding range_loop range_of
  range_loop-step fuel cursor part p q k h = ground arith

  Tiles-range_of :
      (cursor part : ℕ) (specs : List RangeSpec)
      → 0 < chunk
      → cursor < content
      → Tiles chunk content (min (cursor + chunk) content) (part + 1) specs
      → Tiles chunk content cursor part (range_of cursor part ∷ specs)
  Tiles-range_of cursor part specs k h rest =
      let size = len-range_of cursor part k h in
      let end : cursor + len (range_of cursor part) ≡ min (cursor + chunk) content =
        omega (arith, size) in
      (
        unfold range_of in refl,
        unfold range_of in refl,
        omega (arith, size),
        omega (arith, size),
        ground (arith, size),
        rw end rest,
      )

  range_loop-Tiles :
      (m cursor part : ℕ)
      → part + m ≡ 10001
      → 1 ≤ part
      → cursor ≤ content
      → content ≤ cursor + m * chunk
      → (specs : List RangeSpec) × (range_loop (suc m) chunk content cursor part ≡ some (ok specs))
        × Tiles chunk content cursor part specs
  range_loop-Tiles zero cursor part e p le h = ([], unfold range_loop in ground arith, ground arith)
  range_loop-Tiles (suc m) cursor part e p le h = elim (Bool-cases (ltb cursor content)) [
    | inr done ↦ ([], unfold range_loop in ground arith, ground arith)
    | inl more ↦
        let next : ℕ = min (cursor + chunk) content in
        let k : 0 < chunk = grind arith in
        let ih =
          range_loop-Tiles m next (part + 1) (omega arith) (omega arith) (omega arith)
            (grind arith) in
        (
          range_of cursor part ∷ ih.0,
          rw (range_loop-step (suc m) cursor part p (omega arith) k (ground arith), ih.1),
          Tiles-range_of cursor part ih.0 k (ground arith) ih.2,
        )
  ]

-- If the object's length fits in 64 bits, at least one chunk was read and at most 9999 more are to
-- come, then the loop ends and its ranges tile the bytes from the first chunk's end to the object's
-- end, under the part numbers 2, 3, and so on.
pub build_range_specs-Tiles :
    (start_offset content_length chunk_size : ℕ)
    → content_length < u64_mod
    → start_offset ≤ content_length
    → content_length ≤ start_offset + 9999 * chunk_size
    → (specs : List RangeSpec) × (build_range_specs start_offset content_length chunk_size
        ≡ some (ok specs))
      × Tiles chunk_size content_length start_offset 2 specs
unfolding build_range_specs
build_range_specs-Tiles start_offset content_length chunk_size fits le room =
    range_loop-Tiles chunk_size content_length fits 9999 start_offset 2 refl (omega arith) le room

-- If it takes more than 9999 further chunks, the loop ends with the error of the part limit.
pub build_range_specs_limit :
    (start_offset content_length chunk_size : ℕ)
    → content_length < u64_mod
    → start_offset + 9999 * chunk_size < content_length
    → build_range_specs start_offset content_length chunk_size ≡ some (err part_limit_error)
unfolding build_range_specs
build_range_specs_limit start_offset content_length chunk_size fits over =
    range_loop_limit chunk_size content_length fits 9999 start_offset 2 refl (omega arith) over

-- What the ranges hold together is the rest of the object.
abbrev pub total_len : List RangeSpec → ℕ
total_len [] = 0
total_len (s ∷ ss) = len s + total_len ss

pub total_len-Tiles :
    (chunk content cursor part : ℕ) (specs : List RangeSpec)
    → Tiles chunk content cursor part specs
    → cursor + total_len specs ≡ content
total_len-Tiles chunk content cursor part [] t = omega arith
total_len-Tiles chunk content cursor part (s ∷ ss) t =
    omega (arith, total_len-Tiles chunk content (cursor + len s) (part + 1) ss t.5)

pub Tiles-full :
    (chunk content part : ℕ) (specs : List RangeSpec)
    → Tiles chunk content content part specs
    → specs ≡ []
Tiles-full chunk content part [] t = refl
Tiles-full chunk content part (s ∷ ss) t =
    absurd (omega (arith, total_len-Tiles chunk content content part (s ∷ ss) t))

pub Tiles-reach :
    (chunk content cursor part : ℕ) (specs : List RangeSpec)
    → Tiles chunk content cursor part specs
    → content ≤ cursor + length specs * chunk
Tiles-reach chunk content cursor part [] t = omega arith
Tiles-reach chunk content cursor part (s ∷ ss) t =
    omega (arith, Tiles-reach chunk content (cursor + len s) (part + 1) ss t.5)

-- Ranges that were built tile the rest of the object, whatever its length.
pub built-Tiles :
    (start_offset content_length chunk_size : ℕ) (specs : List RangeSpec)
    → content_length < u64_mod
    → start_offset ≤ content_length
    → build_range_specs start_offset content_length chunk_size ≡ some (ok specs)
    → Tiles chunk_size content_length start_offset 2 specs
built-Tiles start content chunk specs fits le h =
    elim (Bool-cases (leb content (start + 9999 * chunk))) [
      | inl room ↦
          let built = build_range_specs-Tiles start content chunk fits le (ground arith) in
          let same : built.0 ≡ specs = ground (arith, built.1) in
          subst (Tiles chunk content start 2) same built.2
      | inr over ↦ absurd (ground (arith, build_range_specs_limit start content chunk fits))
    ]
