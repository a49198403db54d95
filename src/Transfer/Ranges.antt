-- ===== src/Transfer/Ranges.antt =====
-- server/src/transfer/range.rs and common.rs: the split of an object into numbered byte ranges.
pub mod Tiling
use tweet_db.Base.{
  ℕ, zero, suc, ◌+◌, ◌-◌, ◌^◌, ◌%◌, min, Option, none, some, List, [], ◌∷◌, leb, ltb, ◌&&◌,
  if◌then◌else◌, AppResult, ok, err, AppError, upstream, text, ◌>>=◌, ◌>>◌,
}

abbrev pub u64_mod : ℕ
u64_mod = 18446744073709551616

abbrev pub u64_max : ℕ
u64_max = 18446744073709551615

-- `a - b` on u64, with the wrap of a release build.
abbrev pub sub_u64 : ℕ → ℕ → ℕ
sub_u64 a b = (a + u64_mod - b) % u64_mod

abbrev pub saturating_add : ℕ → ℕ → ℕ
saturating_add a b = min (a + b) u64_max

pub record RangeSpec : Type 0 where
  pub part_number : ℕ
  pub start : ℕ
  pub end_inclusive : ℕ

unfoldable pub len : RangeSpec → ℕ
len s = (sub_u64 s.end_inclusive s.start + 1) % u64_mod

abbrev pub part_limit_error : AppError
part_limit_error = upstream (text "multipart upload exceeded the S3 10000 part limit" ∷ [])

unfoldable pub ensure_valid_part_number : ℕ → AppResult (Unit {0})
ensure_valid_part_number n = if leb 1 n && leb n 10000 then ok tt else err part_limit_error

abbrev push : RangeSpec → Option (AppResult (List RangeSpec)) → Option (AppResult (List RangeSpec))
push s none = none
push s (some (err e)) = some (err e)
push s (some (ok specs)) = some (ok (s ∷ specs))

-- `check?` in front of the rest of the loop.
abbrev after_check :
    AppResult (Unit {0}) → Option (AppResult (List RangeSpec)) → Option (AppResult (List RangeSpec))
after_check (ok u) rest = rest
after_check (err e) rest = some (err e)

-- The `while` loop from `cursor` on, with fuel; `none` means that the fuel ran out.
range_loop : ℕ → ℕ → ℕ → ℕ → ℕ → Option (AppResult (List RangeSpec))
unfolding ensure_valid_part_number
range_loop zero chunk content cursor part = none
range_loop (suc fuel) chunk content cursor part =
    let next = min (saturating_add cursor chunk) content in
    let rest = range_loop fuel chunk content next (part + 1) in
    let spec : RangeSpec = record {
      part_number = part;
      start = cursor;
      end_inclusive = sub_u64 next 1;
    } in
    let pushed = push spec rest in
    let checked = after_check (ensure_valid_part_number part) pushed in
    if ltb cursor content then checked else some (ok [])

-- Part 10001 is refused, so 10000 rounds from part 2 on are enough.
unfoldable pub build_range_specs : ℕ → ℕ → ℕ → Option (AppResult (List RangeSpec))
unfolding range_loop
build_range_specs start_offset content_length chunk_size =
    range_loop 10000 chunk_size content_length start_offset 2
