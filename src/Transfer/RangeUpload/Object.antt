-- ===== src/Transfer/RangeUpload/Object.antt =====
-- A range upload stores and hashes the object that is downloaded, whatever the order in which the
-- downloads and the uploads end.
use mathlib.Core.List.{Perm}
use tweet_db.Base.{
  ℕ, zero, suc, ◌+◌, ◌-◌, ◌*◌, ◌≤◌, ◌≡◌, refl, sym, ap, ◌∙◌, ◌⊎◌, inl, inr, some, List, [], ◌∷◌,
  ◌++◌, arith, ◌==◌, if◌then◌else◌, AppResult, ok, length, take, drop, take_all, take-add,
  length-drop,
}
use tweet_db.Transfer.Ranges.{RangeSpec, len, build_range_specs}
use tweet_db.Transfer.Ranges.Tiling.{Tiles, Tiles-full, Tiles-reach, built-Tiles}
use tweet_db.Transfer.Download.{Bytes, DownloadedPart}
use tweet_db.Transfer.RangeUpload.Flight.{numbers}
use tweet_db.Transfer.RangeUpload.Hashes.{joined}
use tweet_db.Transfer.RangeUpload.Invariant.{Known, Queued, part_numbers}
use tweet_db.Transfer.RangeUpload.Completion.{Good, Uploaded, run-Good}
use tweet_db.Transfer.RangeUpload.Start.{start-Inv}
use tweet_db.Transfer.RangeUpload.{
  Limits, RangeUpload, Event, Outcome, finished, failed, stalled, waiting, absent, start, run,
  conclude, i64_max,
}

-- The server sends the bytes of the object that are asked for, or the download fails.
abbrev pub Honest : Bytes → (RangeSpec → AppResult DownloadedPart) → Type 0
Honest object source =
    (spec : RangeSpec) (part : DownloadedPart)
    → source spec ≡ ok part
    → (part.part_number ≡ spec.part_number)
      × (part.bytes ≡ take (len spec) (drop spec.start object))

module _ (object : Bytes) (source : RangeSpec → AppResult DownloadedPart)
    (honest : Honest object source) (first chunk : ℕ) where
  content : ℕ → Bytes
  content p =
      if p == 1 then take first object else take chunk (drop (first + (p - 2) * chunk) object)

  content_part : (p : ℕ) → 2 ≤ p → content p ≡ take chunk (drop (first + (p - 2) * chunk) object)
  unfolding content
  content_part p two = ground arith

  joined-content : (n : ℕ) → joined content (suc n) ≡ take (first + n * chunk) object
  joined-content zero =
      unfold content in
      ap (λ k. take k object) (let x : first ≡ first + 0 * chunk = omega arith in x)
  joined-content (suc n) =
      let low : first + (suc (suc n) - 2) * chunk ≡ first + n * chunk =
        ap (λ k. first + k * chunk) (let x : suc (suc n) - 2 ≡ n = omega arith in x) in
      ap (λ b. b ++ content (suc (suc n))) (joined-content n)
      ∙ ap (λ b. take (first + n * chunk) object ++ b)
          (content_part (suc (suc n)) (omega arith) ∙ ap (λ k. take chunk (drop k object)) low)
      ∙ sym (take-add (first + n * chunk) chunk object)
      ∙ ap (λ k. take k object) (omega arith)

  -- The last range is as long as what is left of the object.
  same_cut :
      (cursor n : ℕ)
      → n ≤ chunk
      → (n ≡ chunk) ⊎ (cursor + n ≡ length object)
      → take n (drop cursor object) ≡ take chunk (drop cursor object)
  same_cut cursor n le (inl e) = ap (λ k. take k (drop cursor object)) e
  same_cut cursor n le (inr e) =
      take_all n (drop cursor object) (omega (arith, length-drop cursor object))
      ∙ sym (take_all chunk (drop cursor object) (omega (arith, length-drop cursor object)))

  -- A range that tiles the object is downloaded with its part's bytes.
  known :
      (total cursor part : ℕ) (all : List ℕ) (spec : RangeSpec)
      → 2 ≤ part
      → cursor ≡ first + (part - 2) * chunk
      → spec.part_number ≡ part
      → spec.start ≡ cursor
      → len spec ≤ chunk
      → (len spec ≡ chunk) ⊎ (cursor + len spec ≡ length object)
      → Known content source total all spec
  known total cursor part all spec two at number start_at le end d got =
      let h = honest spec d got in
      (
        h.0,
        h.1
            ∙ ap (λ k. take (len spec) (drop k object)) start_at
            ∙ same_cut cursor (len spec) le end
            ∙ ap (λ k. take chunk (drop k object)) at
            ∙ sym (content_part part two)
            ∙ ap content (sym number),
      )

  full_is_empty :
      (cursor part : ℕ) (s : RangeSpec) (ss : List RangeSpec)
      → cursor ≡ length object
      → Tiles chunk (length object) cursor part (s ∷ ss)
      → ⊥
  full_is_empty cursor part s ss full t =
      let none_left = Tiles-full chunk (length object) part (s ∷ ss) (rw full at t) in cc

  next_cursor :
      (cursor part n : ℕ)
      → 2 ≤ part
      → cursor ≡ first + (part - 2) * chunk
      → (n ≡ chunk) ⊎ (cursor + n ≡ length object)
      → (cursor + n ≡ first + (part + 1 - 2) * chunk) ⊎ (cursor + n ≡ length object)
  next_cursor cursor part n two at (inr e) = inr e
  next_cursor cursor part n two at (inl e) =
      let k : ℕ = part - 2 in
      let up : first + (part + 1 - 2) * chunk ≡ first + (k + 1) * chunk =
        ap (λ k. first + k * chunk) (omega arith) in
      inl (omega (arith, up, at, e))

  Tiles-Queued :
      (total cursor part : ℕ) (all : List ℕ) (specs : List RangeSpec)
      → 2 ≤ part
      → part + length specs ≡ total
      → (cursor ≡ first + (part - 2) * chunk) ⊎ (cursor ≡ length object)
      → Tiles chunk (length object) cursor part specs
      → Queued content source total all part specs
  Tiles-Queued total cursor part all [] two sum at t = omega arith
  Tiles-Queued total cursor part all (s ∷ ss) two sum (inr full) t =
      absurd (full_is_empty cursor part s ss full t)
  Tiles-Queued total cursor part all (s ∷ ss) two sum (inl at) t = (
    t.0,
    known total cursor part all s two at t.0 t.1 t.3 t.4,
    Tiles-Queued total (cursor + len s) (part + 1) all ss (omega arith) (omega arith)
        (next_cursor cursor part (len s) two at t.4) t.5,
  )

  -- What is claimed of the loop's outcome: it is never stalled, and if it ends without an error, the
  -- checks behind it pass with the whole object's length and bytes, and every part once.
  abbrev pub Stored : List ℕ → Outcome → Type 0
  Stored all (finished s) =
      (conclude (length object) s ≡ ok (s.completed_parts, length object, object))
      × Perm (part_numbers s.completed_parts) all
  Stored all stalled = ⊥
  Stored all _ = Unit {0}

  module _ (specs : List RangeSpec) (covers : length object ≤ first + length specs * chunk) where
    Uploaded-Stored :
        (s : RangeUpload)
        → length object ≤ i64_max
        → Uploaded content source (2 + length specs) (1 ∷ numbers specs) s
        → Stored (1 ∷ numbers specs) (finished s)
    unfolding conclude
    Uploaded-Stored s fits up =
        let whole : s.hashed ≡ object =
          up.hashed
          ∙ ap (joined content)
              (let x : 2 + length specs - 1 ≡ suc (length specs) = omega arith in x)
          ∙ joined-content (length specs)
          ∙ take_all (first + length specs * chunk) object covers in
        let size : s.content_length ≡ length object = up.counted ∙ ap length whole in
        (ground (arith, whole, size), up.every_part)

    Good-Stored :
        (limits : Limits) (dp : 1 ≤ limits.download_parallelism)
        (mx : 1 ≤ limits.max_in_flight_parts) (o : Outcome)
        → length object ≤ i64_max
        → Good content source (2 + length specs) (1 ∷ numbers specs) limits dp mx o
        → Stored (1 ∷ numbers specs) o
    Good-Stored limits dp mx (finished s) fits g = Uploaded-Stored s fits g
    Good-Stored limits dp mx (failed e) fits g = tt
    Good-Stored limits dp mx stalled fits g = absurd g
    Good-Stored limits dp mx (waiting s) fits g = tt
    Good-Stored limits dp mx absent fits g = tt

  -- Take an object no longer than an i64 holds, whose first chunk was read, ranges that were built for
  -- the rest, limits of at least one, and a server that sends the bytes it is asked for or fails. Then,
  -- whichever download or upload is ready first at each turn, `select!` never has both branches
  -- disabled; and if the loop ends, the checks behind it pass with the object's length, the hasher has
  -- been given exactly the object's bytes in their order, and every part was uploaded exactly once.
  pub range_upload_stores :
      (limits : Limits) (events : List Event) (specs : List RangeSpec) (s : RangeUpload)
      → 1 ≤ limits.download_parallelism
      → 1 ≤ limits.max_in_flight_parts
      → first ≤ length object
      → length object ≤ i64_max
      → build_range_specs first (length object) chunk ≡ some (ok specs)
      → start (take first object) specs ≡ ok s
      → Stored (1 ∷ numbers specs) (run source limits events s)
  range_upload_stores limits events specs s dp mx le fits built started =
      let tiles = built-Tiles first (length object) chunk specs (omega arith) le built in
      let all : List ℕ = 1 ∷ numbers specs in
      let total : ℕ = 2 + length specs in
      let queued =
        Tiles-Queued total first 2 all specs (omega arith) refl
          (inl (let x : first ≡ first + (2 - 2) * chunk = omega arith in x)) tiles in
      let inv = start-Inv content source total specs s queued (unfold content in started) in
      Good-Stored specs (Tiles-reach chunk (length object) first 2 specs tiles) limits dp mx _ fits
        (run-Good content source total all limits dp mx events 2 s inv)
