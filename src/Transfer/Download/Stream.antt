-- ===== src/Transfer/Download/Stream.antt =====
-- The buffered reader of download.rs refines a plain stream of bytes.
use tweet_db.Base.{
  ℕ, ◌+◌, ◌-◌, ◌≤◌, ◌<◌, min, ◌≡◌, refl, sym, ◌∙◌, ap, inl, inr, Option, none, some, List, [], ◌∷◌,
  ◌++◌, arith, AppResult, ok, err, AppError, length, take, drop, append_assoc, take-append-drop,
  length-take, length-drop, ltb, ◌==◌, Bool-cases, take_all, drop_all, drop-add,
}
use tweet_db.Transfer.Download.{
  Bytes, Body, Reader, new, slice, take_pending, fetch, read_pending, read_some,
}

-- The bytes that a body delivers before its end or its first error, and that error.
abbrev pub delivered : Body → Bytes
delivered [] = []
delivered (err e ∷ body) = []
delivered (ok bytes ∷ body) = bytes ++ delivered body

abbrev pub failure : Body → Option AppError
failure [] = none
failure (err e ∷ body) = some e
failure (ok bytes ∷ body) = failure body

abbrev held : Option Bytes → ℕ → Bytes
held none offset = []
held (some chunk) offset = drop offset chunk

abbrev pub stream : Reader → Bytes
stream r = held r.pending r.pending_offset ++ delivered r.body

-- The three ways in which a read of at most `max_len` bytes ends.
abbrev pub Reads : ℕ → Bytes → Option AppError → AppResult (Option Bytes) × Reader → Type 0
Reads max_len s f (ok (some bytes), r) =
    (0 < length bytes) × (length bytes ≤ max_len) × (s ≡ bytes ++ stream r) × (failure r.body ≡ f)
Reads max_len s f (ok none, r) = (s ≡ []) × (f ≡ none) × (stream r ≡ []) × (failure r.body ≡ none)
Reads max_len s f (err e, r) = (s ≡ []) × (f ≡ some e)

slice_split :
    (chunk rest : Bytes) (from to : ℕ)
    → from ≤ to
    → drop from chunk ++ rest ≡ slice chunk from to ++ (drop to chunk ++ rest)
slice_split chunk rest from to h =
    let k : ℕ = to - from in
    let tail : List ℕ = drop from chunk in
    let e : drop to chunk ≡ drop k tail =
      ap (λ n. drop n chunk) (omega arith) ∙ drop-add from k chunk in
    ap (λ t. t ++ rest) (sym (take-append-drop k tail))
    ∙ append_assoc (take k tail) (drop k tail) rest
    ∙ ap (λ t. take k tail ++ (t ++ rest)) (sym e)

take_pending-Reads :
    (max_len : ℕ) (body : Body) (chunk : Bytes) (offset : ℕ)
    → 0 < max_len
    → offset < length chunk
    → Reads max_len
        (drop offset chunk ++ delivered body)
        (failure body)
        (take_pending max_len body chunk offset)
unfolding take_pending
take_pending-Reads max_len body chunk offset pos more =
    let rest = drop offset chunk in
    let size = length-drop offset chunk in
    elim (Bool-cases (min (offset + max_len) (length chunk) == length chunk)) [
      | inl last ↦
          let whole : length rest ≤ min (offset + max_len) (length chunk) - offset =
            ground (arith, size) in
          rw (last, take_all _ rest whole) (ground (arith, size), ground (arith, size), refl, refl)
      | inr part ↦
          let k : ℕ = min (offset + max_len) (length chunk) - offset in
          rw part (
            omega (arith, size, length-take k rest),
            omega (arith, size, length-take k rest),
            slice_split chunk (delivered body) offset _ (omega arith),
            refl,
          )
    ]

fetch-Reads :
    (max_len : ℕ) (body : Body)
    → 0 < max_len
    → Reads max_len (delivered body) (failure body) (fetch max_len body)
unfolding fetch new
fetch-Reads max_len [] pos = (refl, refl, refl, refl)
fetch-Reads max_len (err e ∷ body) pos = (refl, refl)
fetch-Reads max_len (ok [] ∷ body) pos = fetch-Reads max_len body pos
fetch-Reads max_len (ok (b ∷ bytes) ∷ body) pos =
    take_pending-Reads max_len body (b ∷ bytes) 0 pos (omega arith)

read_pending-Reads :
    (max_len : ℕ) (body : Body) (pending : Option Bytes) (offset : ℕ)
    → 0 < max_len
    → Reads max_len
        (held pending offset ++ delivered body)
        (failure body)
        (read_pending max_len body pending offset)
unfolding read_pending
read_pending-Reads max_len body none offset pos = fetch-Reads max_len body pos
read_pending-Reads max_len body (some chunk) offset pos =
    elim (Bool-cases (ltb offset (length chunk))) [
      | inl more ↦ rw more (take_pending-Reads max_len body chunk offset pos (ground arith))
      | inr over ↦ rw (over, drop_all offset chunk (ground arith)) (fetch-Reads max_len body pos)
    ]

-- A read hands out the next bytes of the stream, and at least one; or the stream has ended or failed.
pub read_some-Reads :
    (max_len : ℕ) (r : Reader)
    → 0 < max_len
    → Reads max_len (stream r) (failure r.body) (read_some max_len r)
unfolding read_some
read_some-Reads max_len r pos = read_pending-Reads max_len r.body r.pending r.pending_offset pos
