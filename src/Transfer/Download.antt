-- ===== src/Transfer/Download.antt =====
-- server/src/transfer/download.rs: a response body is read through a buffer of one pending chunk.
pub mod Stream
pub mod Fill
pub mod Buffers
use tweet_db.Base.{
  ℕ, zero, suc, ◌+◌, ◌-◌, min, Option, none, some, Bool, List, [], ◌∷◌, ◌++◌, ltb, ◌==◌, not,
  if◌then◌else◌, AppResult, ok, err, AppError, upstream, text, num, String, length, take, drop,
  ◌>>=◌, ◌>>◌,
}
use mathlib.Core.Option
use tweet_db.Transfer.Ranges.{RangeSpec, len}

abbrev pub Bytes : Type 0
Bytes = List ℕ

-- What the HTTP client's `chunk` answers at each call, a deadline that passes included; the end of the
-- list is the end of the body.
abbrev pub Body : Type 0
Body = List (AppResult Bytes)

pub record Reader : Type 0 where
  pub body : Body
  pub pending : Option Bytes
  pub pending_offset : ℕ

unfoldable pub new : Body → Reader
new body = record { body = body; pending = none; pending_offset = 0 }

-- `pending.slice(from..to)`
abbrev pub slice : Bytes → ℕ → ℕ → Bytes
slice bytes from to = take (to - from) (drop from bytes)

-- The pending chunk still has bytes: hand out at most `max_len` of them.
unfoldable pub take_pending : ℕ → Body → Bytes → ℕ → AppResult (Option Bytes) × Reader
take_pending max_len body chunk offset =
    let end = min (offset + max_len) (length chunk) in
    let bytes = slice chunk offset end in
    if end == length chunk
    then (ok (some bytes), record { body = body; pending = none; pending_offset = 0 })
    else (ok (some bytes), record { body = body; pending = some chunk; pending_offset = end })

-- The rounds of the loop in which nothing is pending.
unfoldable pub fetch : ℕ → Body → AppResult (Option Bytes) × Reader
unfolding take_pending new
fetch max_len [] = (ok none, new [])
fetch max_len (err e ∷ body) = (err e, new body)
fetch max_len (ok [] ∷ body) = fetch max_len body
fetch max_len (ok (b ∷ bytes) ∷ body) = take_pending max_len body (b ∷ bytes) 0

unfoldable pub read_pending : ℕ → Body → Option Bytes → ℕ → AppResult (Option Bytes) × Reader
unfolding take_pending fetch
read_pending max_len body none offset = fetch max_len body
read_pending max_len body (some chunk) offset =
    if ltb offset (length chunk) then take_pending max_len body chunk offset else fetch max_len body

unfoldable pub read_some : ℕ → Reader → AppResult (Option Bytes) × Reader
unfolding read_pending
read_some max_len r = read_pending max_len r.body r.pending r.pending_offset

-- One round of `while buffer.len() < target`, on the answer of `read_some`.
unfoldable pub grow :
    (Bytes → AppResult Bytes)
    → (Bytes → Reader → Option (AppResult Bytes × Reader))
    → Bytes
    → AppResult (Option Bytes) × Reader
    → Option (AppResult Bytes × Reader)
grow at_end continue buffer (err e, r) = some (err e, r)
grow at_end continue buffer (ok none, r) = some (at_end buffer, r)
grow at_end continue buffer (ok (some bytes), r) = continue (buffer ++ bytes) r

-- The loop, with fuel: `none` means that the fuel ran out. `at_end` is what follows where the body
-- ends early.
unfoldable pub fill :
    (Bytes → AppResult Bytes) → ℕ → ℕ → Bytes → Reader → Option (AppResult Bytes × Reader)
unfolding grow
fill at_end zero target buffer r = none
fill at_end (suc fuel) target buffer r =
    let more =
      grow at_end (fill at_end fuel target) buffer (read_some (target - length buffer) r) in
    if ltb (length buffer) target then more else some (ok buffer, r)

unfoldable pub nonempty : Bytes → Option Bytes
nonempty [] = none
nonempty (b ∷ bytes) = some (b ∷ bytes)

unfoldable pub finish_buffer : AppResult Bytes × Reader → AppResult (Option Bytes) × Reader
finish_buffer (ok buffer, r) = (ok (nonempty buffer), r)
finish_buffer (err e, r) = (err e, r)

-- A round reads at least one byte, so one round more than the size is enough.
unfoldable pub read_next_buffer : Reader → ℕ → Option (AppResult (Option Bytes) × Reader)
read_next_buffer r chunk_size = Option.map finish_buffer (fill ok (suc chunk_size) chunk_size [] r)

pub record Response : Type 0 where
  pub status : ℕ
  pub content_length : Option ℕ
  pub body : Body

pub record DownloadedPart : Type 0 where
  pub part_number : ℕ
  pub bytes : Bytes

abbrev pub status_error : ℕ → String → AppError
status_error status source_url =
    upstream
      (text "range download returned status " ∷ num status ∷ text " for " ∷ text source_url ∷ [])

abbrev pub length_error : ℕ → ℕ → AppError
length_error length expected = upstream (
    text "range download returned length "
    ∷ num length
    ∷ text " for expected length "
    ∷ num expected
    ∷ [])

abbrev pub early_end_error : String → AppError
early_end_error source_url =
    upstream (text "range download ended early for " ∷ text source_url ∷ [])

unfoldable pub check_status : String → Response → AppResult (Unit {0})
check_status source_url response =
    if response.status == 206 then ok tt else err (status_error response.status source_url)

unfoldable pub check_length : RangeSpec → Option ℕ → AppResult (Unit {0})
check_length spec none = ok tt
check_length spec (some n) = if n == len spec then ok tt else err (length_error n (len spec))

unfoldable pub to_part : RangeSpec → AppResult Bytes × Reader → AppResult DownloadedPart
to_part spec (ok bytes, r) = ok (record { part_number = spec.part_number; bytes = bytes })
to_part spec (err e, r) = err e

unfoldable pub download_body : String → RangeSpec → Response → Option (AppResult DownloadedPart)
download_body source_url spec response = Option.map (to_part spec) (
    fill (λ _. err (early_end_error source_url)) (suc (len spec)) (len spec) [] (new response.body))

unfoldable pub after_checks :
    AppResult (Unit {0}) → Option (AppResult DownloadedPart) → Option (AppResult DownloadedPart)
after_checks (ok u) rest = rest
after_checks (err e) rest = some (err e)

-- `answer` is what the HTTP client answers to the request for the bytes of `spec`.
unfoldable pub download_range_part :
    String → RangeSpec → AppResult Response → Option (AppResult DownloadedPart)
download_range_part source_url spec (err e) = some (err e)
download_range_part source_url spec (ok response) =
    after_checks (do check_status source_url response; check_length spec response.content_length)
      (download_body source_url spec response)
