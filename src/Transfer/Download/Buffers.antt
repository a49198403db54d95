-- ===== src/Transfer/Download/Buffers.antt =====
-- What the two readers of download.rs return, in terms of the bytes that the body delivers.
use mathlib.Core.Option
use tweet_db.Transfer.Ranges.{RangeSpec, len}
use tweet_db.Base.{
  String, if◌then◌else◌, ℕ, suc, ◌≤◌, ◌<◌, ◌≡◌, sym, ◌∙◌, ap, ◌⊎◌, inl, inr, Option, none, some,
  List, [], arith, AppResult, ok, err, AppError, length, take, drop, leb, Bool-cases, take_all,
  drop_all,
}
use tweet_db.Transfer.Download.Stream.{delivered, failure, stream}
use tweet_db.Transfer.Download.Fill.{Short, clean_Short, failed_Short, fill-Filled, fill-Short}
use tweet_db.Transfer.Download.{
  Bytes, Body, Reader, new, nonempty, finish_buffer, read_next_buffer, Response, DownloadedPart,
  early_end_error, to_part, check_status, check_length, after_checks, download_body,
  download_range_part,
}

-- A read of the next buffer hands out the next `chunk_size` bytes of the body, or all that is left, or
-- `None` if nothing is, and leaves the rest of the body behind: for a body that does not fail, and for
-- one that fails only after that many bytes.
pub read_next_buffer_takes :
    (r : Reader) (chunk_size : ℕ)
    → (chunk_size ≤ length (stream r)) ⊎ (failure r.body ≡ none)
    → (r' : Reader) × (read_next_buffer r chunk_size
        ≡ some (ok (nonempty (take chunk_size (stream r))), r'))
      × (stream r' ≡ drop chunk_size (stream r))
      × (failure r'.body ≡ failure r.body)
unfolding read_next_buffer finish_buffer
read_next_buffer_takes r k h = elim (Bool-cases (leb k (length (stream r)))) [
  | inl enough ↦
      let got = fill-Filled ok k (suc k) k [] r (omega arith) (omega arith) (ground arith) in
      (got.0, ap (Option.map finish_buffer) got.1, got.2, got.3)
  | inr short ↦
      let lacks : length (stream r) < k = ground arith in
      let clean : failure r.body ≡ none = ground arith in
      let got =
        clean_Short ok [] _ _ _ clean
          (fill-Short ok k (suc k) k [] r (omega arith) (omega arith) lacks) in
      (
        got.0,
        rw (take_all k (stream r) (omega arith)) (ap (Option.map finish_buffer) got.1),
        got.2 ∙ sym (drop_all k (stream r) (omega arith)),
        got.3 ∙ sym clean,
      )
]

-- If the body fails before that many bytes, the read ends with the body's error.
pub read_next_buffer_fails :
    (r : Reader) (chunk_size : ℕ) (e : AppError)
    → length (stream r) < chunk_size
    → failure r.body ≡ some e
    → (r' : Reader) × (read_next_buffer r chunk_size ≡ some (err e, r'))
unfolding read_next_buffer finish_buffer
read_next_buffer_fails r k e short f =
    let got =
      failed_Short ok [] _ _ e _ f
        (fill-Short ok k (suc k) k [] r (omega arith) (omega arith) short) in
    (got.0, ap (Option.map finish_buffer) got.1)

abbrev at_failure : String → Option AppError → AppResult DownloadedPart
at_failure source_url none = err (early_end_error source_url)
at_failure source_url (some e) = err e

-- What a range download is to return, from the bytes that the body delivers.
abbrev pub part_of : String → RangeSpec → Body → AppResult DownloadedPart
part_of source_url spec body =
    if leb (len spec) (length (delivered body))
    then ok (record { part_number = spec.part_number; bytes = take (len spec) (delivered body) })
    else at_failure source_url (failure body)

Short-part :
    (source_url : String) (spec : RangeSpec) (body : Body) (f : Option AppError)
    (o : Option (AppResult Bytes × Reader))
    → Short (λ _. err (early_end_error source_url)) [] (delivered body) f o
    → Option.map (to_part spec) o ≡ some (at_failure source_url f)
unfolding to_part
Short-part source_url spec body none o h = ap (Option.map (to_part spec)) h.1
Short-part source_url spec body (some e) o h = ap (Option.map (to_part spec)) h.1

download_body_lem :
    (source_url : String) (spec : RangeSpec) (response : Response)
    → download_body source_url spec response ≡ some (part_of source_url spec response.body)
unfolding download_body to_part new
download_body_lem source_url spec response =
    let n : ℕ = len spec in
    let body : List (AppResult (List ℕ)) = response.body in
    let at_end : Bytes → AppResult Bytes = λ _. err (early_end_error source_url) in
    elim (Bool-cases (leb n (length (delivered body)))) [
      | inl enough ↦
          let got =
            fill-Filled at_end n (suc n) n [] (new body) (omega arith) (omega arith)
              (ground arith) in
          rw (enough, got.1)
      | inr short ↦ rw short (
          Short-part source_url spec body (failure body) _ (
            fill-Short at_end n (suc n) n [] (new body) (omega arith) (omega arith) (ground arith)))
    ]

-- A range download whose answer has the right status and no other length than the range's ends with
-- exactly the first bytes of the answer, as many as the range has, under the range's part number; if
-- the answer has fewer bytes, with its own failure or with the error of an early end.
pub download_range_part_exact :
    (source_url : String) (spec : RangeSpec) (response : Response)
    → response.status ≡ 206
    → (response.content_length ≡ none) ⊎ (response.content_length ≡ some (len spec))
    → download_range_part source_url spec (ok response)
      ≡ some (part_of source_url spec response.body)
unfolding download_range_part check_status check_length after_checks
download_range_part_exact source_url spec response status size =
    ground (arith, download_body_lem source_url spec response)
