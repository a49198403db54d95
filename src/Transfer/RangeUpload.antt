-- ===== src/Transfer/RangeUpload.antt =====
-- server/src/transfer/upload.rs, `upload_multipart_range_inner`: the parts of an object are downloaded
-- and uploaded concurrently and hashed in order.
pub mod Flight
pub mod Hashes
pub mod Invariant
pub mod Completion
pub mod Progress
pub mod Start
pub mod Object
use tweet_db.Base.{
  ℕ, zero, suc, ◌+◌, Option, none, some, Bool, true, false, List, [], ◌∷◌, ◌++◌, ◌&&◌, leb, ltb,
  ◌==◌, if◌then◌else◌, AppResult, ok, err, AppError, upstream, text, num, String, length, ◌>>=◌,
  ◌>>◌,
}
use tweet_db.Base.Dict.{Dict, lookup, insert, remove}
use tweet_db.Transfer.Ranges.{RangeSpec, build_range_specs}
use tweet_db.Transfer.Download.{Bytes, DownloadedPart}
use tweet_db.Transfer.Parts.{
  ActivePartState, uploading_hashed, pending_hash, Parts, Hashed, hash_ready_range_parts,
  mark_range_part_uploaded,
}

-- The two options that the loop reads.
pub record Limits : Type 0 where
  pub download_parallelism : ℕ
  pub max_in_flight_parts : ℕ

pub record UploadedPart : Type 0 where
  pub part_number : ℕ
  pub etag : String

-- The loop's variables. A download in flight is its range, an upload in flight is its part number.
pub record RangeUpload : Type 0 where
  pub pending_ranges : List RangeSpec
  pub downloads : List RangeSpec
  pub uploads : List ℕ
  pub completed_parts : List UploadedPart
  pub hash : Hashed
  pub open hash use *

-- The state in front of the loop.
unfoldable pub start : Bytes → List RangeSpec → AppResult RangeUpload
start first_buffer ranges = do
  let first = record uploading_hashed { bytes = some first_buffer }
  let unhashed : Hashed = record {
    parts = insert 1 first [];
    hashed = [];
    content_length = 0;
    next_hash_part = 1;
  }
  hash ← hash_ready_range_parts unhashed
  ok (record {
    pending_ranges = ranges;
    downloads = [];
    uploads = 1 ∷ [];
    completed_parts = [];
    hash = hash;
  })

-- The inner `while`: it starts downloads as long as both limits allow it.
unfoldable pub refill :
    Limits → List RangeSpec → ℕ → List RangeSpec → List RangeSpec × List RangeSpec
refill limits downloads parts [] = (downloads, [])
refill limits downloads parts (spec ∷ pending) =
    let more = refill limits (downloads ++ spec ∷ []) parts pending in
    if ltb (length downloads) limits.download_parallelism
      && ltb (length downloads + parts) limits.max_in_flight_parts
    then more
    else (downloads, spec ∷ pending)

unfoldable pub start_downloads : Limits → RangeUpload → RangeUpload
start_downloads limits s =
    let (downloads, pending) = refill limits s.downloads (length s.parts) s.pending_ranges in
    record s { downloads = downloads; pending_ranges = pending }

abbrev pub is_empty {ℓ} : {A : Type ℓ} → List A → Bool
is_empty [] = true
is_empty (x ∷ xs) = false

-- The loop's `break`.
unfoldable pub is_finished : RangeUpload → Bool
is_finished s =
    is_empty s.pending_ranges && is_empty s.downloads && is_empty s.uploads && is_empty s.parts

-- `select!` panics if both of its branches are disabled.
unfoldable pub is_stalled : RangeUpload → Bool
is_stalled s = is_empty s.downloads && is_empty s.uploads

-- Which future is ready first: the i-th download or the i-th upload in flight. An upload answers with
-- its tag or an error.
pub data Event : Type 0 where
  downloaded : ℕ → Event
  uploaded : ℕ → AppResult String → Event

-- A future leaves its set when it is ready.
unfoldable pub take_at {ℓ} : {A : Type ℓ} → ℕ → List A → Option (A × List A)
take_at i [] = none
take_at zero (x ∷ xs) = some (x, xs)
take_at (suc i) (x ∷ xs) = elim (take_at i xs) [ none ↦ none | some (y, ys) ↦ some (y, x ∷ ys) ]

-- The first branch of `select!`, for a downloaded part.
pub receive : DownloadedPart → RangeUpload → AppResult RangeUpload
receive part s = do
  let parts = insert part.part_number (pending_hash part.bytes) s.parts
  hash ← hash_ready_range_parts (record s.hash { parts = parts })
  ok (record s { uploads = s.uploads ++ part.part_number ∷ []; hash = hash })

-- The second branch, for an uploaded part.
pub complete : UploadedPart → RangeUpload → RangeUpload
complete part s = record s {
  completed_parts = s.completed_parts ++ part ∷ [];
  hash = record s.hash { parts = mark_range_part_uploaded s.parts part.part_number };
}

-- `source` is what the download of a range returns.
module _ (source : RangeSpec → AppResult DownloadedPart) where
  -- `none` means that there is no such future.
  unfoldable pub turn : Event → RangeUpload → Option (AppResult RangeUpload)
  turn (downloaded i) s = elim (take_at i s.downloads) [
    | none ↦ none
    | some (spec, rest) ↦ some (do part ← source spec; receive part (record s { downloads = rest }))
  ]
  turn (uploaded i answer) s = elim (take_at i s.uploads) [
    | none ↦ none
    | some (part, rest) ↦ some (do
      tag ← answer
      ok (complete (record { part_number = part; etag = tag }) (record s { uploads = rest })))
  ]

-- How the loop ends, or where it is when the events are used up.
pub data Outcome : Type 0 where
  finished : RangeUpload → Outcome
  failed : AppError → Outcome
  stalled : Outcome
  waiting : RangeUpload → Outcome
  absent : Outcome

abbrev after_turn : (RangeUpload → Outcome) → Option (AppResult RangeUpload) → Outcome
after_turn continue none = absent
after_turn continue (some (err e)) = failed e
after_turn continue (some (ok s)) = continue s

unfoldable pub at_select : (RangeUpload → Outcome) → RangeUpload → Outcome
at_select continue s =
    let more = continue s in
    if is_finished s then finished s else if is_stalled s then stalled else more

module _ (source : RangeSpec → AppResult DownloadedPart) (limits : Limits) where
  -- The loop over the futures that become ready, in any order.
  unfoldable pub run : List Event → RangeUpload → Outcome
  run [] s = at_select waiting (start_downloads limits s)
  run (event ∷ events) s =
      at_select (λ t. after_turn (run events) (turn source event t)) (start_downloads limits s)

abbrev pub i64_max : ℕ
i64_max = 9223372036854775807

abbrev pub mismatch_error : ℕ → ℕ → AppError
mismatch_error hashed expected = upstream (
    text "downloaded content length "
    ∷ num hashed
    ∷ text " did not match expected content length "
    ∷ num expected
    ∷ [])

abbrev pub i64_error : AppError
i64_error = upstream (text "object body exceeded i64 length limit" ∷ [])

-- The checks behind the loop; the result is what the upload is completed with: the parts, the length
-- and the hasher's input.
unfoldable pub conclude : ℕ → RangeUpload → AppResult (List UploadedPart × ℕ × Bytes)
conclude content_length s = do
  if s.content_length == content_length
      then ok tt
      else err (mismatch_error s.content_length content_length)
  if leb s.content_length i64_max then ok tt else err i64_error
  ok (s.completed_parts, s.content_length, s.hashed)
