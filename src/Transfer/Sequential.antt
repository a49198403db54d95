-- ===== src/Transfer/Sequential.antt =====
-- server/src/transfer/upload.rs, `upload_multipart_sequential_inner`: the buffers of a body are uploaded
-- as parts while later ones are read, and hashed in their order.
pub mod Stored
pub mod Returns
use tweet_db.Base.{
  ℕ, zero, suc, ◌+◌, Option, none, some, Bool, true, false, List, [], ◌∷◌, ◌++◌, ltb, leb,
  if◌then◌else◌, AppResult, ok, err, AppError, String, length, ◌>>=◌, ◌>>◌,
}
use tweet_db.Transfer.Ranges.{ensure_valid_part_number}
use tweet_db.Transfer.Download.{Bytes}
use tweet_db.Transfer.Parts.{add_content_length}
use tweet_db.Transfer.RangeUpload.{UploadedPart, take_at, i64_max, i64_error}

-- The variables of the loop; an upload in flight is its part number.
pub record SequentialUpload : Type 0 where
  pub uploads : List ℕ
  pub completed_parts : List UploadedPart
  pub hashed : Bytes
  pub content_length : ℕ
  pub next_part_number : ℕ

abbrev pub fresh : SequentialUpload
fresh = record {
  uploads = [];
  completed_parts = [];
  hashed = [];
  content_length = 0;
  next_part_number = 1;
}

unfoldable pub enqueue_sequential_part : Bytes → SequentialUpload → AppResult SequentialUpload
enqueue_sequential_part buffer s = ensure_valid_part_number s.next_part_number >>= λ valid.
    (add_content_length s.content_length (length buffer) >>= λ total. ok (record {
      uploads = s.uploads ++ (s.next_part_number ∷ []);
      completed_parts = s.completed_parts;
      hashed = s.hashed ++ buffer;
      content_length = total;
      next_part_number = s.next_part_number + 1;
    }))

-- Which upload in flight is ready next, and its answer.
abbrev pub Ready : Type 0
Ready = ℕ × AppResult String

abbrev pub arrived :
    Option (ℕ × List ℕ) → AppResult String → SequentialUpload → Option (AppResult SequentialUpload)
arrived none answer s = none
arrived (some (part, rest)) (err e) s = some (err e)
arrived (some (part, rest)) (ok tag) s = some (
    ok (record s {
      uploads = rest;
      completed_parts = s.completed_parts ++ (record { part_number = part; etag = tag } ∷ []);
    }))

-- `uploads.next().await`: none means that there is no such upload.
unfoldable pub next_upload : Ready → SequentialUpload → Option (AppResult SequentialUpload)
next_upload (i, answer) s = arrived (take_at i s.uploads) answer s

abbrev pub Waited : Type 0
Waited = Option (AppResult (SequentialUpload × List Ready))

abbrev pub and_wait : (SequentialUpload → Waited) → Option (AppResult SequentialUpload) → Waited
and_wait rest none = none
and_wait rest (some (err e)) = some (err e)
and_wait rest (some (ok s)) = rest s

-- The uploads are awaited until fewer than `limit` are in flight: `wait_for_sequential_capacity`, and
-- with limit 1 the loop behind the last buffer. None means that the events are used up.
unfoldable pub wait_below : ℕ → List Ready → SequentialUpload → Waited
wait_below limit [] s = if ltb (length s.uploads) limit then some (ok (s, [])) else none
wait_below limit (event ∷ events) s =
    let more = and_wait (wait_below limit events) (next_upload event s) in
    if ltb (length s.uploads) limit then some (ok (s, event ∷ events)) else more

abbrev pub and_go_on :
    (SequentialUpload → List Ready → Waited) → List Ready → AppResult SequentialUpload → Waited
and_go_on rest events (err e) = some (err e)
and_go_on rest events (ok s) = rest s events

abbrev pub and_enqueue : (SequentialUpload → List Ready → Waited) → Bytes → Waited → Waited
and_enqueue rest buffer none = none
and_enqueue rest buffer (some (err e)) = some (err e)
and_enqueue rest buffer (some (ok (s, events))) =
    and_go_on rest events (enqueue_sequential_part buffer s)

-- The buffers are what `read_next_buffer` answers, the first and the preloaded ones in front, up to its
-- first none. In front of the first nothing is in flight, so that nothing is awaited there.
unfoldable pub upload_buffers : ℕ → List (AppResult Bytes) → SequentialUpload → List Ready → Waited
upload_buffers limit [] s events = wait_below 1 events s
upload_buffers limit (err e ∷ buffers) s events = some (err e)
upload_buffers limit (ok buffer ∷ buffers) s events =
    and_enqueue (upload_buffers limit buffers) buffer (wait_below limit events s)
