-- ===== src/Transfer/Parts.antt =====
-- server/src/transfer/range.rs and common.rs: the parts of a range upload that are downloaded but not
-- both hashed and uploaded, and the loop that hashes them in the order of their numbers.
pub mod Hashing
use tweet_db.Base.{
  ℕ, zero, suc, ◌+◌, Option, none, some, Bool, true, false, List, [], ◌∷◌, ◌++◌, leb, if◌then◌else◌,
  AppResult, ok, err, AppError, upstream, text, length, ◌>>=◌,
}
use tweet_db.Base.Dict.{Dict, lookup, insert, remove}
use tweet_db.Transfer.Ranges.{u64_max}
use tweet_db.Transfer.Download.{Bytes}

pub record ActivePartState : Type 0 where
  pub bytes : Option Bytes
  pub upload_done : Bool

abbrev pub uploading_hashed : ActivePartState
uploading_hashed = record { bytes = none; upload_done = false }

abbrev pub pending_hash : Bytes → ActivePartState
pending_hash bytes = record { bytes = some bytes; upload_done = false }

abbrev pub Parts : Type 0
Parts = Dict ActivePartState

abbrev pub overflow_error : AppError
overflow_error = upstream (text "object body exceeded u64 length limit" ∷ [])

-- `checked_add` on u64.
unfoldable pub add_content_length : ℕ → ℕ → AppResult ℕ
add_content_length total len =
    if leb (total + len) u64_max then ok (total + len) else err overflow_error

-- What the hashing loop writes to. `hashed` is the input that the hasher has been given.
pub record Hashed : Type 0 where
  pub parts : Parts
  pub hashed : Bytes
  pub content_length : ℕ
  pub next_hash_part : ℕ

-- The body of the loop, for the bytes of the part whose turn it is.
unfoldable pub hash_part : ActivePartState → Bytes → Hashed → AppResult Hashed
unfolding add_content_length
hash_part state bytes s = do
  total ← add_content_length s.content_length (length bytes)
  let part = s.next_hash_part
  let taken = insert part (record state { bytes = none }) s.parts
  ok (record {
    parts = if state.upload_done then remove part taken else taken;
    hashed = s.hashed ++ bytes;
    content_length = total;
    next_hash_part = part + 1;
  })

-- The part whose turn it is, if its bytes are there.
abbrev pub bytes_of : Option ActivePartState → Option (ActivePartState × Bytes)
bytes_of none = none
bytes_of (some state) = elim state.bytes [ none ↦ none | some bytes ↦ some (state, bytes) ]

unfoldable pub ready : Hashed → Option (ActivePartState × Bytes)
ready s = bytes_of (lookup s.next_hash_part s.parts)

abbrev next_round :
    (Hashed → AppResult Hashed) → Hashed → Option (ActivePartState × Bytes) → AppResult Hashed
next_round continue s none = ok s
next_round continue s (some (state, bytes)) = hash_part state bytes s >>= continue

-- The loop, with fuel.
pub hash_loop : ℕ → Hashed → AppResult Hashed
hash_loop zero s = ok s
hash_loop (suc fuel) s = next_round (hash_loop fuel) s (ready s)

-- Each round takes the bytes of one entry, so the number of entries is enough rounds.
unfoldable pub hash_ready_range_parts : Hashed → AppResult Hashed
unfolding hash_loop
hash_ready_range_parts s = hash_loop (length s.parts) s

-- The entry of an uploaded part is dropped if its bytes were hashed already.
after_upload : ℕ → Parts → Option ActivePartState → Parts
after_upload part parts none = parts
after_upload part parts (some state) =
    let updated = insert part (record state { upload_done = true }) parts in
    elim state.bytes [ none ↦ remove part updated | some bytes ↦ updated ]

unfoldable pub mark_range_part_uploaded : Parts → ℕ → Parts
unfolding after_upload
mark_range_part_uploaded parts part = after_upload part parts (lookup part parts)
