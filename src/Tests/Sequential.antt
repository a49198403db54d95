-- ===== src/Tests/Sequential.antt =====
-- A sequential upload of two buffers.
use mathlib.Core.List.{Perm}
use tweet_db.Base.{◌≡◌, refl, some, List, [], ◌∷◌, map, ok, length, arith}
use tweet_db.Transfer.Download.{Bytes}
use tweet_db.Transfer.Ranges.{ensure_valid_part_number}
use tweet_db.Transfer.Parts.{add_content_length}
use tweet_db.Transfer.RangeUpload.{take_at}
use tweet_db.Transfer.RangeUpload.Invariant.{part_numbers}
use tweet_db.Transfer.Sequential.{
  SequentialUpload, fresh, Ready, wait_below, next_upload, enqueue_sequential_part, upload_buffers,
}
use tweet_db.Transfer.Sequential.Stored.{numbers_to, concat, upload_buffers_stores}
use tweet_db.Transfer.Sequential.Returns.{answers, upload_buffers_ends}

abbrev buffers : List Bytes
buffers = (1 ∷ 2 ∷ []) ∷ (3 ∷ []) ∷ []

-- The second part is stored first.
abbrev out_of_order : List Ready
out_of_order = (1, ok "b") ∷ (0, ok "a") ∷ []

abbrev final : SequentialUpload
final = record {
  uploads = [];
  completed_parts =
      record { part_number = 2; etag = "b" } ∷ record { part_number = 1; etag = "a" } ∷ [];
  hashed = 1 ∷ 2 ∷ 3 ∷ [];
  content_length = 3;
  next_part_number = 3;
}

runs : upload_buffers 4 (map (λ b. ok b) buffers) fresh out_of_order ≡ some (ok (final, []))
unfolding upload_buffers wait_below next_upload enqueue_sequential_part ensure_valid_part_number
    add_content_length take_at
runs = refl

upload_buffers_stores_example :
    Perm (part_numbers final.completed_parts) (numbers_to (length buffers))
    × (final.hashed ≡ concat buffers)
    × (final.content_length ≡ length (concat buffers))
upload_buffers_stores_example = upload_buffers_stores 4 buffers out_of_order [] final runs

upload_buffers_ends_example :
    (t : SequentialUpload) × (left : List Ready) × (upload_buffers 1
        (map (λ b. ok b) buffers)
        fresh
        (answers "t" (length buffers))
      ≡ some (ok (t, left)))
upload_buffers_ends_example =
    upload_buffers_ends 1 "t" buffers (omega arith) (omega arith) (omega arith)
