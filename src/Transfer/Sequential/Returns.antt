-- ===== src/Transfer/Sequential/Returns.antt =====
-- A sequential upload returns when the storage takes its parts.
use tweet_db.Base.{
  ℕ, zero, suc, ◌+◌, ◌≤◌, ◌<◌, ◌≡◌, refl, ap, ◌∙◌, some, true, List, [], ◌∷◌, ◌++◌, map, ltb, leb,
  ok, String, length, length-append, Bool-cases, inl, inr, arith,
}
use tweet_db.Transfer.Ranges.{ensure_valid_part_number, u64_max}
use tweet_db.Transfer.Download.{Bytes}
use tweet_db.Transfer.Parts.{add_content_length}
use tweet_db.Transfer.RangeUpload.{take_at}
use tweet_db.Transfer.Sequential.{
  SequentialUpload, fresh, enqueue_sequential_part, Ready, next_upload, wait_below, upload_buffers,
}
use tweet_db.Transfer.Sequential.Stored.{concat}

-- So many uploads are answered, the oldest first.
unfoldable pub answers : String → ℕ → List Ready
answers tag zero = []
answers tag (suc n) = (0, ok tag) ∷ answers tag n

-- The waiting ends, and has used up one answer for each upload that left.
record Ends (limit : ℕ) (tag : String) (n : ℕ) (s : SequentialUpload) : Type 0 where
  state : SequentialUpload
  left : ℕ
  runs : wait_below limit (answers tag n) s ≡ some (ok (state, answers tag left))
  used : left + length s.uploads ≡ n + length state.uploads
  same_next : state.next_part_number ≡ s.next_part_number
  same_length : state.content_length ≡ s.content_length

-- The oldest upload in flight is answered.
record Answered (tag : String) (s : SequentialUpload) : Type 0 where
  next_state : SequentialUpload
  answered : next_upload (0, ok tag) s ≡ some (ok next_state)
  one_less : length s.uploads ≡ suc (length next_state.uploads)
  keeps_next : next_state.next_part_number ≡ s.next_part_number
  keeps_length : next_state.content_length ≡ s.content_length

next_upload-Answered :
    (tag : String) (s : SequentialUpload) (uploads : List ℕ)
    → s.uploads ≡ uploads
    → 0 < length uploads
    → Answered tag s
unfolding next_upload take_at
next_upload-Answered tag s [] at some_upload = absurd (omega arith)
next_upload-Answered tag s (x ∷ rest) at some_upload = record {
  next_state = record s {
    uploads = rest;
    completed_parts = s.completed_parts ++ (record { part_number = x; etag = tag } ∷ []);
  };
  answered = rw at refl;
  one_less = ap length at;
  keeps_next = refl;
  keeps_length = refl;
}

wait-Ends :
    (limit : ℕ) (tag : String) (n : ℕ) (s : SequentialUpload)
    → 1 ≤ limit
    → length s.uploads ≤ n
    → Ends limit tag n s
unfolding wait_below answers
wait-Ends limit tag zero s one enough = record {
  state = s;
  left = 0;
  runs = ground arith;
  used = refl;
  same_next = refl;
  same_length = refl;
}
wait-Ends limit tag (suc n) s one enough = elim (Bool-cases (ltb (length s.uploads) limit)) [
  | inl below ↦ record {
    state = s;
    left = suc n;
    runs = rw below refl;
    used = refl;
    same_next = refl;
    same_length = refl;
  }
  | inr full ↦
      let first = next_upload-Answered tag s s.uploads refl (ground arith) in
      let rest = wait-Ends limit tag n first.next_state one (omega (arith, first.one_less)) in
      record {
        state = rest.state;
        left = rest.left;
        runs = rw (full, first.answered) rest.runs;
        used = omega (arith, rest.used, first.one_less);
        same_next = rest.same_next ∙ first.keeps_next;
        same_length = rest.same_length ∙ first.keeps_length;
      }
]

enqueued :
    (buffer : Bytes) (s : SequentialUpload)
    → 1 ≤ s.next_part_number
    → s.next_part_number ≤ 10000
    → s.content_length + length buffer ≤ u64_max
    → (t : SequentialUpload) × (enqueue_sequential_part buffer s ≡ ok t)
      × (t.next_part_number ≡ s.next_part_number + 1)
      × (t.content_length ≡ s.content_length + length buffer)
      × (length t.uploads ≡ length s.uploads + 1)
unfolding enqueue_sequential_part ensure_valid_part_number add_content_length
enqueued buffer s low high fits =
    let a : leb 1 s.next_part_number ≡ true = ground arith in
    let b : leb s.next_part_number 10000 ≡ true = ground arith in
    let c : leb (s.content_length + length buffer) u64_max ≡ true = ground arith in
    let t : SequentialUpload = record {
      uploads = s.uploads ++ (s.next_part_number ∷ []);
      completed_parts = s.completed_parts;
      hashed = s.hashed ++ buffer;
      content_length = s.content_length + length buffer;
      next_part_number = s.next_part_number + 1;
    } in
    (t, rw (a, b, c) refl, refl, refl, length-append s.uploads (s.next_part_number ∷ []))

uploads_end :
    (limit : ℕ) (tag : String) (n : ℕ) (buffers : List Bytes) (s : SequentialUpload)
    → 1 ≤ limit
    → 1 ≤ s.next_part_number
    → s.next_part_number + length buffers ≤ 10001
    → s.content_length + length (concat buffers) ≤ u64_max
    → length s.uploads + length buffers ≤ n
    → (t : SequentialUpload) × (left : List Ready) × (upload_buffers limit
          (map (λ b. ok b) buffers)
          s
          (answers tag n)
        ≡ some (ok (t, left)))
unfolding upload_buffers
uploads_end limit tag n [] s one low high fits enough =
    let ends = wait-Ends 1 tag n s (omega arith) (omega arith) in
    (ends.state, answers tag ends.left, ends.runs)
uploads_end limit tag n (buffer ∷ buffers) s one low high fits enough =
    let ends = wait-Ends limit tag n s one (omega arith) in
    let size = length-append buffer (concat buffers) in
    let (u, added, next, total, more) =
      enqueued buffer ends.state (omega (arith, ends.same_next)) (omega (arith, ends.same_next))
        (omega (arith, ends.same_length, size)) in
    let (t, left, runs) =
      uploads_end limit tag ends.left buffers u one (omega (arith, next))
        (omega (arith, next, ends.same_next)) (omega (arith, total, size, ends.same_length))
        (omega (arith, more, ends.used)) in
    (t, left, rw (ends.runs, added) runs)

-- With room for at least one part in flight, up to 10000 buffers whose lengths together fit into 64
-- bits are uploaded to the end, when the storage takes every part and answers the oldest first.
pub upload_buffers_ends :
    (limit : ℕ) (tag : String) (buffers : List Bytes)
    → 1 ≤ limit
    → length buffers ≤ 10000
    → length (concat buffers) ≤ u64_max
    → (t : SequentialUpload) × (left : List Ready) × (upload_buffers limit
          (map (λ b. ok b) buffers)
          fresh
          (answers tag (length buffers))
        ≡ some (ok (t, left)))
upload_buffers_ends limit tag buffers one few fits =
    uploads_end limit tag (length buffers) buffers fresh one (omega arith) (omega arith)
      (omega arith) (omega arith)
