-- ===== src/Transfer/Sequential/Stored.antt =====
-- What a sequential upload has stored and hashed.
use mathlib.Core.List.{Perm}
use mathlib.Core.List.Perm
use mathlib.Core.Path.{subst}
use tweet_db.Base.{
  ℕ, zero, suc, ◌+◌, ◌≡◌, refl, sym, ap, ◌∙◌, Option, none, some, Bool, true, false, List, [], ◌∷◌,
  ◌++◌, map, append_assoc, append-nil, ltb, if◌then◌else◌, AppResult, ok, err, String, length,
  length-append, >>=-eq-ok, Bool-cases, inl, inr, arith,
}
use tweet_db.Transfer.Ranges.{ensure_valid_part_number}
use tweet_db.Transfer.Download.{Bytes}
use tweet_db.Transfer.Parts.{add_content_length}
use tweet_db.Transfer.RangeUpload.{take_at}
use tweet_db.Transfer.RangeUpload.Flight.{take_at-perm}
use tweet_db.Transfer.RangeUpload.Invariant.{part_numbers, part_numbers-append_one}
use tweet_db.Transfer.Sequential.{
  SequentialUpload, fresh, enqueue_sequential_part, Ready, arrived, next_upload, Waited, and_wait,
  wait_below, and_go_on, and_enqueue, upload_buffers,
}

-- The part numbers of so many buffers.
unfoldable pub numbers_to : ℕ → List ℕ
numbers_to zero = []
numbers_to (suc n) = numbers_to n ++ (suc n ∷ [])

-- After some buffers: their bytes are hashed, and each has a part, completed or in flight.
pub record Accounted (count : ℕ) (bytes : Bytes) (s : SequentialUpload) : Type 0 where
  pub next : s.next_part_number ≡ suc count
  pub hashed_all : s.hashed ≡ bytes
  pub counted : s.content_length ≡ length bytes
  pub every_part : Perm (part_numbers s.completed_parts ++ s.uploads) (numbers_to count)

fresh-Accounted : Accounted 0 [] fresh
unfolding numbers_to
fresh-Accounted = record {
  next = refl;
  hashed_all = refl;
  counted = refl;
  every_part = Perm.refl [];
}

arrived-Accounted :
    (count : ℕ) (bytes : Bytes) (i : ℕ) (answer : AppResult String) (s t : SequentialUpload)
    → Accounted count bytes s
    → next_upload (i, answer) s ≡ some (ok t)
    → Accounted count bytes t
unfolding next_upload
arrived-Accounted count bytes i answer s t h run = go (take_at i s.uploads) answer refl run
  where
    go :
        (o : Option (ℕ × List ℕ)) (r : AppResult String)
        → take_at i s.uploads ≡ o
        → arrived o r s ≡ some (ok t)
        → Accounted count bytes t
    go none r at k = absurd (cc k)
    go (some (part, rest)) (err e) at k = absurd (ground arith)
    go (some (part, rest)) (ok tag) at k =
        let after : SequentialUpload = record s {
          uploads = rest;
          completed_parts = s.completed_parts ++ (record { part_number = part; etag = tag } ∷ []);
        } in
        let same : after ≡ t = ground arith in
        subst (Accounted count bytes) same (record {
          next = h.next;
          hashed_all = h.hashed_all;
          counted = h.counted;
          every_part =
              rw
                (
                  part_numbers-append_one (record { part_number = part; etag = tag })
                      s.completed_parts,
                  append_assoc (part_numbers s.completed_parts) (part ∷ []) rest,
                )
                (Perm.trans
                  (Perm.append_left (part_numbers s.completed_parts)
                    (Perm.symm (take_at-perm i part s.uploads rest at)))
                  h.every_part);
        })

added_total : (a b c : ℕ) → add_content_length a b ≡ ok c → c ≡ a + b
unfolding add_content_length
added_total a b c h = ground arith

not_taken : {A : Type 0} (b : Bool) (x y : A) {z : A} → (if b then x else y) ≡ z → b ≡ false → y ≡ z
not_taken true x y h no_test = absurd (cc no_test)
not_taken false x y h no_test = h

enqueued-Accounted :
    (count : ℕ) (bytes buffer : Bytes) (s t : SequentialUpload)
    → Accounted count bytes s
    → enqueue_sequential_part buffer s ≡ ok t
    → Accounted (suc count) (bytes ++ buffer) t
unfolding enqueue_sequential_part numbers_to
enqueued-Accounted count bytes buffer s t h run =
    let (valid, checked, next) = >>=-eq-ok (ensure_valid_part_number s.next_part_number) _ run in
    let (total, added, done) =
      >>=-eq-ok (add_content_length s.content_length (length buffer)) _ next in
    let after : SequentialUpload = record {
      uploads = s.uploads ++ (s.next_part_number ∷ []);
      completed_parts = s.completed_parts;
      hashed = s.hashed ++ buffer;
      content_length = total;
      next_part_number = s.next_part_number + 1;
    } in
    let same : after ≡ t = ground arith in
    subst (Accounted (suc count) (bytes ++ buffer)) same (record {
      next = omega (arith, h.next);
      hashed_all = ap (λ xs. xs ++ buffer) h.hashed_all;
      counted =
          added_total s.content_length (length buffer) total added
          ∙ (ap (λ k. k + length buffer) h.counted ∙ sym (length-append bytes buffer));
      every_part =
          rw (h.next, ← append_assoc (part_numbers s.completed_parts) s.uploads (suc count ∷ []))
            (Perm.append_right (suc count ∷ []) h.every_part);
    })

abbrev pub concat : List Bytes → Bytes
concat [] = []
concat (b ∷ buffers) = b ++ concat buffers

and_wait-Accounted :
    (limit count : ℕ) (bytes : Bytes) (event : Ready) (events left : List Ready)
    (s t : SequentialUpload)
    → Accounted count bytes s
    → ((u : SequentialUpload)
        → Accounted count bytes u
        → wait_below limit events u ≡ some (ok (t, left))
        → Accounted count bytes t × (ltb (length t.uploads) limit ≡ true))
    → (o : Option (AppResult SequentialUpload)) → next_upload event s ≡ o
    → and_wait (wait_below limit events) o ≡ some (ok (t, left))
    → Accounted count bytes t × (ltb (length t.uploads) limit ≡ true)
and_wait-Accounted limit count bytes event events left s t h rest none at k = absurd (cc k)
and_wait-Accounted limit count bytes event events left s t h rest (some (err e)) at k =
    absurd (ground arith)
and_wait-Accounted limit count bytes event events left s t h rest (some (ok u)) at k =
    rest u (arrived-Accounted count bytes event.0 event.1 s u h at) k

waited-Accounted :
    (limit count : ℕ) (bytes : Bytes) (events left : List Ready) (s t : SequentialUpload)
    → Accounted count bytes s
    → wait_below limit events s ≡ some (ok (t, left))
    → Accounted count bytes t × (ltb (length t.uploads) limit ≡ true)
unfolding wait_below
waited-Accounted limit count bytes [] left s t h run =
    elim (Bool-cases (ltb (length s.uploads) limit)) [
      | inl below ↦
          let same : s ≡ t = ground arith in
          (
            subst (Accounted count bytes) same h,
            subst (λ x. ltb (length x.uploads) limit ≡ true) same below,
          )
      | inr full ↦ absurd (ground arith)
    ]
waited-Accounted limit count bytes (event ∷ events) left s t h run =
    elim (Bool-cases (ltb (length s.uploads) limit)) [
      | inl below ↦
          let same : s ≡ t = ground arith in
          (
            subst (Accounted count bytes) same h,
            subst (λ x. ltb (length x.uploads) limit ≡ true) same below,
          )
      | inr full ↦
          and_wait-Accounted limit count bytes event events left s t h
            (λ u g k. waited-Accounted limit count bytes events left u t g k) (next_upload event s)
            refl (not_taken (ltb (length s.uploads) limit) _ _ run full)
    ]

go_on-Accounted :
    (limit count : ℕ) (bytes buffer final : Bytes) (rest : SequentialUpload → List Ready → Waited)
    → (s t : SequentialUpload) (events left : List Ready) (total : ℕ) → Accounted count bytes s
    → ((u : SequentialUpload)
        → Accounted (suc count) (bytes ++ buffer) u
        → rest u events ≡ some (ok (t, left))
        → Accounted total final t × (t.uploads ≡ []))
    → (r : AppResult SequentialUpload) → enqueue_sequential_part buffer s ≡ r
    → and_go_on rest events r ≡ some (ok (t, left))
    → Accounted total final t × (t.uploads ≡ [])
go_on-Accounted limit count bytes buffer final rest s t events left total h k (err e) at run =
    absurd (ground arith)
go_on-Accounted limit count bytes buffer final rest s t events left total h k (ok u) at run =
    k u (enqueued-Accounted count bytes buffer s u h at) run

none_left : (uploads : List ℕ) → ltb (length uploads) 1 ≡ true → uploads ≡ []
none_left [] h = refl
none_left (x ∷ uploads) h = absurd (ground arith)

uploaded-Accounted :
    (limit count : ℕ) (bytes : Bytes) (buffers : List Bytes) (events left : List Ready)
    → (s t : SequentialUpload) → Accounted count bytes s
    → upload_buffers limit (map (λ b. ok b) buffers) s events ≡ some (ok (t, left))
    → Accounted (count + length buffers) (bytes ++ concat buffers) t × (t.uploads ≡ [])
unfolding upload_buffers
uploaded-Accounted limit count bytes [] events left s t h run =
    let (done, none_in_flight) = waited-Accounted 1 count bytes events left s t h run in
    (
      subst (λ k. Accounted k (bytes ++ []) t) (omega arith)
          (subst (λ b. Accounted count b t) (sym (append-nil bytes)) done),
      none_left t.uploads none_in_flight,
    )
uploaded-Accounted limit count bytes (buffer ∷ buffers) events left s t h run =
    go (wait_below limit events s) refl run (λ mid before g u k r.
      uploaded-Accounted limit (suc count) (bytes ++ buffer) buffers before left u t k r)
  where
    go :
        (w : Waited)
        → wait_below limit events s ≡ w
        → and_enqueue (upload_buffers limit (map (λ b. ok b) buffers)) buffer w
          ≡ some (ok (t, left))
        → ((mid : SequentialUpload) (before : List Ready)
            → Accounted count bytes mid
            → (u : SequentialUpload) → Accounted (suc count) (bytes ++ buffer) u
            → upload_buffers limit (map (λ b. ok b) buffers) u before ≡ some (ok (t, left))
            → Accounted (suc count + length buffers) ((bytes ++ buffer) ++ concat buffers) t
              × (t.uploads ≡ []))
        → Accounted (count + suc (length buffers)) (bytes ++ (buffer ++ concat buffers)) t
          × (t.uploads ≡ [])
    go none at k rec = absurd (cc k)
    go (some (err e)) at k rec = absurd (ground arith)
    go (some (ok (mid, before))) at k rec =
        let (ready, below) = waited-Accounted limit count bytes events before s mid h at in
        let result =
          go_on-Accounted limit count bytes buffer ((bytes ++ buffer) ++ concat buffers)
            (upload_buffers limit (map (λ b. ok b) buffers)) mid t before left
            (suc count + length buffers) ready (λ u g r. rec mid before ready u g r)
            (enqueue_sequential_part buffer mid) refl k in
        (
          subst (λ k. Accounted k (bytes ++ (buffer ++ concat buffers)) t) (omega arith)
              (subst (λ b. Accounted (suc count + length buffers) b t)
                (append_assoc bytes buffer (concat buffers)) result.0),
          result.1,
        )

-- Whatever the order in which the uploads become ready: if the upload of some buffers succeeds, every
-- part has been stored exactly once, the parts are numbered from 1, one for each buffer, and the bytes of
-- the buffers have been hashed in their order and counted.
pub upload_buffers_stores :
    (limit : ℕ) (buffers : List Bytes) (events left : List Ready) (t : SequentialUpload)
    → upload_buffers limit (map (λ b. ok b) buffers) fresh events ≡ some (ok (t, left))
    → Perm (part_numbers t.completed_parts) (numbers_to (length buffers))
      × (t.hashed ≡ concat buffers)
      × (t.content_length ≡ length (concat buffers))
upload_buffers_stores limit buffers events left t run =
    let (h, empty) =
      uploaded-Accounted limit 0 [] buffers events left fresh t fresh-Accounted run in
    let parts : Perm (part_numbers t.completed_parts ++ []) (numbers_to (0 + length buffers)) =
      subst (λ u. Perm (part_numbers t.completed_parts ++ u) (numbers_to (0 + length buffers)))
        empty h.every_part in
    let zero_plus : 0 + length buffers ≡ length buffers = omega arith in
    (
      subst (λ n. Perm (part_numbers t.completed_parts) (numbers_to n)) zero_plus
          (subst (λ xs. Perm xs (numbers_to (0 + length buffers)))
            (append-nil (part_numbers t.completed_parts)) parts),
      h.hashed_all,
      h.counted,
    )
