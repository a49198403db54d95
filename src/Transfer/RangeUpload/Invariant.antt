-- ===== src/Transfer/RangeUpload/Invariant.antt =====
-- The invariant of the loop in `upload_multipart_range_inner`, kept by each of its turns.
use mathlib.Core.Path.{subst}
use mathlib.Core.List.{Perm}
use tweet_db.Base.Dict.{insert}
use mathlib.Core.List.Perm
use tweet_db.Base.{
  ℕ, ◌+◌, ◌≡◌, refl, ap, ◌∙◌, ◌⊎◌, inl, inr, none, some, false, ◌&&◌, List, [], ◌∷◌, ◌++◌, map,
  arith, ltb, AppResult, ok, err, All, length, Bool-cases, Option-cases, AppResult-cases, >>=-eq-ok,
  append_assoc, String,
}
use tweet_db.Transfer.Ranges.{RangeSpec}
use tweet_db.Transfer.Download.{Bytes, DownloadedPart}
use tweet_db.Transfer.Parts.{Hashed, ready, hash_ready_range_parts, pending_hash}
use tweet_db.Transfer.Parts.Hashing.{mark_range_part_uploaded-settled}
use tweet_db.Transfer.RangeUpload.Flight.{
  Distinct, numbers, Distinct-append_one, map-append_one, take_at-Leaves, take_at-numbers,
  take_at-All, take_at-split, take_at-perm, move-perm, In-append_left, In-append_right,
}
use tweet_db.Transfer.RangeUpload.Hashes.{
  HashInv, hash_ready_range_parts-HashInv, launch-HashInv, receive-HashInv, complete-HashInv,
}
use tweet_db.Transfer.RangeUpload.{
  Limits, UploadedPart, RangeUpload, refill, start_downloads, Event, downloaded, uploaded, take_at,
  receive, complete, turn,
}

abbrev pub part_numbers : List UploadedPart → List ℕ
part_numbers = map (λ part. part.part_number)

-- Every part number is at one place: completed, uploading, downloading or pending.
abbrev pub places : RangeUpload → List ℕ
places s =
    part_numbers s.completed_parts
    ++ (s.uploads ++ (numbers s.downloads ++ numbers s.pending_ranges))

-- A limit is reached, or nothing is pending.
abbrev pub Refilled : Limits → RangeUpload → Type 0
Refilled limits s =
    (s.pending_ranges ≡ [])
    ⊎ ((ltb (length s.downloads) limits.download_parallelism
          && ltb (length s.downloads + length s.parts) limits.max_in_flight_parts)
        ≡ false)

pub part_numbers-append_one :
    (part : UploadedPart) (parts : List UploadedPart)
    → part_numbers (parts ++ part ∷ []) ≡ part_numbers parts ++ part.part_number ∷ []
part_numbers-append_one part [] = refl
part_numbers-append_one part (x ∷ parts) =
    ap (◌∷◌ x.part_number) (part_numbers-append_one part parts)

module _ (content : ℕ → Bytes) (source : RangeSpec → AppResult DownloadedPart) (total : ℕ)
    (all : List ℕ) where
  -- The download of a range returns its part's bytes, if it returns.
  abbrev pub Known : RangeSpec → Type 0
  Known spec =
      (part : DownloadedPart)
      → source spec ≡ ok part
      → (part.part_number ≡ spec.part_number) × (part.bytes ≡ content spec.part_number)

  abbrev pub Queued : ℕ → List RangeSpec → Type 0
  Queued next [] = next ≡ total
  Queued next (spec ∷ specs) = (spec.part_number ≡ next) × Known spec × Queued (next + 1) specs

  pub record Inv (next : ℕ) (s : RangeUpload) : Type 0 where
    pub hash_inv : HashInv content next (numbers s.downloads) s.uploads s.hash
    pub settled : ready s.hash ≡ none
    pub queued : Queued next s.pending_ranges
    pub known : All Known s.downloads
    pub distinct : Distinct (numbers s.downloads)
    pub accounted : Perm (places s) all

  All-append_one :
      (spec : RangeSpec) (specs : List RangeSpec)
      → All Known specs
      → Known spec
      → All Known (specs ++ spec ∷ [])
  All-append_one spec [] a k = (k, tt)
  All-append_one spec (x ∷ xs) a k = (a.0, All-append_one spec xs a.1 k)

  launch-Inv :
      (next : ℕ) (s : RangeUpload) (spec : RangeSpec) (pending : List RangeSpec)
      → Inv next (record s { pending_ranges = spec ∷ pending })
      → Inv (next + 1) (record s { downloads = s.downloads ++ spec ∷ []; pending_ranges = pending })
  launch-Inv next s spec pending inv =
      let grown : numbers (s.downloads ++ spec ∷ []) ≡ numbers s.downloads ++ next ∷ [] =
        map-append_one spec s.downloads ∙ ap (λ n. numbers s.downloads ++ n ∷ []) inv.queued.0 in
      record {
        hash_inv =
            rw grown
              (launch-HashInv content next (numbers s.downloads) s.uploads s.hash inv.hash_inv);
        settled = inv.settled;
        queued = inv.queued.2;
        known = All-append_one spec s.downloads inv.known inv.queued.1;
        distinct = rw grown (
            Distinct-append_one next (numbers s.downloads) inv.distinct
              (λ h. absurd (omega (arith, (inv.hash_inv.flying next h).1))));
        accounted =
            rw
              (
                map-append_one spec s.downloads,
                append_assoc (numbers s.downloads) (spec.part_number ∷ []) (numbers pending),
              )
              inv.accounted;
      }

  module _ (limits : Limits) where
    abbrev with_refill : RangeUpload → List RangeSpec × List RangeSpec → RangeUpload
    with_refill s (downloads, pending) = record s {
      downloads = downloads;
      pending_ranges = pending;
    }

    refill-Inv :
        (next : ℕ) (s : RangeUpload) (downloads pending : List RangeSpec)
        → Inv next (record s { downloads = downloads; pending_ranges = pending })
        → (m : ℕ) × Inv m (with_refill s (refill limits downloads (length s.parts) pending))
          × Refilled limits (with_refill s (refill limits downloads (length s.parts) pending))
    unfolding refill
    refill-Inv next s downloads [] inv = (next, inv, inl refl)
    refill-Inv next s downloads (spec ∷ pending) inv =
        let below =
          ltb (length downloads) limits.download_parallelism
          && ltb (length downloads + length s.parts) limits.max_in_flight_parts in
        elim (Bool-cases below) [
          | inr full ↦ rw full (next, inv, inr full)
          | inl room ↦ rw room (
              refill-Inv (next + 1) s (downloads ++ spec ∷ []) pending
                (launch-Inv next (record s { downloads = downloads }) spec pending inv))
        ]

    -- Starting downloads keeps the invariant, and goes on until a limit is reached.
    pub start_downloads-Inv :
        (next : ℕ) (s : RangeUpload)
        → Inv next s
        → (m : ℕ) × Inv m (start_downloads limits s) × Refilled limits (start_downloads limits s)
    unfolding start_downloads
    start_downloads-Inv next s inv = refill-Inv next s s.downloads s.pending_ranges inv

  -- The part that arrives is spec's, with its bytes.
  received :
      (next i : ℕ) (s t : RangeUpload) (spec : RangeSpec) (rest : List RangeSpec)
      → Inv next s
      → take_at i s.downloads ≡ some (spec, rest)
      → receive
          (record { part_number = spec.part_number; bytes = content spec.part_number })
          (record s { downloads = rest })
        ≡ ok t
      → Inv next t
  unfolding receive
  received next i s t spec rest inv taken h =
      let n : ℕ = spec.part_number in
      let moved = take_at-numbers i spec s.downloads rest taken in
      let leaves = take_at-Leaves i n (numbers s.downloads) (numbers rest) inv.distinct moved in
      let arrived : Hashed = record s.hash {
        parts = insert n (pending_hash (content n)) s.parts;
      } in
      let hashing = >>=-eq-ok (hash_ready_range_parts arrived) _ h in
      let done =
        hash_ready_range_parts-HashInv content next (numbers rest) (s.uploads ++ n ∷ []) arrived
          hashing.0
          (receive-HashInv content next n (numbers s.downloads) (numbers rest) s.uploads
            (s.uploads ++ n ∷ []) s.hash inv.hash_inv leaves.member leaves.others leaves.split
            (λ p. In-append_left p s.uploads (n ∷ []))
            (In-append_right n s.uploads (n ∷ []) (inl refl)))
          hashing.1 in
      let result : RangeUpload = record s {
        downloads = rest;
        uploads = s.uploads ++ n ∷ [];
        hash = hashing.0;
      } in
      let same : result ≡ t = ground (arith, hashing.2) in
      let inv' : Inv next result = record {
        hash_inv = done.0;
        settled = done.1;
        queued = inv.queued;
        known = (take_at-All Known i spec s.downloads rest inv.known taken).1;
        distinct = leaves.distinct;
        accounted =
            Perm.trans
              (Perm.append_left (part_numbers s.completed_parts) (
                move-perm n s.uploads (numbers s.downloads) (numbers rest)
                  (numbers s.pending_ranges)
                  (take_at-perm i n (numbers s.downloads) (numbers rest) moved)))
              inv.accounted;
      } in
      subst (Inv next) same inv'

  completed :
      (next i part : ℕ) (tag : String) (s : RangeUpload) (rest : List ℕ)
      → Inv next s
      → take_at i s.uploads ≡ some (part, rest)
      → Inv next
          (complete (record { part_number = part; etag = tag }) (record s { uploads = rest }))
  unfolding complete
  completed next i part tag s rest inv taken = record {
    hash_inv =
        complete-HashInv content next part (numbers s.downloads) s.uploads rest s.hash inv.hash_inv
          (λ p. take_at-split i part p s.uploads rest taken);
    settled = mark_range_part_uploaded-settled part s.hash inv.settled;
    queued = inv.queued;
    known = inv.known;
    distinct = inv.distinct;
    accounted = rw part_numbers-append_one (
        Perm.trans
          (move-perm part (part_numbers s.completed_parts) s.uploads rest
            (numbers s.downloads ++ numbers s.pending_ranges)
            (take_at-perm i part s.uploads rest taken))
          inv.accounted);
  }

  -- Every turn of the loop keeps the invariant, whichever future is ready.
  pub turn-Inv :
      (event : Event) (next : ℕ) (s t : RangeUpload)
      → Inv next s
      → turn source event s ≡ some (ok t)
      → Inv next t
  unfolding turn
  turn-Inv (downloaded i) next s t inv h = elim (Option-cases (take_at i s.downloads)) [
    | inl e ↦ absurd (ground (arith, e))
    | inr ((spec, rest), e) ↦ elim (AppResult-cases (source spec)) [
      | inr (x, q) ↦ absurd (ground (arith, e, q))
      | inl (part, q) ↦
          let known = (take_at-All Known i spec s.downloads rest inv.known e).0 part q in
          let same : part
              ≡ record { part_number = spec.part_number; bytes = content spec.part_number } =
            ground (arith, known) in
          let got : receive part (record s { downloads = rest }) ≡ ok t = ground (arith, e, q) in
          received next i s t spec rest inv e (rw same at got)
    ]
  ]
  turn-Inv (uploaded i (err x)) next s t inv h =
      absurd (ground (arith, Option-cases (take_at i s.uploads)))
  turn-Inv (uploaded i (ok tag)) next s t inv h = elim (Option-cases (take_at i s.uploads)) [
    | inl e ↦ absurd (ground (arith, e))
    | inr ((part, rest), e) ↦
        subst (Inv next) (ground (arith, e)) (completed next i part tag s rest inv e)
  ]
