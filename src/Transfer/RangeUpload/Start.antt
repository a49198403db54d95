-- ===== src/Transfer/RangeUpload/Start.antt =====
-- The invariant holds in front of the loop of a range upload.
use mathlib.Core.List.Perm
use mathlib.Core.Path.{subst}
use tweet_db.Base.{
  ℕ, ◌≡◌, refl, inl, inr, List, [], ◌∷◌, arith, AppResult, ok, Bool-cases, >>=-eq-ok, ◌==◌,
}
use tweet_db.Base.Dict.{insert, lookup}
use tweet_db.Transfer.Ranges.{RangeSpec}
use tweet_db.Transfer.Download.{Bytes, DownloadedPart}
use tweet_db.Transfer.Parts.{Hashed, pending_hash, hash_ready_range_parts}
use tweet_db.Transfer.RangeUpload.Flight.{numbers}
use tweet_db.Transfer.RangeUpload.Hashes.{HashInv, hash_ready_range_parts-HashInv}
use tweet_db.Transfer.RangeUpload.Invariant.{Inv, Queued}
use tweet_db.Transfer.RangeUpload.{RangeUpload, start}

module _ (content : ℕ → Bytes) (source : RangeSpec → AppResult DownloadedPart) (total : ℕ)
    (ranges : List RangeSpec) where
  unhashed : Hashed
  unhashed = record {
    parts = insert 1 (pending_hash (content 1)) [];
    hashed = [];
    content_length = 0;
    next_hash_part = 1;
  }

  unhashed-HashInv : HashInv content 2 [] (1 ∷ []) unhashed
  unfolding unhashed insert lookup
  unhashed-HashInv = record {
    positive = omega arith;
    entry = λ p x h. elim (Bool-cases (1 == p)) [
      | inl eq ↦ ground arith
      | inr ne ↦ absurd (ground arith)
    ];
    flying = λ p h. absurd h;
    found = λ p le lt. inr (pending_hash (content 1), ground arith);
    hashed = refl;
    counted = refl;
    reached = omega arith;
  }

  -- The first chunk is part 1, and the ranges are numbered from 2 on.
  pub start-Inv :
      (s : RangeUpload)
      → Queued content source total (1 ∷ numbers ranges) 2 ranges
      → start (content 1) ranges ≡ ok s
      → Inv content source total (1 ∷ numbers ranges) 2 s
  unfolding start unhashed
  start-Inv s queued h =
      let hashing = >>=-eq-ok (hash_ready_range_parts unhashed) _ h in
      let done =
        hash_ready_range_parts-HashInv content 2 [] (1 ∷ []) unhashed hashing.0 unhashed-HashInv
          hashing.1 in
      let result : RangeUpload = record {
        pending_ranges = ranges;
        downloads = [];
        uploads = 1 ∷ [];
        completed_parts = [];
        hash = hashing.0;
      } in
      let same : result ≡ s = ground (arith, hashing.2) in
      subst (Inv content source total (1 ∷ numbers ranges) 2) same (record {
        hash_inv = done.0;
        settled = done.1;
        queued = queued;
        known = tt;
        distinct = tt;
        accounted = Perm.refl (1 ∷ numbers ranges);
      })
