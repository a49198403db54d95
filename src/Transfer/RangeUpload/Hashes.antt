-- ===== src/Transfer/RangeUpload/Hashes.antt =====
-- What the parts, the downloads and the uploads in flight have to do with one another while the parts
-- numbered below `next` have been started: the invariant of the hashing loop in a range upload.
use tweet_db.Base.{
  ℕ, zero, suc, ◌+◌, ◌-◌, ◌≤◌, ◌<◌, ◌≡◌, ap, ◌∙◌, ◌⊎◌, ◌≢◌, inl, inr, none, some, true, false, List,
  [], ◌∷◌, ◌++◌, arith, ok, length, length-append, Option-cases, Bool-cases, ◌==◌,
}
use tweet_db.Base.Dict.{lookup, insert, lookup-insert, lookup-remove}
use tweet_db.Transfer.Download.{Bytes}
use tweet_db.Transfer.Parts.{
  ActivePartState, Hashed, pending_hash, hash_part, ready, hash_ready_range_parts,
  mark_range_part_uploaded,
}
use tweet_db.Transfer.RangeUpload.Flight.{In, In-append, In-append_left, In-append_right}
use tweet_db.Transfer.Parts.Hashing.{
  ready-eq-some, lookup-mark_range_part_uploaded, hash_ready_range_parts_keeps,
}

module _ (content : ℕ → Bytes) where
  -- The bytes of the parts 1 to n.
  abbrev pub joined : ℕ → Bytes
  joined zero = []
  joined (suc n) = joined n ++ content (suc n)

  pub joined_step : (n m : ℕ) → 1 ≤ n → m ≡ n → joined m ≡ joined (n - 1) ++ content n
  joined_step zero m le e = absurd (omega arith)
  joined_step (suc n) m le e =
      ap joined e ∙ ap (λ k. joined k ++ content (suc n)) (let x : n ≡ suc n - 1 = omega arith in x)

  -- An entry is hashed and waits for its upload, or waits to be hashed with its part's bytes.
  abbrev pub Entry : ℕ → List ℕ → ℕ → ℕ → ActivePartState → Type 0
  Entry next uploads turn p state =
      (p < next)
      × ((state.upload_done ≡ true) ⊎ In p uploads)
      × (((p < turn) × (state.bytes ≡ none) × (state.upload_done ≡ false))
          ⊎ ((turn ≤ p) × (state.bytes ≡ some (content p))))

  pub record HashInv (next : ℕ) (downloads uploads : List ℕ) (h : Hashed) : Type 0 where
    pub positive : 1 ≤ h.next_hash_part
    pub entry :
        (p : ℕ) (state : ActivePartState)
        → lookup p h.parts ≡ some state
        → Entry next uploads h.next_hash_part p state
    pub flying :
        (p : ℕ) → In p downloads → (h.next_hash_part ≤ p) × (p < next) × (lookup p h.parts ≡ none)
    pub found :
        (p : ℕ)
        → h.next_hash_part ≤ p
        → p < next
        → In p downloads ⊎ ((state : ActivePartState) × (lookup p h.parts ≡ some state))
    pub hashed : h.hashed ≡ joined (h.next_hash_part - 1)
    pub counted : h.content_length ≡ length h.hashed
    pub reached : h.next_hash_part ≤ next

  module _ (next : ℕ) (downloads uploads : List ℕ) where
    hash_part-HashInv :
        (s t : Hashed) (state : ActivePartState) (bytes : Bytes)
        → HashInv next downloads uploads s
        → ready s ≡ some (state, bytes)
        → hash_part state bytes s ≡ ok t
        → HashInv next downloads uploads t
    unfolding hash_part
    hash_part-HashInv s t state bytes inv r e =
        let turn : ℕ = s.next_hash_part in
        let at_turn = ready-eq-some s state bytes r in
        let here = inv.entry turn state at_turn.0 in
        let taken = insert turn (record state { bytes = none }) s.parts in
        let gone = λ (p : ℕ). lookup-remove turn p taken in
        let set = λ (p : ℕ). lookup-insert turn p (record state { bytes = none }) s.parts in
        record {
          positive = ground arith;
          entry = λ p x h. ground (arith, gone p, set p, inv.entry p x, here, at_turn.1);
          flying = λ p h. ground (arith, gone p, set p, inv.flying p h, at_turn.0);
          found = λ p le lt.
              let same : lookup p t.parts ≡ lookup p s.parts = ground (arith, gone p, set p) in
              elim (inv.found p (ground arith) lt) [
                | inl flies ↦ inl flies
                | inr (x, h) ↦ inr (x, same ∙ h)
              ];
          hashed = ground (arith, at_turn.1, here, joined_step turn (t.next_hash_part - 1));
          counted = ground (arith, length-append s.hashed bytes);
          reached = ground (arith, here);
        }

    -- The hashing loop keeps the invariant, and leaves the next part to be downloaded.
    pub hash_ready_range_parts-HashInv :
        (s t : Hashed)
        → HashInv next downloads uploads s
        → hash_ready_range_parts s ≡ ok t
        → HashInv next downloads uploads t × (ready t ≡ none)
    hash_ready_range_parts-HashInv =
        hash_ready_range_parts_keeps (HashInv next downloads uploads) hash_part-HashInv

  -- The next part's download starts.
  pub launch-HashInv :
      (next : ℕ) (downloads uploads : List ℕ) (s : Hashed)
      → HashInv next downloads uploads s
      → HashInv (next + 1) (downloads ++ next ∷ []) uploads s
  launch-HashInv next downloads uploads s inv = record {
    positive = inv.positive;
    entry = λ p x h. ground (arith, inv.entry p x);
    flying = λ p h. elim (In-append p downloads (next ∷ []) h) [
      | inl old ↦ ground (arith, inv.flying p old)
      | inr (inl e) ↦
          let absent : lookup next s.parts ≡ none = elim (Option-cases (lookup next s.parts)) [
            | inl n ↦ n
            | inr (x, q) ↦ absurd (ground (arith, inv.entry next x q))
          ] in
          rw (← e) (inv.reached, omega arith, absent)
      | inr (inr bad) ↦ absurd bad
    ];
    found = λ p le lt. elim (Bool-cases (next == p)) [
      | inl eq ↦ inl (In-append_right p downloads (next ∷ []) (inl (ground arith)))
      | inr ne ↦ elim (inv.found p le (ground arith)) [
        | inl flies ↦ inl (In-append_left p downloads (next ∷ []) flies)
        | inr x ↦ inr x
      ]
    ];
    hashed = inv.hashed;
    counted = inv.counted;
    reached = omega (arith, inv.reached);
  }

  -- A download in flight arrives: its part waits to be hashed, and its upload is in flight.
  pub receive-HashInv :
      (next part : ℕ) (downloads rest uploads uploads' : List ℕ) (s : Hashed)
      → HashInv next downloads uploads s
      → In part downloads
      → ((p : ℕ) → In p rest → In p downloads × (p ≢ part))
      → ((p : ℕ) → In p downloads → (p ≡ part) ⊎ In p rest)
      → ((p : ℕ) → In p uploads → In p uploads')
      → In part uploads'
      → HashInv next rest uploads'
          (record s { parts = insert part (pending_hash (content part)) s.parts })
  receive-HashInv next part downloads rest uploads uploads' s inv at left split grown new =
      let set = λ (p : ℕ). lookup-insert part p (pending_hash (content part)) s.parts in
      record {
        positive = inv.positive;
        entry = λ p x h. ground (arith, set p, inv.entry p x, inv.flying part at, grown p, new);
        flying = λ p h. ground (arith, set p, inv.flying p (left p h).0, (left p h).1);
        found = λ p le lt. elim (Bool-cases (part == p)) [
          | inl eq ↦ inr (pending_hash (content part), ground (arith, set p))
          | inr ne ↦ elim (inv.found p le lt) [
            | inl flies ↦ elim (split p flies) [ inl e ↦ absurd (ground arith) | inr i ↦ inl i ]
            | inr (x, h) ↦ inr (x, ground (arith, set p, h))
          ]
        ];
        hashed = inv.hashed;
        counted = inv.counted;
        reached = inv.reached;
      }

  -- An upload in flight ends.
  pub complete-HashInv :
      (next part : ℕ) (downloads uploads rest : List ℕ) (s : Hashed)
      → HashInv next downloads uploads s
      → ((p : ℕ) → In p uploads → (p ≡ part) ⊎ In p rest)
      → HashInv next downloads rest (record s { parts = mark_range_part_uploaded s.parts part })
  complete-HashInv next part downloads uploads rest s inv split =
      let law = λ (p : ℕ). lookup-mark_range_part_uploaded part p s.parts in
      elim (Option-cases (lookup part s.parts)) [
        | inl e ↦ record {
          positive = inv.positive;
          entry = λ p x h. ground (arith, law p, e, inv.entry p x, split p);
          flying = λ p h. ground (arith, law p, e, inv.flying p h);
          found = λ p le lt. elim (inv.found p le lt) [
            | inl flies ↦ inl flies
            | inr (x, h) ↦ inr (x, ground (arith, law p, e, h))
          ];
          hashed = inv.hashed;
          counted = inv.counted;
          reached = inv.reached;
        }
        | inr (old, e) ↦ record {
          positive = inv.positive;
          entry = λ p x h. ground (arith, law p, e, inv.entry p x, inv.entry part old e, split p);
          flying = λ p h. ground (arith, law p, e, inv.flying p h);
          found = λ p le lt. elim (inv.found p le lt) [
            | inl flies ↦ inl flies
            | inr (x, h) ↦ elim (Bool-cases (part == p)) [
              | inr ne ↦ inr (x, ground (arith, law p, h))
              | inl eq ↦ inr (
                record old { upload_done = true },
                ground (arith, law p, e, inv.entry part old e),
              )
            ]
          ];
          hashed = inv.hashed;
          counted = inv.counted;
          reached = inv.reached;
        }
      ]
