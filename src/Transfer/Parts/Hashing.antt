-- ===== src/Transfer/Parts/Hashing.antt =====
-- The hashing loop of range.rs ends by its `break`.
use tweet_db.Base.{
  ℕ, zero, suc, ◌+◌, ◌≤◌, ◌<◌, ◌≡◌, refl, inl, inr, Option, none, some, true, [], ◌∷◌, arith,
  if◌then◌else◌, AppResult, ok, length, Option-cases, >>=-eq-ok, ◌==◌,
}
use tweet_db.Base.Dict.{lookup, insert, remove, lookup-insert, lookup-remove}
use tweet_db.Transfer.Download.{Bytes}
use tweet_db.Transfer.Parts.{
  ActivePartState, Parts, Hashed, hash_part, bytes_of, ready, next_round, hash_loop,
  hash_ready_range_parts, mark_range_part_uploaded,
}

-- What a finished upload leaves of an entry.
abbrev pub marked : Option ActivePartState → Option ActivePartState
marked none = none
marked (some state) = elim state.bytes [
  | none ↦ none
  | some bytes ↦ some (record state { upload_done = true })
]

pub lookup-mark_range_part_uploaded :
    (part p : ℕ) (parts : Parts)
    → lookup p (mark_range_part_uploaded parts part)
      ≡ (if part == p then marked (lookup part parts) else lookup p parts)
unfolding mark_range_part_uploaded
lookup-mark_range_part_uploaded part p parts = elim (Option-cases (lookup part parts)) [
  | inl e ↦ ground (arith, e)
  | inr (state, e) ↦
      let updated = insert part (record state { upload_done = true }) parts in
      ground (
        arith,
        e,
        lookup-insert part p (record state { upload_done = true }) parts,
        lookup-remove part p updated,
      )
]

-- Marking an upload as done does not make another part ready to be hashed.
pub mark_range_part_uploaded-settled :
    (part : ℕ) (s : Hashed)
    → ready s ≡ none
    → ready (record s { parts = mark_range_part_uploaded s.parts part }) ≡ none
unfolding ready
mark_range_part_uploaded-settled part s h = elim (Option-cases (lookup part s.parts)) [
  | inl e ↦ ground (arith, e, lookup-mark_range_part_uploaded part s.next_hash_part s.parts)
  | inr (old, e) ↦ ground (arith, e, lookup-mark_range_part_uploaded part s.next_hash_part s.parts)
]

-- The number of entries whose bytes wait to be hashed.
abbrev weight : ActivePartState → ℕ
weight state = elim state.bytes [ none ↦ 0 | some bytes ↦ 1 ]

waiting : Parts → ℕ
waiting [] = 0
waiting ((p, state) ∷ parts) = weight state + waiting parts

waiting-le : (parts : Parts) → waiting parts ≤ length parts
unfolding waiting
waiting-le [] = omega arith
waiting-le ((p, state) ∷ parts) = ground (arith, waiting-le parts)

waiting-remove : (k : ℕ) (parts : Parts) → waiting (remove k parts) ≤ waiting parts
unfolding waiting remove
waiting-remove k [] = omega arith
waiting-remove k ((p, state) ∷ parts) = ground (arith, waiting-remove k parts)

waiting-insert :
    (k : ℕ) (old new : ActivePartState) (parts : Parts)
    → lookup k parts ≡ some old
    → waiting (insert k new parts) + weight old ≡ waiting parts + weight new
unfolding waiting insert lookup
waiting-insert k old new [] h = cc
waiting-insert k old new ((p, state) ∷ parts) h = ground (arith, waiting-insert k old new parts)

ready_lookup :
    (o : Option ActivePartState) (state : ActivePartState) (bytes : Bytes)
    → bytes_of o ≡ some (state, bytes)
    → (o ≡ some state) × (state.bytes ≡ some bytes)
ready_lookup none state bytes h = cc
ready_lookup (some x) state bytes h = ground arith

pub ready-eq-some :
    (s : Hashed) (state : ActivePartState) (bytes : Bytes)
    → ready s ≡ some (state, bytes)
    → (lookup s.next_hash_part s.parts ≡ some state) × (state.bytes ≡ some bytes)
unfolding ready
ready-eq-some s state bytes h = ready_lookup (lookup s.next_hash_part s.parts) state bytes h

hash_part-waiting :
    (s t : Hashed) (state : ActivePartState) (bytes : Bytes)
    → ready s ≡ some (state, bytes)
    → hash_part state bytes s ≡ ok t
    → waiting t.parts < waiting s.parts
unfolding hash_part
hash_part-waiting s t state bytes h e =
    let found = ready-eq-some s state bytes h in
    let taken : ActivePartState = record state { bytes = none } in
    ground (
      arith,
      found.0,
      found.1,
      waiting-insert s.next_hash_part state taken s.parts found.0,
      waiting-remove s.next_hash_part (insert s.next_hash_part taken s.parts),
    )

waiting-lookup :
    (k : ℕ) (state : ActivePartState) (parts : Parts)
    → lookup k parts ≡ some state
    → weight state ≤ waiting parts
unfolding lookup waiting
waiting-lookup k state [] h = cc
waiting-lookup k state ((p, x) ∷ parts) h = ground (arith, waiting-lookup k state parts)

not_ready : (s : Hashed) → waiting s.parts ≤ 0 → ready s ≡ none
not_ready s w = elim (Option-cases (ready s)) [
  | inl e ↦ e
  | inr ((state, bytes), e) ↦
      let found = ready-eq-some s state bytes e in
      absurd (ground (arith, found.1, waiting-lookup s.next_hash_part state s.parts found.0))
]

module _ (P : Hashed → Type 0)
    (keep : (s t : Hashed) (state : ActivePartState) (bytes : Bytes)
      → P s
      → ready s ≡ some (state, bytes)
      → hash_part state bytes s ≡ ok t
      → P t) where
  next_round_keeps :
      (continue : Hashed → AppResult Hashed) (s t : Hashed) (o : Option (ActivePartState × Bytes))
      → ((u : Hashed)
          → waiting u.parts < waiting s.parts
          → P u
          → continue u ≡ ok t
          → P t × (ready t ≡ none))
      → ready s ≡ o
      → P s
      → next_round continue s o ≡ ok t
      → P t × (ready t ≡ none)
  next_round_keeps continue s t none ih r p h = ground arith
  next_round_keeps continue s t (some (state, bytes)) ih r p h =
      let step = >>=-eq-ok (hash_part state bytes s) continue h in
      ih step.0 (hash_part-waiting s step.0 state bytes r step.1)
        (keep s step.0 state bytes p r step.1) step.2

  hash_loop_keeps :
      (fuel : ℕ) (s t : Hashed)
      → waiting s.parts ≤ fuel
      → P s
      → hash_loop fuel s ≡ ok t
      → P t × (ready t ≡ none)
  unfolding hash_loop
  hash_loop_keeps zero s t w p h =
      let none_left = not_ready s (omega arith) in ground (arith, none_left)
  hash_loop_keeps (suc fuel) s t w p h =
      next_round_keeps (hash_loop fuel) s t (ready s)
        (λ u lt pu hu. hash_loop_keeps fuel u t (omega arith) pu hu) refl p h

  -- What every round keeps, the loop keeps, and it ends where no bytes wait at the next number.
  pub hash_ready_range_parts_keeps :
      (s t : Hashed) → P s → hash_ready_range_parts s ≡ ok t → P t × (ready t ≡ none)
  unfolding hash_ready_range_parts
  hash_ready_range_parts_keeps s t p h =
      hash_loop_keeps (length s.parts) s t (waiting-le s.parts) p h

-- Whatever the loop is given, if it returns without an overflow error, it has gone on as far as it can:
-- the part with the next number is absent, or its bytes are hashed.
pub hash_ready_range_parts_settles :
    (s t : Hashed) → hash_ready_range_parts s ≡ ok t → ready t ≡ none
hash_ready_range_parts_settles s t h =
    (hash_ready_range_parts_keeps (λ _. Unit) (λ a b state bytes u r e. tt) s t tt h).1
