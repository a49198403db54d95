-- ===== src/Transfer/RangeUpload/Completion.antt =====
-- How the loop of a range upload ends: never stalled, and with everything hashed in order.
use mathlib.Core.Path.{subst}
use mathlib.Core.List.{Perm}
use tweet_db.Base.{
  ℕ, ◌+◌, ◌-◌, ◌≤◌, ◌<◌, ◌≡◌, refl, ap, ◌∙◌, inl, inr, Option, none, some, true, false, ◌&&◌, List,
  [], ◌∷◌, arith, ltb, AppResult, ok, err, length, Bool-cases, Option-cases, append-nil,
}
use tweet_db.Base.Dict.{lookup}
use tweet_db.Transfer.Ranges.{RangeSpec}
use tweet_db.Transfer.Download.{Bytes, DownloadedPart}
use tweet_db.Transfer.Parts.{Parts, ready}
use tweet_db.Transfer.RangeUpload.Flight.{In, numbers}
use tweet_db.Transfer.RangeUpload.Hashes.{joined}
use tweet_db.Transfer.RangeUpload.Invariant.{
  Inv, Queued, Refilled, start_downloads-Inv, turn-Inv, part_numbers,
}
use tweet_db.Transfer.RangeUpload.{
  Limits, RangeUpload, is_empty, is_finished, is_stalled, Event, turn, Outcome, finished, failed,
  stalled, waiting, absent, after_turn, at_select, run,
}

is_empty→[] {ℓ} : {A : Type ℓ} (xs : List A) → is_empty xs ≡ true → xs ≡ []
is_empty→[] [] h = refl
is_empty→[] (x ∷ xs) h = cc

-- A map in which no key is found has no entry.
no_entries : (parts : Parts) → ((p : ℕ) → lookup p parts ≡ none) → parts ≡ []
unfolding lookup
no_entries [] h = refl
no_entries ((p, state) ∷ parts) h = absurd (ground (arith, h p))

module _ (content : ℕ → Bytes) (source : RangeSpec → AppResult DownloadedPart) (total : ℕ)
    (all : List ℕ) where
  module _ (next : ℕ) (s : RangeUpload) (inv : Inv content source total all next s) where
    -- With nothing in flight, every entry waits to be hashed, and the next part is among them.
    nothing_waits : s.downloads ≡ [] → s.uploads ≡ [] → (p : ℕ) → lookup p s.parts ≡ none
    unfolding ready
    nothing_waits d u p = elim (Option-cases (lookup p s.parts)) [
      | inl e ↦ e
      | inr (state, e) ↦
          let turn_of : ℕ = s.next_hash_part in
          let entry = inv.hash_inv.entry p state e in
          let none_uploads : ¬ (In p s.uploads) = λ i. subst (In p) u i in
          let low : turn_of < next = ground (arith, entry, none_uploads) in
          elim (inv.hash_inv.found turn_of (omega arith) low) [
            | inl flies ↦ absurd (subst (λ ds. In turn_of (numbers ds)) d flies)
            | inr (due, q) ↦
                absurd (ground (arith, q, inv.hash_inv.entry turn_of due q, inv.settled))
          ]
    ]

    idle_is_finished :
        (limits : Limits)
        → 1 ≤ limits.download_parallelism
        → 1 ≤ limits.max_in_flight_parts
        → Refilled limits s
        → is_stalled s ≡ true
        → is_finished s ≡ true
    unfolding is_stalled is_finished
    idle_is_finished limits dp mx full h =
        let d : s.downloads ≡ [] = is_empty→[] s.downloads (ground arith) in
        let u : s.uploads ≡ [] = is_empty→[] s.uploads (ground arith) in
        let e : s.parts ≡ [] = no_entries s.parts (nothing_waits d u) in
        elim full [
          | inl q ↦ rw (q, d, u, e)
          | inr q ↦
              let room : (ltb 0 limits.download_parallelism
                    && ltb (0 + 0) limits.max_in_flight_parts)
                  ≡ false =
                rw (d, e) at q in
              absurd (ground (arith, room))
        ]

  -- What the loop leaves behind it.
  pub record Uploaded (s : RangeUpload) : Type 0 where
    pub hashed : s.hashed ≡ joined content (total - 1)
    pub counted : s.content_length ≡ length s.hashed
    pub every_part : Perm (part_numbers s.completed_parts) all

  finished-Uploaded :
      (next : ℕ) (s : RangeUpload)
      → Inv content source total all next s
      → is_finished s ≡ true
      → Uploaded s
  unfolding is_finished lookup
  finished-Uploaded next s inv h =
      let q : s.pending_ranges ≡ [] = is_empty→[] s.pending_ranges (ground arith) in
      let d : s.downloads ≡ [] = is_empty→[] s.downloads (ground arith) in
      let u : s.uploads ≡ [] = is_empty→[] s.uploads (ground arith) in
      let e : s.parts ≡ [] = is_empty→[] s.parts (ground arith) in
      let end : next ≡ total = subst (Queued content source total all next) q inv.queued in
      let turn_of : ℕ = s.next_hash_part in
      let last : turn_of ≡ total = elim (Bool-cases (ltb turn_of next)) [
        | inr over ↦ ground (arith, inv.hash_inv.reached)
        | inl low ↦ elim (inv.hash_inv.found turn_of (omega arith) (ground arith)) [
          | inl flies ↦ absurd (subst (λ ds. In turn_of (numbers ds)) d flies)
          | inr (due, m) ↦ absurd (ground (arith, ap (lookup turn_of) e, m))
        ]
      ] in
      record {
        hashed = inv.hash_inv.hashed ∙ ap (λ n. joined content (n - 1)) last;
        counted = inv.hash_inv.counted;
        every_part = subst (λ xs. Perm xs all) (rw (u, d, q, append-nil)) inv.accounted;
      }

  module _ (limits : Limits) (dp : 1 ≤ limits.download_parallelism)
      (mx : 1 ≤ limits.max_in_flight_parts) where
    -- What is claimed of an outcome.
    abbrev pub Good : Outcome → Type 0
    Good (finished s) = Uploaded s
    Good (failed e) = Unit
    Good stalled = ⊥
    Good (waiting s) = Unit
    Good absent = Unit

    at_select-Good :
        (next : ℕ) (continue : RangeUpload → Outcome) (s : RangeUpload)
        → Inv content source total all next s
        → Refilled limits s
        → Good (continue s)
        → Good (at_select continue s)
    unfolding at_select
    at_select-Good next continue s inv full good = elim (Bool-cases (is_finished s)) [
      | inl f ↦ rw f (finished-Uploaded next s inv f)
      | inr nf ↦ elim (Bool-cases (is_stalled s)) [
        | inl st ↦ absurd (let fin = idle_is_finished next s inv limits dp mx full st in cc)
        | inr ns ↦ rw (nf, ns) good
      ]
    ]

    after_turn-Good :
        (next : ℕ) (continue : RangeUpload → Outcome) (event : Event) (s : RangeUpload)
        (o : Option (AppResult RangeUpload))
        → turn source event s ≡ o
        → Inv content source total all next s
        → ((t : RangeUpload) → Inv content source total all next t → Good (continue t))
        → Good (after_turn continue o)
    after_turn-Good next continue event s none e inv h = tt
    after_turn-Good next continue event s (some (err x)) e inv h = tt
    after_turn-Good next continue event s (some (ok t)) e inv h =
        h t (turn-Inv content source total all event next s t inv e)

    pub run-Good :
        (events : List Event) (next : ℕ) (s : RangeUpload)
        → Inv content source total all next s
        → Good (run source limits events s)
    unfolding run
    run-Good [] next s inv =
        let filled = start_downloads-Inv content source total all limits next s inv in
        at_select-Good filled.0 waiting _ filled.1 filled.2 tt
    run-Good (event ∷ events) next s inv =
        let filled = start_downloads-Inv content source total all limits next s inv in
        at_select-Good filled.0 _ _ filled.1 filled.2 (
          after_turn-Good filled.0 (run source limits events) event _ _ refl filled.1
            (λ t. run-Good events filled.0 t))
