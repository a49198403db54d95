-- ===== src/Transfer/RangeUpload/Progress.antt =====
-- The loop of a range upload makes progress: each future that is ready brings it nearer to its end.
use mathlib.Core.Bool.{false≢true}
use tweet_db.Base.{
  ℕ, ◌+◌, ◌*◌, ◌≤◌, ◌≡◌, refl, sym, ◌∙◌, ◌≢◌, ap, String, inl, inr, Option, none, some, true, false,
  List, [], ◌∷◌, ◌++◌, arith, AppResult, ok, err, length, length-append, Option-cases,
  AppResult-cases,
}
use tweet_db.Transfer.Ranges.{RangeSpec}
use tweet_db.Transfer.Download.{DownloadedPart}
use tweet_db.Transfer.RangeUpload.Flight.{take_at-length}
use tweet_db.Transfer.RangeUpload.{
  Limits, RangeUpload, refill, start_downloads, is_stalled, Event, downloaded, uploaded, take_at,
  receive, complete, turn, Outcome, waiting, after_turn, at_select, run,
}

-- The futures that have still to become ready: a download and an upload for each range that has not
-- arrived, and the uploads in flight.
abbrev pub work_left : RangeUpload → ℕ
work_left s = 2 * (length s.pending_ranges + length s.downloads) + length s.uploads

receive-uploads :
    (part : DownloadedPart) (s t : RangeUpload)
    → receive part s ≡ ok t
    → (t.pending_ranges ≡ s.pending_ranges)
      × (t.downloads ≡ s.downloads)
      × (t.uploads ≡ s.uploads ++ part.part_number ∷ [])
unfolding receive
receive-uploads part s t h = (ground arith, ground arith, ground arith)

complete-work_left :
    (part : ℕ) (tag : String) (s : RangeUpload) (rest : List ℕ)
    → work_left (complete (record { part_number = part; etag = tag }) (record s { uploads = rest }))
      ≡ 2 * (length s.pending_ranges + length s.downloads) + length rest
unfolding complete
complete-work_left part tag s rest = refl

at_select-eq-waiting :
    (continue : RangeUpload → Outcome) (s t : RangeUpload)
    → at_select continue s ≡ waiting t
    → (is_stalled s ≡ false) × (continue s ≡ waiting t)
unfolding at_select
at_select-eq-waiting continue s t h = (ground arith, ground arith)

after_turn-eq-waiting :
    (continue : RangeUpload → Outcome) (o : Option (AppResult RangeUpload)) (t : RangeUpload)
    → after_turn continue o ≡ waiting t
    → (u : RangeUpload) × (o ≡ some (ok u)) × (continue u ≡ waiting t)
after_turn-eq-waiting continue none t h = cc
after_turn-eq-waiting continue (some (err e)) t h = cc
after_turn-eq-waiting continue (some (ok u)) t h = (u, refl, h)

empty_is_stalled :
    (s : RangeUpload) → length s.downloads ≡ 0 → length s.uploads ≡ 0 → is_stalled s ≡ true
unfolding is_stalled
empty_is_stalled s d u = ground arith

module _ (source : RangeSpec → AppResult DownloadedPart) where
  turn-work_left :
      (event : Event) (s t : RangeUpload)
      → turn source event s ≡ some (ok t)
      → work_left s ≡ work_left t + 1
  unfolding turn
  turn-work_left (downloaded i) s t h = elim (Option-cases (take_at i s.downloads)) [
    | inl e ↦ absurd (ground (arith, e))
    | inr ((spec, rest), e) ↦ elim (AppResult-cases (source spec)) [
      | inr (x, q) ↦ absurd (ground (arith, e, q))
      | inl (part, q) ↦
          let got : receive part (record s { downloads = rest }) ≡ ok t = ground (arith, e, q) in
          let new = receive-uploads part (record s { downloads = rest }) t got in
          omega (
            arith,
            ap length new.0,
            ap length new.1,
            ap length new.2,
            length-append s.uploads (part.part_number ∷ []),
            take_at-length i spec s.downloads rest e,
          )
    ]
  ]
  turn-work_left (uploaded i (err x)) s t h =
      absurd (ground (arith, Option-cases (take_at i s.uploads)))
  turn-work_left (uploaded i (ok tag)) s t h = elim (Option-cases (take_at i s.uploads)) [
    | inl e ↦ absurd (ground (arith, e))
    | inr ((part, rest), e) ↦
        let same : complete (record { part_number = part; etag = tag })
              (record s { uploads = rest })
            ≡ t =
          ground (arith, e) in
        omega (
          arith,
          take_at-length i part s.uploads rest e,
          ap work_left same,
          complete-work_left part tag s rest,
        )
  ]

  module _ (limits : Limits) where
    refill-length :
        (parts : ℕ) (downloads pending : List RangeSpec)
        → let r = refill limits downloads parts pending in
          length r.0 + length r.1 ≡ length downloads + length pending
    unfolding refill
    refill-length parts downloads [] = omega arith
    refill-length parts downloads (spec ∷ pending) = ground (
      arith,
      refill-length parts (downloads ++ spec ∷ []) pending,
      length-append downloads (spec ∷ []),
    )

    start_downloads-work_left :
        (s : RangeUpload) → work_left (start_downloads limits s) ≡ work_left s
    unfolding start_downloads
    start_downloads-work_left s =
        omega (arith, refill-length (length s.parts) s.downloads s.pending_ranges)

    -- While the loop waits for a further future, each one that became ready was one of those left.
    run-work_left :
        (events : List Event) (s t : RangeUpload)
        → run source limits events s ≡ waiting t
        → (work_left t + length events ≡ work_left s) × (is_stalled t ≡ false)
    unfolding run
    run-work_left [] s t h =
        let on = at_select-eq-waiting waiting (start_downloads limits s) t h in
        let same : start_downloads limits s ≡ t = ground (arith, on.1) in
        (
          omega (arith, ap work_left same, start_downloads-work_left s),
          ap is_stalled (sym same) ∙ on.0,
        )
    run-work_left (event ∷ events) s t h =
        let begun = start_downloads limits s in
        let on =
          at_select-eq-waiting (λ u. after_turn (run source limits events) (turn source event u))
            begun t h in
        let next =
          after_turn-eq-waiting (run source limits events) (turn source event begun) t on.1 in
        let ih = run-work_left events next.0 t next.2 in
        (
          omega
              (arith, ih.0, start_downloads-work_left s, turn-work_left event begun next.0 next.1),
          ih.1,
        )

    -- Once as many futures have become ready as there were left, the loop waits for no other.
    pub run_ends :
        (events : List Event) (s t : RangeUpload)
        → work_left s ≤ length events
        → run source limits events s ≢ waiting t
    run_ends events s t le h =
        let left = run-work_left events s t h in
        let d : length t.downloads ≡ 0 = omega (arith, left.0) in
        let u : length t.uploads ≡ 0 = omega (arith, left.0) in
        absurd (let x = empty_is_stalled t d u in false≢true (sym left.1 ∙ x))
