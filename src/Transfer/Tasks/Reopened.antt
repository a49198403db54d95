-- ===== src/Transfer/Tasks/Reopened.antt =====
-- What the update of a failed task does to the work of another worker: persist_completed_task and
-- mark_task_failed of server/src/transfer/queue.rs, one after the other.
use tweet_db.Base.{
  ℕ, ◌<◌, ◌≤◌, ◌≡◌, refl, none, some, true, false, List, [], ◌∷◌, ◌==◌, if◌then◌else◌, String,
  Bool-cases, inl, inr, arith, leb,
}
use tweet_db.Queue.{failed, can_claim, after_failure, completed_row, update_where}
use tweet_db.Transfer.Tasks.{Task, persist_completed_task, mark_task_failed, completed_transfer}

-- What became of a row when the task with an id was completed with an object and failed afterwards: other
-- rows stay, and the one of the task keeps its attempts and the object, and is no longer held by anyone.
-- With attempts left it may be claimed again, and has no time of completion; without, it has failed.
abbrev pub RowOverwritten : ℕ → ℕ → ℕ → ℕ → Task → Task → Type 0
RowOverwritten cutoff id object max old new =
    (old.id == id ≡ false → new ≡ old)
    × (old.id == id ≡ true
        → (new.id ≡ old.id)
          × (new.about.storage_object_id ≡ some object)
          × (new.attempt_count ≡ old.attempt_count)
          × (new.claimed_by ≡ none)
          × (old.attempt_count < max
              → (can_claim cutoff max new ≡ true) × (new.completed_at ≡ none))
          × (max ≤ old.attempt_count → new.status ≡ failed))

abbrev pub Overwritten : ℕ → ℕ → ℕ → ℕ → List Task → List Task → Type 0
Overwritten cutoff id object max [] [] = Unit
Overwritten cutoff id object max (r ∷ rows) (s ∷ later) =
    RowOverwritten cutoff id object max r s × Overwritten cutoff id object max rows later
Overwritten cutoff id object max [] (s ∷ later) = ⊥
Overwritten cutoff id object max (r ∷ rows) [] = ⊥

row_overwritten :
    (now later cutoff id object max : ℕ) (message : String) (r : Task)
    → let c = if r.id == id then completed_transfer now object r else r in
      RowOverwritten cutoff id object max r
        (if c.id == id then after_failure later max message c else c)
unfolding completed_row after_failure completed_transfer can_claim
row_overwritten now later cutoff id object max message r = elim (Bool-cases (r.id == id)) [
  | inr e ↦ rw (e, e) (λ other. refl, λ same. absurd (cc (same)))
  | inl e ↦ elim (Bool-cases (leb max r.attempt_count)) [
    | inl l ↦
        rw (e, e, l)
          (
            λ other. absurd (cc (other)),
            λ same. (refl, refl, refl, refl, λ lt. absurd (ground (arith, lt, l)), λ le. refl),
          )
    | inr l ↦
        rw (e, e, l)
          (
            λ other. absurd (cc (other)),
            λ same.
                (refl, refl, refl, refl, λ lt. (refl, refl), λ le. absurd (ground (arith, le, l))),
          )
  ]
]

-- If a worker's attempt fails after another worker has completed the same task, then the first worker's
-- update takes the completion back: with attempts left, the task, whose object is stored and linked, may
-- be claimed again at any time, and has no time of completion; without attempts left it has failed. Its
-- number of attempts stays, it is held by no worker, and all other tasks are as they were before.
pub mark_task_failed_reopens :
    (now later cutoff id object max : ℕ) (message : String) (rows : List Task)
    → Overwritten cutoff id object max rows
        (mark_task_failed later id message max (persist_completed_task now id object rows))
unfolding persist_completed_task mark_task_failed update_where
mark_task_failed_reopens now later cutoff id object max message [] = tt
mark_task_failed_reopens now later cutoff id object max message (r ∷ rows) = (
  row_overwritten now later cutoff id object max message r,
  mark_task_failed_reopens now later cutoff id object max message rows,
)
