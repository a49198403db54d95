-- ===== src/Search/Tasks/Settled.antt =====
-- What a worker's batch leaves behind, and what it does not touch.
pub mod Refresh
use tweet_db.Base.{
  ℕ, ◌≡◌, refl, Bool, true, false, ◌||◌, List, [], ◌∷◌, AppResult, ok, err, AppError, String, All,
  All-of, All-map, All-zip, Bool-cases, AppResult-cases, inl, inr, arith, leb,
}
use tweet_db.Queue.{is_processing, update_where, after_failure, completed_row}
use tweet_db.Queue.Attempts.{completed_row-ended, after_failure-ended}
use tweet_db.Queue.Claims.{update_where-All}
use tweet_db.Search.Tasks.{
  Task, ClaimedIndexTask, holds, holds_any, mark_tasks_completed, mark_task_completed,
  mark_task_failed, truncate_error_message, count_tasks_by_kind, after_index, process_single_task,
  process_tasks_individually, after_counts, process_task_batch, TaskKindCounts,
}

holds-is_processing :
    (t : ClaimedIndexTask) (r : Task) → holds t r ≡ true → is_processing r.status ≡ true
unfolding holds
holds-is_processing t r h = ground arith

holds_any-is_processing :
    (tasks : List ClaimedIndexTask) (r : Task)
    → holds_any tasks r ≡ true
    → is_processing r.status ≡ true
unfolding holds_any
holds_any-is_processing [] r h = absurd (cc h)
holds_any-is_processing (t ∷ tasks) r h = elim (Bool-cases (holds t r)) [
  | inl e ↦ holds-is_processing t r e
  | inr e ↦ holds_any-is_processing tasks r (ground (arith))
]

-- A property that the two updates keep on the rows that are being processed.
pub record Kept (P : Task → Type 0) (now max : ℕ) : Type 0 where
  pub completes : (r : Task) → is_processing r.status ≡ true → P r → P (completed_row now r)
  pub fails :
      (message : String) (r : Task)
      → is_processing r.status ≡ true
      → P r
      → P (after_failure now max message r)

update_where-keeps :
    (P : Task → Type 0) (test : Task → Bool) (change : Task → Task) (rows : List Task)
    → ((r : Task) → test r ≡ true → P r → P (change r))
    → All P rows
    → All P (update_where test change rows)
update_where-keeps P test change rows keep all =
    update_where-All P test change rows (All-map _ (λ r p. (λ t. keep r t p, λ t. p)) rows all)

mark_tasks_completed-keeps :
    (P : Task → Type 0) (now max : ℕ) (tasks : List ClaimedIndexTask) (rows : List Task)
    → Kept P now max
    → All P rows
    → All P (mark_tasks_completed now tasks rows).0
unfolding mark_tasks_completed
mark_tasks_completed-keeps P now max tasks rows kept all =
    update_where-keeps P (holds_any tasks) (completed_row now) rows
      (λ r t p. kept.completes r (holds_any-is_processing tasks r t) p) all

neither : (a b : Bool) → a ≡ false → b ≡ false → a || b ≡ false
neither a b h k = ground arith

ended-holds : (t : ClaimedIndexTask) (r : Task) → is_processing r.status ≡ false → holds t r ≡ false
unfolding holds
ended-holds t r h = ground arith

ended-holds_any :
    (tasks : List ClaimedIndexTask) (r : Task)
    → is_processing r.status ≡ false
    → holds_any tasks r ≡ false
unfolding holds_any
ended-holds_any [] r h = refl
ended-holds_any (t ∷ tasks) r h = rw (ended-holds t r h, ended-holds_any tasks r h) refl

module _ (to_string : AppError → String)
    (index_task : ClaimedIndexTask → AppResult (Unit {0})) where
  after_index-keeps :
      (P : Task → Type 0) (now max : ℕ) (t : ClaimedIndexTask) (answer : AppResult (Unit {0}))
      → (rows : List Task) → Kept P now max
      → All P rows
      → All P (after_index to_string index_task now max t answer rows)
  unfolding after_index mark_task_completed mark_task_failed
  after_index-keeps P now max t (ok _) rows kept all =
      mark_tasks_completed-keeps P now max (t ∷ []) rows kept all
  after_index-keeps P now max t (err e) rows kept all =
      update_where-keeps P (holds t) (after_failure now max (truncate_error_message (to_string e)))
        rows (λ r h p. kept.fails _ r (holds-is_processing t r h) p) all

  individually-keeps :
      (P : Task → Type 0) (now max : ℕ) (tasks : List ClaimedIndexTask) (rows : List Task)
      → Kept P now max
      → All P rows
      → All P (process_tasks_individually to_string index_task now max tasks rows)
  unfolding process_tasks_individually process_single_task
  individually-keeps P now max [] rows kept all = all
  individually-keeps P now max (t ∷ tasks) rows kept all =
      individually-keeps P now max tasks _ kept
        (after_index-keeps P now max t (index_task t) rows kept all)

  after_counts-keeps :
      (P : Task → Type 0) (now max : ℕ) (tasks : List ClaimedIndexTask)
      → (counts : AppResult TaskKindCounts) (answer : AppResult (Unit {0})) (rows : List Task)
      → Kept P now max
      → All P rows
      → All P (after_counts to_string index_task now max tasks counts answer rows)
  unfolding after_counts
  after_counts-keeps P now max tasks (ok c) (ok a) rows kept all =
      mark_tasks_completed-keeps P now max tasks rows kept all
  after_counts-keeps P now max tasks (ok c) (err e) rows kept all =
      individually-keeps P now max tasks rows kept all
  after_counts-keeps P now max tasks (err c) answer rows kept all =
      individually-keeps P now max tasks rows kept all

  pub batch-keeps :
      (P : Task → Type 0) (now max : ℕ) (answer : AppResult (Unit {0}))
      (tasks : List ClaimedIndexTask)
      → (rows : List Task) → Kept P now max
      → All P rows
      → All P (process_task_batch to_string index_task now max answer tasks rows)
  unfolding process_task_batch
  batch-keeps P now max answer tasks rows kept all =
      after_counts-keeps P now max tasks (count_tasks_by_kind tasks) answer rows kept all

  holds-Kept : (t : ClaimedIndexTask) (now max : ℕ) → Kept (λ r. holds t r ≡ false) now max
  holds-Kept t now max = record {
    completes = λ r p h. ended-holds t (completed_row now r) (completed_row-ended now r);
    fails = λ message r p h.
        ended-holds t (after_failure now max message r) (after_failure-ended now max message r);
  }

  after_index-settles :
      (now max : ℕ) (t : ClaimedIndexTask) (answer : AppResult (Unit {0})) (rows : List Task)
      → All (λ r. holds t r ≡ false) (after_index to_string index_task now max t answer rows)
  unfolding after_index mark_task_completed mark_tasks_completed mark_task_failed holds_any
  after_index-settles now max t (ok _) rows =
      update_where-All _ (holds_any (t ∷ [])) (completed_row now) rows (
        All-of _
          (λ r. (
            λ h. ended-holds t (completed_row now r) (completed_row-ended now r),
            λ h. ground arith,
          ))
          rows)
  after_index-settles now max t (err e) rows =
      update_where-All _ (holds t) (after_failure now max (truncate_error_message (to_string e)))
        rows
        (All-of _
          (λ r. (
            λ h. ended-holds t (after_failure now max _ r) (after_failure-ended now max _ r),
            λ h. h,
          ))
          rows)

  individually-settles :
      (now max : ℕ) (tasks : List ClaimedIndexTask) (rows : List Task)
      → All
          (λ r. holds_any tasks r ≡ false)
          (process_tasks_individually to_string index_task now max tasks rows)
  unfolding process_tasks_individually process_single_task holds_any
  individually-settles now max [] rows = All-of _ (λ r. refl) rows
  individually-settles now max (t ∷ tasks) rows =
      let next = after_index to_string index_task now max t (index_task t) rows in
      All-zip _ (λ r h k. neither (holds t r) (holds_any tasks r) h k)
        (process_tasks_individually to_string index_task now max tasks next)
        (individually-keeps (λ r. holds t r ≡ false) now max tasks next (holds-Kept t now max)
          (after_index-settles now max t (index_task t) rows))
        (individually-settles now max tasks next)

  after_counts-settles :
      (now max : ℕ) (tasks : List ClaimedIndexTask)
      → (counts : AppResult TaskKindCounts) (answer : AppResult (Unit {0})) (rows : List Task)
      → All
          (λ r. holds_any tasks r ≡ false)
          (after_counts to_string index_task now max tasks counts answer rows)
  unfolding after_counts mark_tasks_completed
  after_counts-settles now max tasks (ok c) (ok a) rows =
      update_where-All _ (holds_any tasks) (completed_row now) rows (
        All-of _
          (λ r.
            (λ h. ended-holds_any tasks (completed_row now r) (completed_row-ended now r), λ h. h))
          rows)
  after_counts-settles now max tasks (ok c) (err e) rows = individually-settles now max tasks rows
  after_counts-settles now max tasks (err c) answer rows = individually-settles now max tasks rows

  -- However the index answers for a batch and for its single tasks, no row is left behind that a task of
  -- the batch still claims: each is completed, failed or back in the queue, or another claim's.
  pub process_task_batch_settles :
      (now max : ℕ) (answer : AppResult (Unit {0})) (tasks : List ClaimedIndexTask)
      (rows : List Task)
      → All
          (λ r. holds_any tasks r ≡ false)
          (process_task_batch to_string index_task now max answer tasks rows)
  unfolding process_task_batch
  process_task_batch_settles now max answer tasks rows =
      after_counts-settles now max tasks (count_tasks_by_kind tasks) answer rows
