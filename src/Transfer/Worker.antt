-- ===== src/Transfer/Worker.antt =====
-- One turn of the loop of a transfer worker: server/src/transfer/worker.rs. The transfer of the claimed
-- task, by upload.rs, is the parameter of its answer; times are those at which the statements run.
use tweet_db.Base.{
  ℕ, ◌-◌, ◌≡◌, refl, true, false, List, [], ◌∷◌, ◌==◌, AppResult, ok, err, AppError, String,
  take_chars, length, ◌≤◌, arith, length-map, All, All-of,
}
use tweet_db.Queue.{claimed, is_processing, expire_stale_tasks, after_failure, completed_row}
use tweet_db.Queue.Attempts.{after_failure-ended}
use tweet_db.Queue.Claims.{update_where-All, claim_takes_first}
use tweet_db.Transfer.Tasks.{
  Task, claim_next_task, persist_completed_task, mark_task_failed, completed_transfer,
}

unfoldable pub truncate_error_message : String → ℕ → String
truncate_error_message value max_chars = take_chars max_chars value

module _ (to_string : AppError → String) (transfer : Task → AppResult ℕ) where
  -- process_task and what follows its error; the answer is the stored object's id.
  unfoldable pub process_task : ℕ → ℕ → ℕ → AppResult ℕ → List Task → List Task
  process_task now max_attempts id (ok object) rows = persist_completed_task now id object rows
  process_task now max_attempts id (err e) rows =
      mark_task_failed now id (truncate_error_message (to_string e) 2048) max_attempts rows

  unfoldable pub after_claim : ℕ → ℕ → List Task → List Task → List Task
  after_claim now max_attempts rows [] = rows
  after_claim now max_attempts rows (task ∷ rest) =
      process_task now max_attempts task.id (transfer task) rows

  -- The table before the turn, and the tables after its statements.
  unfoldable pub claimed_in_turn : ℕ → ℕ → ℕ → String → List Task → List Task × List Task
  claimed_in_turn now stale_timeout max_attempts worker rows =
      let cutoff = now - stale_timeout in
      claim_next_task now cutoff max_attempts worker
        (expire_stale_tasks now cutoff max_attempts rows)

  unfoldable pub worker_turn : ℕ → ℕ → ℕ → ℕ → String → List Task → List Task
  worker_turn now later stale_timeout max_attempts worker rows =
      let (table, tasks) = claimed_in_turn now stale_timeout max_attempts worker rows in
      after_claim later max_attempts table tasks

  abbrev pub Ended : ℕ → Task → Type 0
  Ended id r = r.id == id ≡ true → is_processing r.status ≡ false

  process_task-ends :
      (now max id : ℕ) (answer : AppResult ℕ) (rows : List Task)
      → All (Ended id) (process_task now max id answer rows)
  unfolding process_task persist_completed_task mark_task_failed completed_transfer completed_row
  process_task-ends now max id (ok object) rows =
      update_where-All (Ended id) (λ r. r.id == id) (completed_transfer now object) rows
        (All-of _ (λ r. (λ h same. refl, λ h same. absurd (cc (h, same)))) rows)
  process_task-ends now max id (err e) rows =
      update_where-All (Ended id) (λ r. r.id == id) (after_failure now max _) rows
        (All-of _
          (λ r. (λ h same. after_failure-ended now max _ r, λ h same. absurd (cc (h, same)))) rows)

  after_claim-ends :
      (now max : ℕ) (rows tasks : List Task)
      → length tasks ≤ 1
      → All (λ t. All (Ended t.id) (after_claim now max rows tasks)) tasks
  unfolding after_claim
  after_claim-ends now max rows [] h = tt
  after_claim-ends now max rows (task ∷ []) h =
      (process_task-ends now max task.id (transfer task) rows, tt)
  after_claim-ends now max rows (task ∷ t ∷ tasks) h = absurd (omega arith)

  claims_one :
      (now stale_timeout max : ℕ) (worker : String) (rows : List Task)
      → length (claimed_in_turn now stale_timeout max worker rows).1 ≤ 1
  unfolding claimed_in_turn claim_next_task
  claims_one now stale_timeout max worker rows =
      let (taken, left, perm, order, few, rest, e) =
        claim_takes_first now (now - stale_timeout) max worker 1
          (expire_stale_tasks now (now - stale_timeout) max rows) in
      rw e (omega (arith, length-map (claimed now worker) taken, few))

  -- After a turn, whether its transfer succeeded or not, the task that the turn claimed is not left
  -- processing.
  pub worker_turn_ends :
      (now later stale_timeout max : ℕ) (worker : String) (rows : List Task)
      → All
          (λ t. All (Ended t.id) (worker_turn now later stale_timeout max worker rows))
          (claimed_in_turn now stale_timeout max worker rows).1
  unfolding worker_turn
  worker_turn_ends now later stale_timeout max worker rows =
      let (table, tasks) = claimed_in_turn now stale_timeout max worker rows in
      after_claim-ends later max table tasks (claims_one now stale_timeout max worker rows)
