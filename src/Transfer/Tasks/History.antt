-- ===== src/Transfer/Tasks/History.antt =====
-- What every table of transfers keeps.
use tweet_db.Base.{
  ℕ, ◌+◌, ◌<◌, ◌≡◌, refl, false, List, [], ◌∷◌, ◌++◌, ◌==◌, String, ok, All, All-of, All-map,
  All-append, Bool-cases, Option-cases, inl, inr, arith,
}
use mathlib.Core.Path.{subst}
use tweet_db.Queue.{Status, update_where, expire_stale_tasks, after_failure, completed_row}
use tweet_db.Queue.Attempts.{
  Healthy, Unique, WellFormed, update_where-Healthy, claim-Healthy, expire_stale_tasks-Healthy,
  completed_row-WellFormed, after_failure-WellFormed, Healthy-suc, bounded,
}
use tweet_db.Transfer.Tasks.{
  EnqueueTask, Resource, Task, distinct, resolve_source, is_queued, new_task, insert_task,
  insert_tasks, enqueue_tasks, claim_next_task, persist_completed_task, mark_task_failed,
  completed_transfer,
}
use tweet_db.Transfer.Transitions.{
  AuditEvent, transition_locked_task, transition_row, select_by_id, is_allowed, cancel_task,
  retry_task, release_task, retried, released, canceled_by_admin,
}

-- The ids of new tasks are random: none is in use.
abbrev pub Fresh : List EnqueueTask → List Task → Type 0
Fresh [] rows = Unit {0}
Fresh (t ∷ tasks) rows =
    All (λ r. (r.id == t.id) ≡ false) rows
    × All (λ u. (t.id == u.id) ≡ false) tasks
    × Fresh tasks rows

-- One statement on the table, of any worker with any message, time and claim, or of an administrator.
-- The indices before and after it count the transitions that make a task pending again.
pub data Step (max : ℕ) : ℕ → List Task → ℕ → List Task → Type 0 where
  enqueue :
      {k : ℕ} {rows : List Task} (now : ℕ) (resources : List Resource) (tasks : List EnqueueTask)
      → Fresh (distinct tasks) rows
      → Step max k rows k (enqueue_tasks now resources tasks rows).0
  claim_next :
      {k : ℕ} {rows : List Task} (now cutoff : ℕ) (worker : String)
      → Step max k rows k (claim_next_task now cutoff max worker rows).0
  expire :
      {k : ℕ} {rows : List Task} (now cutoff : ℕ)
      → Step max k rows k (expire_stale_tasks now cutoff max rows)
  complete :
      {k : ℕ} {rows : List Task} (now id object : ℕ)
      → Step max k rows k (persist_completed_task now id object rows)
  fail :
      {k : ℕ} {rows : List Task} (now id : ℕ) (message : String)
      → Step max k rows k (mark_task_failed now id message max rows)
  cancel :
      {k : ℕ} {rows rows2 : List Task} {event : AuditEvent} (now id : ℕ)
      → cancel_task now id rows ≡ ok (rows2, event)
      → Step max k rows k rows2
  retry :
      {k : ℕ} {rows rows2 : List Task} {event : AuditEvent} (id : ℕ)
      → retry_task id rows ≡ ok (rows2, event)
      → Step max k rows (k + 1) rows2
  release :
      {k : ℕ} {rows rows2 : List Task} {event : AuditEvent} (id : ℕ)
      → release_task id rows ≡ ok (rows2, event)
      → Step max k rows (k + 1) rows2

pub data Reachable (max : ℕ) : ℕ → List Task → Type 0 where
  empty : Reachable max 0 []
  after :
      {k l : ℕ} {rows rows2 : List Task}
      → Reachable max k rows
      → Step max k rows l rows2
      → Reachable max l rows2

append-Unique :
    (r : Task) (rows : List Task)
    → Unique rows
    → All (λ x. (x.id == r.id) ≡ false) rows
    → Unique (rows ++ (r ∷ []))
append-Unique r [] u all = (tt, tt)
append-Unique r (x ∷ rows) u all =
    (All-append _ rows (r ∷ []) u.0 (ground (arith, all.0), tt), append-Unique r rows u.1 all.1)

Fresh-append :
    (tasks : List EnqueueTask) (rows : List Task) (r : Task)
    → All (λ u. (r.id == u.id) ≡ false) tasks
    → Fresh tasks rows
    → Fresh tasks (rows ++ (r ∷ []))
Fresh-append [] rows r all f = tt
Fresh-append (t ∷ tasks) rows r all (fresh, distinct_ids, rest) = (
  All-append _ rows (r ∷ []) fresh (all.0, tt),
  distinct_ids,
  Fresh-append tasks rows r all.1 rest,
)

insert_tasks-Healthy :
    (max now : ℕ) (resources : List Resource) (tasks : List EnqueueTask) (rows : List Task)
    → 0 < max
    → Fresh tasks rows
    → Healthy max rows
    → Healthy max (insert_tasks now resources tasks rows)
unfolding insert_tasks insert_task new_task
insert_tasks-Healthy max now resources [] rows pos f h = h
insert_tasks-Healthy max now resources (t ∷ tasks) rows pos (fresh, ids, rest) h =
    elim (Option-cases (resolve_source resources t)) [
      | inl e ↦ rw e (insert_tasks-Healthy max now resources tasks rows pos rest h)
      | inr (at, e) ↦ elim (Bool-cases (is_queued t.media_id at rows)) [
        | inl q ↦ rw (e, q) (insert_tasks-Healthy max now resources tasks rows pos rest h)
        | inr q ↦
            rw (e, q)
              (insert_tasks-Healthy max now resources tasks (rows ++ (new_task now t at ∷ [])) pos
                (Fresh-append tasks rows (new_task now t at) ids rest)
                (
                  append-Unique (new_task now t at) rows h.0 fresh,
                  All-append _ rows (new_task now t at ∷ []) h.1 ((pos, refl, refl, refl), tt),
                ))
      ]
    ]

transition_locked_task-eq-ok :
    (id : ℕ) (allowed : List Status) (event_type : String) (update : Task → Task)
    → (rows rows2 : List Task) (event : AuditEvent)
    → transition_locked_task allowed event_type update id rows ≡ ok (rows2, event)
    → update_where (λ r. r.id == id) update rows ≡ rows2
unfolding transition_locked_task transition_row
transition_locked_task-eq-ok id allowed event_type update rows rows2 event =
    elim (Option-cases (select_by_id id rows)) [
      | inl o ↦ rw o (λ e. absurd (cc e))
      | inr (row, o) ↦ elim (Bool-cases (is_allowed allowed row.status)) [
        | inl b ↦ rw (o, b) (λ e. cc e)
        | inr b ↦ rw (o, b) (λ e. absurd (cc e))
      ]
    ]

-- Making a task pending raises the bound.
again-Healthy :
    (m id : ℕ) (update : Task → Task) (rows : List Task)
    → ((r : Task) → (update r).id ≡ r.id)
    → ((r : Task) → r.attempt_count < m + 1 → WellFormed (m + 1) (update r))
    → Healthy m rows
    → Healthy (m + 1) (update_where (λ r. r.id == id) update rows)
again-Healthy m id update rows same again h =
    ((update_where-Healthy (m + 1) (λ r. r.id == id) update rows same
      (All-map _ (λ r w t up. again r (omega (arith, bounded m r w))) rows h.1)
      (Healthy-suc m rows h)))

Step-Healthy :
    {max k l : ℕ} {a b : List Task}
    → 0 < max
    → Step max k a l b
    → Healthy (max + k) a
    → Healthy (max + l) b
unfolding enqueue_tasks claim_next_task persist_completed_task mark_task_failed completed_row
    after_failure completed_transfer cancel_task retry_task release_task canceled_by_admin retried
    released
Step-Healthy {max} pos (enqueue {k} {rows} now resources tasks fresh) h =
    insert_tasks-Healthy (max + k) now resources (distinct tasks) rows (omega arith) fresh h
Step-Healthy {max} pos (claim_next {k} {rows} now cutoff worker) h =
    claim-Healthy now cutoff max (max + k) worker 1 rows (omega arith) h
Step-Healthy {max} pos (expire {k} {rows} now cutoff) h =
    expire_stale_tasks-Healthy now cutoff max (max + k) rows h
Step-Healthy {max} pos (complete {k} {rows} now id object) h =
    update_where-Healthy (max + k) (λ r. r.id == id) _ rows (λ r. refl)
      (All-of _ (λ r t w. completed_row-WellFormed now (max + k) r w) rows) h
Step-Healthy {max} pos (fail {k} {rows} now id message) h =
    update_where-Healthy (max + k) (λ r. r.id == id) (after_failure now max message) rows
      (λ r. refl)
      (All-of _ (λ r t w. after_failure-WellFormed now max (max + k) message r (omega arith) w)
        rows)
      h
Step-Healthy {max} pos (cancel {k} {rows} {rows2} {event} now id e) h =
    subst (Healthy (max + k)) (transition_locked_task-eq-ok id _ _ _ rows rows2 event e) (
      update_where-Healthy (max + k) (λ r. r.id == id) (canceled_by_admin now) rows (λ r. refl)
        (All-of _ (λ r t w. (bounded (max + k) r w, refl, refl, refl)) rows) h)
Step-Healthy {max} pos (retry {k} {rows} {rows2} {event} id e) h =
    subst (λ m. Healthy m rows2) (omega arith)
      (subst (Healthy (max + k + 1)) (transition_locked_task-eq-ok id _ _ _ rows rows2 event e)
        (again-Healthy (max + k) id retried rows (λ r. refl) (λ r lt. (lt, refl, refl, refl)) h))
Step-Healthy {max} pos (release {k} {rows} {rows2} {event} id e) h =
    subst (λ m. Healthy m rows2) (omega arith)
      (subst (Healthy (max + k + 1)) (transition_locked_task-eq-ok id _ _ _ rows rows2 event e)
        (again-Healthy (max + k) id released rows (λ r. refl) (λ r lt. (lt, refl, refl, refl)) h))

-- If a positive number of attempts is allowed and new tasks get unused ids, every table that
-- statements of the queue and of an administrator lead to from the empty one, with k of them a
-- retry or a release, has unique ids, and every row of it has made at most k attempts more than
-- allowed, is claimed with a worker and a time exactly while it is processing, and has a time of
-- completion exactly when it has ended.
pub Reachable-Healthy :
    (max k : ℕ) (rows : List Task) → 0 < max → Reachable max k rows → Healthy (max + k) rows
Reachable-Healthy max k rows pos empty = (tt, tt)
Reachable-Healthy max k rows pos (after {k = j} {rows = a} reach step) =
    Step-Healthy pos step (Reachable-Healthy max j a pos reach)
