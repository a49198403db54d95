-- ===== src/Transfer/Tasks/Enqueue.antt =====
-- What it means to enqueue tasks that are in the queue.
use tweet_db.Base.{
  ℕ, ◌≡◌, ◌≢◌, refl, Option, none, some, true, List, [], ◌∷◌, ◌++◌, All, All-map, All-image,
  Bool-cases, Option-cases, inl, inr, arith,
}
use tweet_db.Transfer.Tasks.{
  EnqueueTask, Resource, Task, enqueued, distinct, resolve_source, is_queued, new_task, insert_task,
  insert_tasks, status_of, enqueue_tasks,
}

is_queued-append_old :
    (media_id at : ℕ) (rows more : List Task)
    → is_queued media_id at rows ≡ true
    → is_queued media_id at (rows ++ more) ≡ true
unfolding is_queued
is_queued-append_old media_id at [] more h = absurd (cc h)
is_queued-append_old media_id at (r ∷ rows) more h =
    elim (Bool-cases (is_queued media_id at rows)) [
      | inl q ↦ rw (is_queued-append_old media_id at rows more q) (ground arith)
      | inr q ↦ ground arith
    ]

is_queued-append_new :
    (now at : ℕ) (t : EnqueueTask) (rows : List Task)
    → is_queued t.media_id at (rows ++ (new_task now t at ∷ [])) ≡ true
unfolding is_queued new_task
is_queued-append_new now at t [] = ground arith
is_queued-append_new now at t (r ∷ rows) = rw (is_queued-append_new now at t rows) (ground arith)

insert_task-keeps :
    (now media_id at : ℕ) (t : EnqueueTask) (source : Option ℕ) (rows : List Task)
    → is_queued media_id at rows ≡ true
    → is_queued media_id at (insert_task now t source rows) ≡ true
unfolding insert_task
insert_task-keeps now media_id at t none rows h = h
insert_task-keeps now media_id at t (some other) rows h =
    elim (Bool-cases (is_queued t.media_id other rows)) [
      | inl q ↦ rw q h
      | inr q ↦ rw q (is_queued-append_old media_id at rows (new_task now t other ∷ []) h)
    ]

insert_task-adds :
    (now at : ℕ) (t : EnqueueTask) (rows : List Task)
    → is_queued t.media_id at (insert_task now t (some at) rows) ≡ true
unfolding insert_task
insert_task-adds now at t rows = elim (Bool-cases (is_queued t.media_id at rows)) [
  | inl q ↦ rw q q
  | inr q ↦ rw q (is_queued-append_new now at t rows)
]

insert_tasks-keeps :
    (now media_id at : ℕ) (resources : List Resource) (tasks : List EnqueueTask) (rows : List Task)
    → is_queued media_id at rows ≡ true
    → is_queued media_id at (insert_tasks now resources tasks rows) ≡ true
unfolding insert_tasks
insert_tasks-keeps now media_id at resources [] rows h = h
insert_tasks-keeps now media_id at resources (t ∷ tasks) rows h =
    insert_tasks-keeps now media_id at resources tasks
      (insert_task now t (resolve_source resources t) rows)
      (insert_task-keeps now media_id at t (resolve_source resources t) rows h)

-- A task whose source is known is in the table.
abbrev pub IsQueued : List Resource → List Task → EnqueueTask → Type 0
IsQueued resources rows t =
    (at : ℕ) → resolve_source resources t ≡ some at → is_queued t.media_id at rows ≡ true

insert_tasks-IsQueued :
    (now : ℕ) (resources : List Resource) (tasks : List EnqueueTask) (rows : List Task)
    → All (IsQueued resources (insert_tasks now resources tasks rows)) tasks
unfolding insert_tasks
insert_tasks-IsQueued now resources [] rows = tt
insert_tasks-IsQueued now resources (t ∷ tasks) rows = (
  λ at e.
      insert_tasks-keeps now t.media_id at resources tasks
        (insert_task now t (resolve_source resources t) rows)
        (rw e (insert_task-adds now at t rows)),
  insert_tasks-IsQueued now resources tasks (insert_task now t (resolve_source resources t) rows),
)

insert_task-same :
    (now : ℕ) (resources : List Resource) (t : EnqueueTask) (rows : List Task)
    → IsQueued resources rows t
    → insert_task now t (resolve_source resources t) rows ≡ rows
unfolding insert_task
insert_task-same now resources t rows q = elim (Option-cases (resolve_source resources t)) [
  | inl e ↦ rw e refl
  | inr (at, e) ↦ rw (e, q at e) refl
]

insert_tasks-same :
    (now : ℕ) (resources : List Resource) (tasks : List EnqueueTask) (rows : List Task)
    → All (IsQueued resources rows) tasks
    → insert_tasks now resources tasks rows ≡ rows
unfolding insert_tasks
insert_tasks-same now resources [] rows all = refl
insert_tasks-same now resources (t ∷ tasks) rows all =
    rw (insert_task-same now resources t rows all.0)
      (insert_tasks-same now resources tasks rows all.1)

status_of-queued :
    (resources : List Resource) (t : EnqueueTask) (rows : List Task)
    → IsQueued resources rows t
    → status_of (resolve_source resources t) t rows ≢ enqueued
unfolding status_of
status_of-queued resources t rows q = elim (Option-cases (resolve_source resources t)) [
  | inl e ↦ rw e (λ p. cc p)
  | inr (at, e) ↦ rw (e, q at e) (λ p. cc p)
]

-- To enqueue the same tasks again, with the same recorded resources, changes nothing, and reports none
-- of them as enqueued.
pub enqueue_tasks_again :
    (now later : ℕ) (resources : List Resource) (tasks : List EnqueueTask) (rows : List Task)
    → let first = enqueue_tasks now resources tasks rows in
      let second = enqueue_tasks later resources tasks first.0 in
      (second.0 ≡ first.0) × All (λ x. x.1 ≢ enqueued) second.1
unfolding enqueue_tasks
enqueue_tasks_again now later resources tasks rows =
    let table = insert_tasks now resources (distinct tasks) rows in
    (
      insert_tasks-same later resources (distinct tasks) table
          (insert_tasks-IsQueued now resources (distinct tasks) rows),
      All-image _ (λ t. (t, status_of (resolve_source resources t) t table)) (distinct tasks)
          (All-map _ (λ t q. status_of-queued resources t table q) (distinct tasks)
            (insert_tasks-IsQueued now resources (distinct tasks) rows)),
    )
