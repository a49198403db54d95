-- ===== src/Transfer/Tasks.antt =====
-- The queue of media transfers: server/src/transfer/queue.rs, and the steps of a worker in
-- server/src/transfer/worker.rs. A recorded resource has the URL that the query computes for it.
pub mod Enqueue
pub mod History
pub mod Reopened
use tweet_db.Base.{
  ℕ, ◌+◌, Option, none, some, Bool, true, false, ◌&&◌, ◌||◌, not, List, [], ◌∷◌, ◌++◌, map, leb,
  ltb, ◌==◌, if◌then◌else◌, String, AppResult, ok, err, AppError,
}
use tweet_db.Queue.{
  Status, pending, Row, update_where, claim, expire_stale_tasks, after_failure, completed_row,
}

pub data EnqueueStatus : Type 0 where
  enqueued already_queued missing_source_record : EnqueueStatus

-- What a transfer is about; times and urls are numbers.
pub record Transfer : Type 0 where
  pub media_id : ℕ
  pub source_recorded_at : ℕ
  pub source_url : ℕ
  pub storage_object_id : Option ℕ

pub record EnqueueTask : Type 0 where
  pub id : ℕ
  pub media_id : ℕ
  pub source_recorded_at : ℕ
  pub source_url : ℕ

pub record Resource : Type 0 where
  pub media_id : ℕ
  pub recorded_at : ℕ
  pub url : Option ℕ

abbrev pub Task : Type 0
Task = Row Transfer

abbrev pub same_key : EnqueueTask → EnqueueTask → Bool
same_key a b = a.media_id == b.media_id && a.source_recorded_at == b.source_recorded_at

unfoldable pub has_key : EnqueueTask → List EnqueueTask → Bool
has_key t [] = false
has_key t (x ∷ xs) = same_key x t || has_key t xs

-- `DISTINCT ON (media_id, source_recorded_at)`: one task of each key.
unfoldable pub distinct : List EnqueueTask → List EnqueueTask
distinct [] = []
distinct (t ∷ tasks) = let rest = distinct tasks in if has_key t rest then rest else t ∷ rest

abbrev pub same_url : ℕ → Option ℕ → Bool
same_url url none = false
same_url url (some u) = u == url

-- The `WHERE` of the lateral query for the source.
abbrev pub is_source : EnqueueTask → Resource → Bool
is_source t r =
    r.media_id == t.media_id
    && (leb r.recorded_at t.source_recorded_at
        && (r.recorded_at == t.source_recorded_at || same_url t.source_url r.url))

-- The latest of the two; the record at the requested time is the latest that a task can have.
abbrev pub latest : ℕ → Option ℕ → Option ℕ
latest at none = some at
latest at (some other) = if ltb other at then some at else some other

unfoldable pub resolve_source : List Resource → EnqueueTask → Option ℕ
resolve_source [] t = none
resolve_source (r ∷ resources) t =
    let rest = resolve_source resources t in
    if is_source t r then latest r.recorded_at rest else rest

-- The unique key of the table.
unfoldable pub is_queued : ℕ → ℕ → List Task → Bool
is_queued media_id at [] = false
is_queued media_id at (r ∷ rows) =
    (r.about.media_id == media_id && r.about.source_recorded_at == at) || is_queued media_id at rows

unfoldable pub new_task : ℕ → EnqueueTask → ℕ → Task
new_task now t at = record {
  id = t.id;
  about = record {
    media_id = t.media_id;
    source_recorded_at = at;
    source_url = t.source_url;
    storage_object_id = none;
  };
  status = pending;
  attempt_count = 0;
  last_error = none;
  claimed_by = none;
  claimed_at = none;
  created_at = now;
  completed_at = none;
}

-- `INSERT ... ON CONFLICT (media_id, source_recorded_at) DO NOTHING` of one task whose source is known.
unfoldable pub insert_task : ℕ → EnqueueTask → Option ℕ → List Task → List Task
insert_task now t none rows = rows
insert_task now t (some at) rows =
    if is_queued t.media_id at rows then rows else rows ++ (new_task now t at ∷ [])

unfoldable pub insert_tasks : ℕ → List Resource → List EnqueueTask → List Task → List Task
insert_tasks now resources [] rows = rows
insert_tasks now resources (t ∷ tasks) rows =
    insert_tasks now resources tasks (insert_task now t (resolve_source resources t) rows)

-- The status of a task from its source and the table as it was before the statement.
unfoldable pub status_of : Option ℕ → EnqueueTask → List Task → EnqueueStatus
status_of none t rows = missing_source_record
status_of (some at) t rows = if is_queued t.media_id at rows then already_queued else enqueued

unfoldable pub enqueue_tasks :
    ℕ
    → List Resource
    → List EnqueueTask
    → List Task
    → List Task × List (EnqueueTask × EnqueueStatus)
enqueue_tasks now resources tasks rows =
    let input = distinct tasks in
    (
      insert_tasks now resources input rows,
      map (λ t. (t, status_of (resolve_source resources t) t rows)) input,
    )

-- A claim of one task.
unfoldable pub claim_next_task : ℕ → ℕ → ℕ → String → List Task → List Task × List Task
claim_next_task now cutoff max_attempts worker = claim now cutoff max_attempts worker 1

unfoldable pub completed_transfer : ℕ → ℕ → Task → Task
completed_transfer now object r = record (completed_row now r) {
  about = record r.about { storage_object_id = some object };
}

unfoldable pub persist_completed_task : ℕ → ℕ → ℕ → List Task → List Task
persist_completed_task now id object =
    update_where (λ r. r.id == id) (completed_transfer now object)

unfoldable pub mark_task_failed : ℕ → ℕ → String → ℕ → List Task → List Task
mark_task_failed now id message max_attempts =
    update_where (λ r. r.id == id) (after_failure now max_attempts message)
