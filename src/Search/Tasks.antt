-- ===== src/Search/Tasks.antt =====
-- The queue of the search index: server/src/search/queue.rs with the function search.enqueue_targets of
-- server/migrations/20260426000090_search_outbox.sql, and a worker's batch in server/src/search/worker.rs.
pub mod Settled
pub mod Kinds
use tweet_db.Base.{
  ℕ, zero, suc, ◌+◌, ◌*◌, Option, none, some, Bool, true, false, ◌&&◌, ◌||◌, List, [], ◌∷◌, ◌++◌,
  map, ◌==◌, if◌then◌else◌, String, AppResult, ok, err, AppError, length, upstream, text, ◌>>=◌,
  same_text, take_chars,
}
use tweet_db.Queue.{
  Status, pending, Row, is_processing, update_where, claim, after_failure, completed_row,
}

pub data IndexTargetKind : Type 0 where
  user tweet : IndexTargetKind

abbrev pub as_db_str : IndexTargetKind → String
as_db_str user = "user"
as_db_str tweet = "tweet"

unfoldable pub from_db_str : String → AppResult IndexTargetKind
from_db_str value =
    if same_text value "user"
    then ok user
    else if same_text value "tweet"
    then ok tweet
    else err (upstream (text "unexpected search index target kind: " ∷ text value ∷ []))

pub record IndexTarget : Type 0 where
  pub kind : IndexTargetKind
  pub id : ℕ

abbrev pub Task : Type 0
Task = Row IndexTarget

pub record ClaimedIndexTask : Type 0 where
  pub id : ℕ
  pub target_kind : String
  pub target_id : ℕ
  pub attempt_count : ℕ
  pub claimed_by : String
  pub claimed_at : ℕ

pub data EnqueueStatus : Type 0 where
  enqueued refreshed : EnqueueStatus

abbrev pub same_kind : IndexTargetKind → IndexTargetKind → Bool
same_kind user user = true
same_kind tweet tweet = true
same_kind _ _ = false

abbrev pub same_target : IndexTarget → IndexTarget → Bool
same_target a b = same_kind a.kind b.kind && a.id == b.id

unfoldable pub is_target : List IndexTarget → IndexTarget → Bool
is_target [] t = false
is_target (x ∷ xs) t = same_target x t || is_target xs t

unfoldable pub distinct : List IndexTarget → List IndexTarget
distinct [] = []
distinct (t ∷ targets) = let rest = distinct targets in if is_target rest t then rest else t ∷ rest

unfoldable pub refreshed_row : Task → Task
refreshed_row r = record r {
  status = pending;
  attempt_count = 0;
  last_error = none;
  claimed_by = none;
  claimed_at = none;
  completed_at = none;
}

unfoldable pub new_row : ℕ → ℕ → IndexTarget → Task
new_row now id target = record {
  id = id;
  about = target;
  status = pending;
  attempt_count = 0;
  last_error = none;
  claimed_by = none;
  claimed_at = none;
  created_at = now;
  completed_at = none;
}

unfoldable pub has_row : IndexTarget → List Task → Bool
has_row t [] = false
has_row t (r ∷ rows) = same_target r.about t || has_row t rows

-- `INSERT ... ON CONFLICT (target_kind, target_id) DO UPDATE`, under a forced refresh.
unfoldable pub upsert : ℕ → (IndexTarget → ℕ) → IndexTarget → List Task → List Task
upsert now new_id t rows =
    if has_row t rows
    then update_where (λ r. same_target r.about t) refreshed_row rows
    else rows ++ (new_row now (new_id t) t ∷ [])

unfoldable pub upsert_all : ℕ → (IndexTarget → ℕ) → List IndexTarget → List Task → List Task
upsert_all now new_id [] rows = rows
upsert_all now new_id (t ∷ targets) rows = upsert_all now new_id targets (upsert now new_id t rows)

-- The new ids are the database's; the statuses refer to the table before the statement.
unfoldable pub enqueue_targets :
    ℕ
    → (IndexTarget → ℕ)
    → List IndexTarget
    → List Task
    → List Task × List (IndexTarget × EnqueueStatus)
enqueue_targets now new_id targets rows =
    let input = distinct targets in
    (
      upsert_all now new_id input rows,
      map (λ t. (t, (if has_row t rows then refreshed else enqueued))) input,
    )

-- The columns that the claim returns.
unfoldable pub returned : ℕ → String → Task → ClaimedIndexTask
returned now worker r = record {
  id = r.id;
  target_kind = as_db_str r.about.kind;
  target_id = r.about.id;
  attempt_count = r.attempt_count;
  claimed_by = worker;
  claimed_at = now;
}

unfoldable pub claim_next_tasks :
    ℕ → ℕ → ℕ → String → ℕ → List Task → List Task × List ClaimedIndexTask
claim_next_tasks now cutoff max_attempts worker batch_size rows =
    let (table, taken) = claim now cutoff max_attempts worker batch_size rows in
    (table, map (returned now worker) taken)

abbrev pub is_worker : Option String → String → Bool
is_worker none worker = false
is_worker (some name) worker = same_text name worker

abbrev pub is_time : Option ℕ → ℕ → Bool
is_time none at = false
is_time (some time) at = time == at

-- The `WHERE` of the updates: the row is still claimed as the task says.
unfoldable pub holds : ClaimedIndexTask → Task → Bool
holds t r =
    r.id == t.id
    && (is_processing r.status
        && (is_worker r.claimed_by t.claimed_by && is_time r.claimed_at t.claimed_at))

unfoldable pub holds_any : List ClaimedIndexTask → Task → Bool
holds_any [] r = false
holds_any (t ∷ tasks) r = holds t r || holds_any tasks r

unfoldable pub count_where : (Task → Bool) → List Task → ℕ
count_where test [] = 0
count_where test (r ∷ rows) = let rest = count_where test rows in if test r then suc rest else rest

unfoldable pub mark_tasks_completed : ℕ → List ClaimedIndexTask → List Task → List Task × ℕ
mark_tasks_completed now tasks rows =
    (update_where (holds_any tasks) (completed_row now) rows, count_where (holds_any tasks) rows)

unfoldable pub mark_task_completed : ℕ → ClaimedIndexTask → List Task → List Task × Bool
mark_task_completed now task rows =
    let (table, updated) = mark_tasks_completed now (task ∷ []) rows in (table, updated == 1)

-- `MAX_QUERY_CHARS * 8` characters.
unfoldable pub truncate_error_message : String → String
truncate_error_message = take_chars (256 * 8)

unfoldable pub mark_task_failed : ℕ → ClaimedIndexTask → String → ℕ → List Task → List Task × Bool
mark_task_failed now task message max_attempts rows =
    let updated = count_where (holds task) rows in
    (
      update_where (holds task) (after_failure now max_attempts (truncate_error_message message))
          rows,
      (if updated == 0 then false else true),
    )

pub record TaskKindCounts : Type 0 where
  pub users : ℕ
  pub tweets : ℕ

abbrev pub counted : IndexTargetKind → TaskKindCounts → TaskKindCounts
counted user c = record c { users = c.users + 1 }
counted tweet c = record c { tweets = c.tweets + 1 }

unfoldable pub count_from : TaskKindCounts → List ClaimedIndexTask → AppResult TaskKindCounts
count_from counts [] = ok counts
count_from counts (t ∷ tasks) =
    from_db_str t.target_kind >>= λ kind. count_from (counted kind counts) tasks

unfoldable pub count_tasks_by_kind : List ClaimedIndexTask → AppResult TaskKindCounts
count_tasks_by_kind = count_from (record { users = 0; tweets = 0 })

-- The index answers a call with success or an error, whose text is `to_string`'s.
module _ (to_string : AppError → String)
    (index_task : ClaimedIndexTask → AppResult (Unit {0})) where
  unfoldable pub after_index :
      ℕ → ℕ → ClaimedIndexTask → AppResult (Unit {0}) → List Task → List Task
  after_index now max_attempts task (ok _) rows = (mark_task_completed now task rows).0
  after_index now max_attempts task (err e) rows =
      (mark_task_failed now task (to_string e) max_attempts rows).0

  unfoldable pub process_single_task : ℕ → ℕ → ClaimedIndexTask → List Task → List Task
  process_single_task now max_attempts task rows =
      after_index now max_attempts task (index_task task) rows

  unfoldable pub process_tasks_individually : ℕ → ℕ → List ClaimedIndexTask → List Task → List Task
  process_tasks_individually now max_attempts [] rows = rows
  process_tasks_individually now max_attempts (t ∷ tasks) rows =
      process_tasks_individually now max_attempts tasks
        (process_single_task now max_attempts t rows)

  unfoldable pub after_counts :
      ℕ
      → ℕ
      → List ClaimedIndexTask
      → AppResult TaskKindCounts
      → AppResult (Unit {0})
      → List Task
      → List Task
  after_counts now max_attempts tasks (ok _) (ok _) rows = (mark_tasks_completed now tasks rows).0
  after_counts now max_attempts tasks _ _ rows =
      process_tasks_individually now max_attempts tasks rows

  -- With the answer of the index to the whole batch.
  unfoldable pub process_task_batch :
      ℕ → ℕ → AppResult (Unit {0}) → List ClaimedIndexTask → List Task → List Task
  process_task_batch now max_attempts answer tasks rows =
      after_counts now max_attempts tasks (count_tasks_by_kind tasks) answer rows
