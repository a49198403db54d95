-- ===== src/Tests/Queues.antt =====
-- The queues on a small table.
use tweet_db.Base.{
  ◌+◌, ◌≡◌, ◌≢◌, ◌<◌, ◌≤◌, none, some, false, List, [], ◌∷◌, ◌++◌, map, keep, length, All,
  AppResult, ok, AppError, String, arith,
}
use mathlib.Core.List.{Perm}
use tweet_db.Queue.{Row, can_claim, before, claimed, claim, ids, member}
use tweet_db.Queue.Claims.{claim_takes_first, claim_exclusive}
use tweet_db.Queue.Attempts.{Healthy}
use tweet_db.Transfer.Tasks.{
  EnqueueTask, Resource, Task, distinct, enqueue_tasks, enqueued, claim_next_task, mark_task_failed,
  persist_completed_task, has_key,
}
use tweet_db.Transfer.Tasks.Enqueue.{enqueue_tasks_again}
use tweet_db.Transfer.Tasks.History.{
  Reachable, empty, after, enqueue, claim_next, Reachable-Healthy,
}
use tweet_db.Base.{Bool, false, same_text}
use tweet_db.Transfer.Source.{
  VideoVariant, MediaResource, video, select_source, select_source_video, IsVideoSource,
}
use tweet_db.Transfer.Worker.{Ended, worker_turn, claimed_in_turn, worker_turn_ends}
use tweet_db.Search.Tasks.{
  user, as_db_str, from_db_str, IndexTarget, ClaimedIndexTask, enqueue_targets, process_task_batch,
  holds_any, new_row,
}
use tweet_db.Transfer.Tasks.Reopened.{Overwritten, mark_task_failed_reopens}
use tweet_db.Search.Tasks.Kinds.{from_db_str-as_db_str}
use tweet_db.Search.Tasks.Settled.{process_task_batch_settles}
use tweet_db.Search.Tasks.Settled.Refresh.{Refreshed, enqueue_targets_survives}

abbrev photo : EnqueueTask
photo = record { id = 1; media_id = 7; source_recorded_at = 50; source_url = 3 }

abbrev resources : List Resource
resources = record { media_id = 7; recorded_at = 40; url = some 3 } ∷ []

abbrev table : List Task
table = (enqueue_tasks 100 resources (photo ∷ []) []).0

abbrev row : Row IndexTarget
row = new_row 5 1 (record { kind = user; id = 9 })

abbrev held : ClaimedIndexTask
held = record {
  id = 1;
  target_kind = "user";
  target_id = 9;
  attempt_count = 1;
  claimed_by = "w";
  claimed_at = 6;
}

abbrev answers : ClaimedIndexTask → AppResult (Unit {0})
answers t = ok tt

abbrev to_string : AppError → String
to_string e = "failed"

claim_takes_first_example :
    (taken : List (Row IndexTarget)) × (left : List (Row IndexTarget)) × Perm
      (keep (can_claim 2 3) (row ∷ []))
      (taken ++ left)
    × All (λ l. All (λ t. before l t ≡ false) taken) left
    × (length taken ≤ 1)
    × (length taken < 1 → left ≡ [])
    × ((claim 6 2 3 "w" 1 (row ∷ [])).1 ≡ map (claimed 6 "w") taken)
claim_takes_first_example = claim_takes_first 6 2 3 "w" 1 (row ∷ [])

claim_exclusive_example :
    All
      (λ r. member r.id (ids (claim 6 2 3 "w" 1 (row ∷ [])).1) ≡ false)
      (claim 8 4 3 "v" 1 (claim 6 2 3 "w" 1 (row ∷ [])).0).1
claim_exclusive_example = claim_exclusive 6 2 3 "w" 1 (row ∷ []) 8 4 3 "v" 1 (omega arith)

enqueue_tasks_again_example :
    ((enqueue_tasks 101 resources (photo ∷ []) table).0 ≡ table)
    × All (λ x. x.1 ≢ enqueued) (enqueue_tasks 101 resources (photo ∷ []) table).1
enqueue_tasks_again_example = enqueue_tasks_again 100 101 resources (photo ∷ []) []

reached : Reachable 3 0 (claim_next_task 110 90 3 "w" table).0
unfolding distinct has_key
reached =
    after (after empty (enqueue 100 resources (photo ∷ []) (tt, tt, tt))) (claim_next 110 90 "w")

Reachable-Healthy_example : Healthy (3 + 0) (claim_next_task 110 90 3 "w" table).0
Reachable-Healthy_example =
    Reachable-Healthy 3 0 (claim_next_task 110 90 3 "w" table).0 (omega arith) reached

mark_task_failed_reopens_example :
    Overwritten 90 1 77 3 table
      (mark_task_failed 130 1 "timeout" 3 (persist_completed_task 120 1 77 table))
mark_task_failed_reopens_example = mark_task_failed_reopens 120 130 90 1 77 3 "timeout" table

from_db_str-as_db_str_example : from_db_str (as_db_str user) ≡ ok user
from_db_str-as_db_str_example = from_db_str-as_db_str user

process_task_batch_settles_example :
    All
      (λ r. holds_any (held ∷ []) r ≡ false)
      (process_task_batch to_string answers 7 3
        (ok tt)
        (held ∷ [])
        (claim 6 2 3 "w" 1 (row ∷ [])).0)
process_task_batch_settles_example =
    process_task_batch_settles to_string answers 7 3 (ok tt) (held ∷ [])
      (claim 6 2 3 "w" 1 (row ∷ [])).0

enqueue_targets_survives_example : All (Refreshed (row.about ∷ [])) (
    process_task_batch to_string answers 9 3
      (ok tt)
      (held ∷ [])
      (enqueue_targets 8 (λ t. 2) (row.about ∷ []) (claim 6 2 3 "w" 1 (row ∷ [])).0).0)
enqueue_targets_survives_example =
    enqueue_targets_survives to_string answers 8 9 3 (λ t. 2) (row.about ∷ []) (ok tt) (held ∷ [])
      (claim 6 2 3 "w" 1 (row ∷ [])).0

worker_turn_ends_example :
    All
      (λ t.
        All
          (Ended to_string (λ t. ok 77) t.id)
          (worker_turn to_string (λ t. ok 77) 110 120 20 3 "w" table))
      (claimed_in_turn to_string (λ t. ok 77) 110 20 3 "w" table).1
worker_turn_ends_example = worker_turn_ends to_string (λ t. ok 77) 110 120 20 3 "w" table

abbrev low : VideoVariant
low = record { content_type = "video/mp4"; bitrate = some 1; url = "low" }

abbrev high : VideoVariant
high = record { content_type = "video/mp4"; bitrate = some 9; url = "high" }

abbrev clip : MediaResource
clip = record { media_url = none; video = some (low ∷ high ∷ []) }

abbrev mp4 : String → Bool
mp4 value = same_text value "video/mp4"

abbrev stream : String → String
stream url = "application/octet-stream"

select_source_video_example : IsVideoSource mp4 stream clip (select_source mp4 stream video clip)
select_source_video_example = select_source_video mp4 stream video clip (λ e. cc e)
