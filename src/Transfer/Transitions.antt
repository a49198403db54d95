-- ===== src/Transfer/Transitions.antt =====
-- What an administrator does to a transfer task: transition_task of
-- server/src/internal_api/v2/transfer.rs, and the same three updates of server/src/admin/v1.rs.
use tweet_db.Base.{
  ℕ, Option, none, some, Bool, true, false, ◌||◌, List, [], ◌∷◌, ◌==◌, if◌then◌else◌, String,
  AppResult, ok, err, bad_request, not_found, text, Message,
}
use tweet_db.Queue.{Status, pending, processing, completed, failed, canceled, update_where}
use tweet_db.Transfer.Tasks.{Task}

pub data Transition : Type 0 where
  retry cancel release : Transition

-- The event that the transaction writes to the audit log.
pub record AuditEvent : Type 0 where
  pub event_type : String
  pub resource_id : ℕ
  pub media_id : ℕ
  pub previous_status : Status

abbrev pub same_status : Status → Status → Bool
same_status pending pending = true
same_status processing processing = true
same_status completed completed = true
same_status failed failed = true
same_status canceled canceled = true
same_status _ _ = false

unfoldable pub is_allowed : List Status → Status → Bool
is_allowed [] status = false
is_allowed (allowed ∷ rest) status = same_status allowed status || is_allowed rest status

abbrev pub status_text : Status → String
status_text pending = "pending"
status_text processing = "processing"
status_text completed = "completed"
status_text failed = "failed"
status_text canceled = "canceled"

-- `allowed_statuses.join(", ")`
unfoldable pub joined : List Status → Message
joined [] = []
joined (s ∷ []) = text (status_text s) ∷ []
joined (s ∷ t ∷ rest) = text (status_text s) ∷ text ", " ∷ joined (t ∷ rest)

unfoldable pub select_by_id : ℕ → List Task → Option Task
select_by_id id [] = none
select_by_id id (r ∷ rows) = let rest = select_by_id id rows in if r.id == id then some r else rest

-- What the transaction does with the row that it has locked.
unfoldable pub transition_row :
    List Status
    → String
    → (Task → Task)
    → ℕ
    → List Task
    → Option Task
    → AppResult (List Task × AuditEvent)
transition_row allowed event_type update id rows none =
    err (not_found (text "transfer task not found" ∷ []))
transition_row allowed event_type update id rows (some row) =
    if is_allowed allowed row.status
    then ok (
      update_where (λ r. r.id == id) update rows,
      record {
        event_type = event_type;
        resource_id = id;
        media_id = row.about.media_id;
        previous_status = row.status;
      },
    )
    else err (bad_request (text "task status must be one of " ∷ joined allowed))

unfoldable pub transition_locked_task :
    List Status → String → (Task → Task) → ℕ → List Task → AppResult (List Task × AuditEvent)
transition_locked_task allowed event_type update id rows =
    transition_row allowed event_type update id rows (select_by_id id rows)

unfoldable pub retried : Task → Task
retried r = record r {
  status = pending;
  last_error = none;
  claimed_by = none;
  claimed_at = none;
  completed_at = none;
}

unfoldable pub canceled_by_admin : ℕ → Task → Task
canceled_by_admin now r = record r {
  status = canceled;
  last_error = some "canceled_by_admin";
  claimed_by = none;
  claimed_at = none;
  completed_at = some now;
}

unfoldable pub released : Task → Task
released r = record r {
  status = pending;
  last_error = some "released_by_admin";
  claimed_by = none;
  claimed_at = none;
  completed_at = none;
}

unfoldable pub retry_task : ℕ → List Task → AppResult (List Task × AuditEvent)
retry_task = transition_locked_task (failed ∷ canceled ∷ []) "transfer.retried" retried

unfoldable pub cancel_task : ℕ → ℕ → List Task → AppResult (List Task × AuditEvent)
cancel_task now = transition_locked_task (pending ∷ []) "transfer.canceled" (canceled_by_admin now)

unfoldable pub release_task : ℕ → List Task → AppResult (List Task × AuditEvent)
release_task = transition_locked_task (processing ∷ []) "transfer.released" released

-- The dispatch on the type of the request, which is parsed before.
unfoldable pub transition_task : ℕ → Transition → ℕ → List Task → AppResult (List Task × AuditEvent)
transition_task now retry = retry_task
transition_task now cancel = cancel_task now
transition_task now release = release_task
