-- ===== src/Submit/Execute/Transfers.antt =====
-- The media whose transfer is enqueued: enqueue_prepared_media_transfers of
-- server/src/tweet_submit/execute/media.rs.
use tweet_db.Base.{
  ℕ, Option, none, some, Bool, true, false, not, List, [], ◌∷◌, if◌then◌else◌, String, AppResult,
  ok, err, AppError,
}
use tweet_db.Base.Dict.{Dict, lookup, insert}
use tweet_db.Submit.Results.{Operation, accept, skip, fail}
use tweet_db.Submit.Writes.{
  Indexed, ConditionalWrite, inserted, skipped_duplicate, skipped_unchanged, skipped_interval,
  skipped_missing_parent,
}
use tweet_db.Submit.Execute.{at}

abbrev pub should_enqueue_media_transfer : Option ConditionalWrite → Bool
should_enqueue_media_transfer none = false
should_enqueue_media_transfer (some inserted) = true
should_enqueue_media_transfer (some skipped_duplicate) = false
should_enqueue_media_transfer (some skipped_unchanged) = true
should_enqueue_media_transfer (some skipped_interval) = false
should_enqueue_media_transfer (some skipped_missing_parent) = false

pub data TransferEnqueueStatus : Type 0 where
  enqueued already_queued missing_source_record : TransferEnqueueStatus

abbrev pub enqueue_operation : Option TransferEnqueueStatus → Operation
enqueue_operation none = fail "media_transfer" "missing_enqueue_status"
enqueue_operation (some enqueued) = accept "media_transfer" "enqueued"
enqueue_operation (some already_queued) = skip "media_transfer" "already_enqueued"
enqueue_operation (some missing_source_record) = fail "media_transfer" "missing_source_record"

-- A task is a resource and the source of its download.
pub record Task (R X : Type 0) : Type 0 where
  pub resource : R
  pub source : X

pub data Decision (X : Type 0) : Type 0 where
  pass : Decision X
  note : Operation → Decision X
  enqueue : X → Decision X

unfoldable pub by_index : {M : Type 0} → List (Indexed M) → Dict M → Dict M
by_index [] media = media
by_index (item ∷ items) media = by_index items (insert item.index item.value media)

abbrev pub with_source : {X : Type 0} → Option X → Decision X
with_source none = note (skip "media_transfer" "source_unavailable")
with_source (some source) = enqueue source

abbrev pub noted :
    {X : Type 0} → ℕ → Decision X → List (Indexed Operation) → List (Indexed Operation)
noted index pass rest = rest
noted index (note op) rest = at index op ∷ rest
noted index (enqueue source) rest = rest

abbrev pub tasked :
    {R X : Type 0} → ℕ → R → Decision X → List (Indexed (Task R X)) → List (Indexed (Task R X))
tasked index resource pass rest = rest
tasked index resource (note op) rest = rest
tasked index resource (enqueue source) rest =
    record { index = index; value = record { resource = resource; source = source } } ∷ rest

abbrev pub answered :
    {R X : Type 0}
    → (AppError → String)
    → AppResult (Task R X → Option TransferEnqueueStatus)
    → Task R X
    → Operation
answered to_string (ok statuses) task = enqueue_operation (statuses task)
answered to_string (err e) task = fail "media_transfer" (to_string e)

module _ {M R X : Type 0} (select_source : M → R → Option X) where
  abbrev pub with_media : Option M → R → Decision X
  with_media none resource = note (fail "media_transfer" "missing_media_payload")
  with_media (some media) resource = with_source (select_source media resource)

  unfoldable pub decide : Bool → Option ConditionalWrite → Option M → R → Decision X
  decide is_active status media resource =
      if not (should_enqueue_media_transfer status)
      then pass
      else if not is_active
      then note (skip "media_transfer" "transfer_disabled")
      else with_media media resource

  -- The results that are recorded at once, and the tasks.
  unfoldable pub transfer_notes :
      Bool → (R → Option ConditionalWrite) → Dict M → List (Indexed R) → List (Indexed Operation)
  transfer_notes is_active statuses media [] = []
  transfer_notes is_active statuses media (item ∷ items) =
      noted item.index (decide is_active (statuses item.value) (lookup item.index media) item.value)
        (transfer_notes is_active statuses media items)

  unfoldable pub transfer_tasks :
      Bool → (R → Option ConditionalWrite) → Dict M → List (Indexed R) → List (Indexed (Task R X))
  transfer_tasks is_active statuses media [] = []
  transfer_tasks is_active statuses media (item ∷ items) =
      tasked item.index item.value
        (decide is_active (statuses item.value) (lookup item.index media) item.value)
        (transfer_tasks is_active statuses media items)
