-- ===== src/Submit/Writes.antt =====
-- The batches that are written after the preparation, server/src/tweet_submit/execute: each records what
-- became of an item in the result that has the item's index. The store's answer is a parameter.
pub mod Recorded
use tweet_db.Base.{
  ℕ, zero, suc, Option, none, some, Bool, true, false, ◌||◌, List, [], ◌∷◌, ◌==◌, if◌then◌else◌,
  String, AppResult, ok, err, AppError,
}
use tweet_db.Queue.{member}
use tweet_db.Submit.Results.{Builder, Operation, operation, accept, skip, fail}

pub data ConditionalWrite : Type 0 where
  inserted skipped_duplicate skipped_unchanged skipped_interval skipped_missing_parent :
      ConditionalWrite

pub record Indexed (T : Type 0) : Type 0 where
  pub index : ℕ
  pub value : T

abbrev pub and_then {ℓ κ} : {A : Type ℓ} {B : Type κ} → (A → Option B) → Option A → Option B
and_then f none = none
and_then f (some a) = f a

-- `results[index]`, which panics outside the list: none.
unfoldable pub update_at : ℕ → (Builder → Builder) → List Builder → Option (List Builder)
update_at i change [] = none
update_at zero change (b ∷ results) = some (change b ∷ results)
update_at (suc i) change (b ∷ results) =
    and_then (λ rest. some (b ∷ rest)) (update_at i change results)

-- record_conditional_write
unfoldable pub conditional_write : String → ConditionalWrite → Operation
conditional_write name inserted = accept name "inserted"
conditional_write name skipped_duplicate = skip name "duplicate_timestamp"
conditional_write name skipped_unchanged = skip name "unchanged"
conditional_write name skipped_interval = skip name "stats_interval_not_reached"
conditional_write name skipped_missing_parent = skip name "missing_parent"

-- The status of an item, which the store's answer may lack.
unfoldable pub looked_up : String → Option ConditionalWrite → Operation
looked_up name none = fail name "missing batch write status"
looked_up name (some write) = conditional_write name write

unfoldable pub changed_operation : String → List ℕ → ℕ → Operation
changed_operation name changed id =
    if member id changed
    then accept name "inserted_or_filled"
    else skip name "unchanged_or_existing"

module _ {T : Type 0} where
  -- The loop over the items.
  unfoldable pub record_each :
      (T → Operation) → List (Indexed T) → List Builder → Option (List Builder)
  record_each op [] results = some results
  record_each op (item ∷ items) results =
      and_then (record_each op items) (update_at item.index (operation (op item.value)) results)

  module _ (to_string : AppError → String) where
    -- The operation of each item when the store answers with statuses.
    unfoldable pub status_operation :
        String → AppResult (T → Option ConditionalWrite) → T → Operation
    status_operation name (ok statuses) value = looked_up name (statuses value)
    status_operation name (err e) value = fail name (to_string e)

    -- The batches of user snapshots, user statistics, media resources and of the edits, policies, notes and
    -- statistics of tweets, which differ in their name and in the key of the lookup.
    unfoldable pub write_status_batch :
        String
        → AppResult (T → Option ConditionalWrite)
        → List (Indexed T)
        → List Builder
        → Option (List Builder)
    write_status_batch name answer items results =
        record_each (status_operation name answer) items results

    unfoldable pub change_operation : String → (T → ℕ) → AppResult (List ℕ) → T → Operation
    change_operation name id (ok changed) value = changed_operation name changed (id value)
    change_operation name id (err e) value = fail name (to_string e)

    -- The batches of tweets and of media.
    unfoldable pub write_changed_batch :
        String
        → (T → ℕ)
        → AppResult (List ℕ)
        → List (Indexed T)
        → List Builder
        → Option (List Builder)
    write_changed_batch name id answer items results =
        record_each (change_operation name id answer) items results
