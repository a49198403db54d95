-- ===== src/Submit/Execute/Steps.antt =====
-- execute_prepared_submit: server/src/tweet_submit/execute/mod.rs.
use tweet_db.Base.{
  ℕ, Option, none, Bool, List, [], ◌∷◌, ◌++◌, if◌then◌else◌, String, AppResult, ok, err, AppError,
}
use tweet_db.Queue.{member}
use tweet_db.Submit.Results.{Builder, Operation, fail}
use tweet_db.Submit.Writes.{
  Indexed, ConditionalWrite, record_each, write_status_batch, write_changed_batch,
}
use tweet_db.Submit.Prepare.{TwitterUser, Prepared}
use tweet_db.Submit.Batch.{PreparedMedia, PreparedTweets, TweetPlace, Relations}
use tweet_db.Submit.Execute.{
  Lists, Step, on_users, on_tweets, on_media, run_steps, at_each, values, indices,
}
use tweet_db.Submit.Execute.Shared.{
  combine_users, combine_authors, combined_values, write_combined_users, write_combined_authors,
  user_operation, author_operation, place_operation, dedupe_places, shared_values, write_places,
  RelationSyncStatuses, replace_relations,
}
use tweet_db.Submit.Execute.Transfers.{
  Task, TransferEnqueueStatus, by_index, transfer_notes, transfer_tasks, answered,
}

-- The operations of the store and of the transfer queue that a submission calls.
pub record Store (S T M R V W E O N A F X : Type 0) : Type 0 where
  pub preload :
      List S
      → List (TweetPlace V)
      → List W
      → List O
      → List N
      → List M
      → List R
      → AppResult (Unit {0})
  pub insert_users_changed : List TwitterUser → AppResult (List ℕ)
  pub append_user_snapshots : List S → AppResult (S → Option ConditionalWrite)
  pub append_user_stats : List T → AppResult (T → Option ConditionalWrite)
  pub upsert_media_changed : List M → AppResult (List ℕ)
  pub append_media_resources : List R → AppResult (R → Option ConditionalWrite)
  pub enqueue_tasks : List (Task R X) → AppResult (Task R X → Option TransferEnqueueStatus)
  pub upsert_tweet_places_changed : List (TweetPlace V) → AppResult (List String)
  pub insert_tweets_changed : List W → AppResult (List ℕ)
  pub append_tweet_edits : List E → AppResult (E → Option ConditionalWrite)
  pub append_tweet_policies : List O → AppResult (O → Option ConditionalWrite)
  pub append_tweet_community_notes : List N → AppResult (N → Option ConditionalWrite)
  pub append_tweet_stats : List A → AppResult (A → Option ConditionalWrite)
  pub sync_tweet_relations : List (Relations F) → AppResult (ℕ → Option RelationSyncStatuses)

-- The indices of a HashSet; the order in which it is walked does not matter, since each result gets
-- one operation.
unfoldable pub unique : List ℕ → List ℕ
unique [] = []
unique (i ∷ is) = let rest = unique is in if member i rest then rest else i ∷ rest

abbrev pub record_all : List (Indexed Operation) → List Builder → Option (List Builder)
record_all = record_each (λ op. op)

-- The statuses that the enqueueing reads, none after an error.
abbrev pub statuses_of :
    {R : Type 0} → AppResult (R → Option ConditionalWrite) → R → Option ConditionalWrite
statuses_of (ok statuses) = statuses
statuses_of (err e) = λ resource. none

module _ {S T M R V W E O N A F X : Type 0} (to_string : AppError → String) (media_id : M → ℕ)
    (tweet_id : W → ℕ) (select_source : M → R → Option X) (is_active : Bool)
    (store : Store S T M R V W E O N A F X) where
  unfoldable pub preload_failed :
      Operation → Prepared S T → PreparedMedia M R → PreparedTweets V W E O N A F → List Step
  preload_failed op users media tweets =
      on_users (
        record_all (
          at_each op
            (unique (indices users.users ++ (indices users.snapshots ++ indices users.stats)))))
      ∷ on_tweets (
          record_all (
            at_each op (
              unique (
                indices tweets.authors
                ++ (indices tweets.places
                    ++ (indices tweets.tweets
                        ++ (indices tweets.edits
                            ++ (indices tweets.policies
                                ++ (indices tweets.community_notes
                                    ++ (indices tweets.stats ++ indices tweets.relations))))))))))
      ∷ on_media (record_all (at_each op (unique (indices media.media ++ indices media.resources))))
      ∷ []

  unfoldable pub write_users : Prepared S T → List (Indexed TwitterUser) → List Step
  write_users users authors =
      let combined = combine_authors authors (combine_users users.users []) in
      let answer = store.insert_users_changed (combined_values combined) in
      on_users (record_all (write_combined_users (user_operation to_string answer) combined))
      ∷ on_tweets (record_all (write_combined_authors (author_operation to_string answer) combined))
      ∷ on_users (
          write_status_batch to_string "user_snapshot"
            (store.append_user_snapshots (values users.snapshots)) users.snapshots)
      ∷ on_users (
          write_status_batch to_string "user_stats" (store.append_user_stats (values users.stats))
            users.stats)
      ∷ []

  unfoldable pub write_media : PreparedMedia M R → List Step
  write_media media =
      let answer = store.append_media_resources (values media.resources) in
      let by = by_index media.media [] in
      let tasks = transfer_tasks select_source is_active (statuses_of answer) by media.resources in
      on_media (
        write_changed_batch to_string "media" media_id
          (store.upsert_media_changed (values media.media)) media.media)
      ∷ on_media (write_status_batch to_string "media_resource" answer media.resources)
      ∷ on_media (
          record_all
            (transfer_notes select_source is_active (statuses_of answer) by media.resources))
      ∷ on_media (record_each (answered to_string (store.enqueue_tasks (values tasks))) tasks)
      ∷ []

  unfoldable pub write_tweets : PreparedTweets V W E O N A F → List Step
  write_tweets tweets =
      let places = dedupe_places tweets.places [] in
      on_tweets (
        record_all (
          write_places
            (place_operation to_string (store.upsert_tweet_places_changed (shared_values places)))
            places))
      ∷ on_tweets (
          write_changed_batch to_string "tweet" tweet_id
            (store.insert_tweets_changed (values tweets.tweets)) tweets.tweets)
      ∷ on_tweets (
          write_status_batch to_string "tweet_edit" (store.append_tweet_edits (values tweets.edits))
            tweets.edits)
      ∷ on_tweets (
          write_status_batch to_string "tweet_policy"
            (store.append_tweet_policies (values tweets.policies)) tweets.policies)
      ∷ on_tweets (
          write_status_batch to_string "tweet_community_note"
            (store.append_tweet_community_notes (values tweets.community_notes))
            tweets.community_notes)
      ∷ on_tweets (
          write_status_batch to_string "tweet_stats"
            (store.append_tweet_stats (values tweets.stats)) tweets.stats)
      ∷ on_tweets (
          record_all (
            replace_relations to_string (store.sync_tweet_relations (values tweets.relations))
              tweets.relations))
      ∷ []

  abbrev pub steps_after :
      AppResult (Unit {0})
      → Prepared S T
      → PreparedMedia M R
      → PreparedTweets V W E O N A F
      → List Step
  steps_after (err e) users media tweets =
      preload_failed (fail "dict_preload" (to_string e)) users media tweets
  steps_after (ok loaded) users media tweets =
      write_users users tweets.authors ++ (write_media media ++ write_tweets tweets)

  unfoldable pub execute_prepared_submit :
      Prepared S T → PreparedMedia M R → PreparedTweets V W E O N A F → Option Lists
  execute_prepared_submit users media tweets =
      let loaded =
        store.preload (values users.snapshots) (values tweets.places) (values tweets.tweets)
          (values tweets.policies) (values tweets.community_notes) (values media.media)
          (values media.resources) in
      run_steps (steps_after loaded users media tweets)
        (record { users = users.results; tweets = tweets.results; media = media.results })
