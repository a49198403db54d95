-- ===== src/Submit/Execute/Shared.antt =====
-- The batches whose items share a row: the combined users (execute/users.rs), the places
-- (execute/tweets.rs), and the relations, of which a tweet has four (execute/relations.rs).
use tweet_db.Base.{
  ℕ, Option, none, some, Bool, false, ◌||◌, List, [], ◌∷◌, ◌++◌, if◌then◌else◌, String, same_text,
  AppResult, ok, err, AppError,
}
use tweet_db.Base.Dict.{Dict, lookup, insert}
use tweet_db.Queue.{member}
use tweet_db.Submit.Results.{Operation, accept, skip, fail}
use tweet_db.Submit.Writes.{Indexed}
use tweet_db.Submit.Prepare.{TwitterUser}
use tweet_db.Submit.Batch.{TweetPlace, Relations}
use tweet_db.Submit.Execute.{at, at_each}

pub record CombinedUserWrite : Type 0 where
  pub value : TwitterUser
  pub user_indices : List ℕ
  pub tweet_indices : List ℕ

abbrev pub or_else : Option ℕ → Option ℕ → Option ℕ
or_else none new = new
or_else (some old) new = some old

abbrev pub add_user : Option CombinedUserWrite → Indexed TwitterUser → CombinedUserWrite
add_user none item = record {
  value = item.value;
  user_indices = item.index ∷ [];
  tweet_indices = [];
}
add_user (some e) item = record e {
  value = record {
    id = e.value.id;
    registered_at = or_else e.value.registered_at item.value.registered_at;
  };
  user_indices = e.user_indices ++ (item.index ∷ []);
}

abbrev pub add_author : Option CombinedUserWrite → Indexed TwitterUser → CombinedUserWrite
add_author none item = record {
  value = item.value;
  user_indices = [];
  tweet_indices = item.index ∷ [];
}
add_author (some e) item = record e { tweet_indices = e.tweet_indices ++ (item.index ∷ []) }

unfoldable pub combine_users :
    List (Indexed TwitterUser) → Dict CombinedUserWrite → Dict CombinedUserWrite
combine_users [] combined = combined
combine_users (item ∷ items) combined =
    combine_users items
      (insert item.value.id (add_user (lookup item.value.id combined) item) combined)

unfoldable pub combine_authors :
    List (Indexed TwitterUser) → Dict CombinedUserWrite → Dict CombinedUserWrite
combine_authors [] combined = combined
combine_authors (item ∷ items) combined =
    combine_authors items
      (insert item.value.id (add_author (lookup item.value.id combined) item) combined)

unfoldable pub combined_values : Dict CombinedUserWrite → List TwitterUser
combined_values [] = []
combined_values ((id, e) ∷ combined) = e.value ∷ combined_values combined

unfoldable pub write_combined_users :
    (ℕ → Operation) → Dict CombinedUserWrite → List (Indexed Operation)
write_combined_users op [] = []
write_combined_users op ((id, e) ∷ combined) =
    at_each (op e.value.id) e.user_indices ++ write_combined_users op combined

unfoldable pub write_combined_authors :
    (ℕ → Operation) → Dict CombinedUserWrite → List (Indexed Operation)
write_combined_authors op [] = []
write_combined_authors op ((id, e) ∷ combined) =
    at_each (op e.value.id) e.tweet_indices ++ write_combined_authors op combined

module _ (to_string : AppError → String) where
  abbrev pub user_operation : AppResult (List ℕ) → ℕ → Operation
  user_operation (ok changed) id =
      if member id changed
      then accept "twitter_user" "inserted_or_filled"
      else skip "twitter_user" "unchanged_or_existing"
  user_operation (err e) id = fail "twitter_user" (to_string e)

  abbrev pub author_operation : AppResult (List ℕ) → ℕ → Operation
  author_operation (ok changed) id =
      if member id changed
      then accept "tweet_author" "inserted_minimal"
      else skip "tweet_author" "existing"
  author_operation (err e) id = fail "tweet_author" (to_string e)

  unfoldable pub member_text : String → List String → Bool
  member_text id [] = false
  member_text id (x ∷ xs) = same_text x id || member_text id xs

  abbrev pub place_operation : AppResult (List String) → String → Operation
  place_operation (ok changed) id =
      if member_text id changed
      then accept "tweet_place" "inserted_or_filled"
      else skip "tweet_place" "unchanged_or_existing"
  place_operation (err e) id = fail "tweet_place" (to_string e)

-- The places of `deduped`: the first of each id, with the indices of all.
pub record SharedPlace (V : Type 0) : Type 0 where
  pub place : TweetPlace V
  pub indices : List ℕ

module _ {V : Type 0} where
  unfoldable pub add_place : Indexed (TweetPlace V) → List (SharedPlace V) → List (SharedPlace V)
  add_place item [] = record { place = item.value; indices = item.index ∷ [] } ∷ []
  add_place item (p ∷ places) =
      let later = p ∷ add_place item places in
      if same_text p.place.id item.value.id
      then record p { indices = p.indices ++ (item.index ∷ []) } ∷ places
      else later

  unfoldable pub dedupe_places :
      List (Indexed (TweetPlace V)) → List (SharedPlace V) → List (SharedPlace V)
  dedupe_places [] places = places
  dedupe_places (item ∷ items) places = dedupe_places items (add_place item places)

  unfoldable pub shared_values : List (SharedPlace V) → List (TweetPlace V)
  shared_values [] = []
  shared_values (p ∷ places) = p.place ∷ shared_values places

  unfoldable pub write_places :
      (String → Operation) → List (SharedPlace V) → List (Indexed Operation)
  write_places op [] = []
  write_places op (p ∷ places) = at_each (op p.place.id) p.indices ++ write_places op places

pub data RelationSyncStatus : Type 0 where
  replaced replaced_filtered skipped_unchanged skipped_unchanged_filtered : RelationSyncStatus
  skipped_missing_tweet : RelationSyncStatus

pub record RelationSyncStatuses : Type 0 where
  pub media : RelationSyncStatus
  pub mention : RelationSyncStatus
  pub hashtag : RelationSyncStatus
  pub symbol : RelationSyncStatus

abbrev pub record_relation_sync : String → RelationSyncStatus → Operation
record_relation_sync name replaced = accept name "replaced"
record_relation_sync name replaced_filtered = accept name "replaced_with_missing_media_skipped"
record_relation_sync name skipped_unchanged = skip name "unchanged"
record_relation_sync name skipped_unchanged_filtered =
    skip name "unchanged_with_missing_media_skipped"
record_relation_sync name skipped_missing_tweet = skip name "missing_tweet"

abbrev pub missing_status : String → Operation
missing_status name = fail name "missing relation sync status"

abbrev pub synced : ℕ → Option RelationSyncStatuses → List (Indexed Operation)
synced i none =
    at i (missing_status "tweet_media_ref")
    ∷ at i (missing_status "tweet_mention_ref")
    ∷ at i (missing_status "tweet_hashtag_ref")
    ∷ at i (missing_status "tweet_symbol_ref")
    ∷ []
synced i (some s) =
    at i (record_relation_sync "tweet_media_ref" s.media)
    ∷ at i (record_relation_sync "tweet_mention_ref" s.mention)
    ∷ at i (record_relation_sync "tweet_hashtag_ref" s.hashtag)
    ∷ at i (record_relation_sync "tweet_symbol_ref" s.symbol)
    ∷ []

abbrev pub not_synced : ℕ → String → List (Indexed Operation)
not_synced i error =
    at i (fail "tweet_media_ref" error)
    ∷ at i (fail "tweet_mention_ref" error)
    ∷ at i (fail "tweet_hashtag_ref" error)
    ∷ at i (fail "tweet_symbol_ref" error)
    ∷ []

module _ {F : Type 0} (to_string : AppError → String) where
  abbrev pub relation_operations :
      AppResult (ℕ → Option RelationSyncStatuses) → Indexed (Relations F) → List (Indexed Operation)
  relation_operations (ok statuses) item = synced item.index (statuses item.value.tweet_id)
  relation_operations (err e) item = not_synced item.index (to_string e)

  unfoldable pub replace_relations :
      AppResult (ℕ → Option RelationSyncStatuses)
      → List (Indexed (Relations F))
      → List (Indexed Operation)
  replace_relations answer [] = []
  replace_relations answer (item ∷ items) =
      relation_operations answer item ++ replace_relations answer items
