-- ===== src/Submit/Execute/Handler.antt =====
-- submit_tweets: server/src/tweet_submit/handler.rs.
use tweet_db.Base.{
  ℕ, ◌+◌, ◌≤◌, ◌≡◌, refl, ◌∙◌, ltb, Option, none, some, Bool, false, List, [], ◌∷◌, map, length,
  length-map, if◌then◌else◌, String, AppResult, ok, err, ◌>>=◌, AppError, bad_request, text, num,
  arith,
}
use tweet_db.Auth.{SessionRecord}
use tweet_db.Auth.Roles.{require_admin_session}
use tweet_db.Submit.Results.{Response, SubmitSummary, finish, summarize_results}
use tweet_db.Submit.Results.Summary.{summarize_results_counts}
use tweet_db.Submit.Prepare.{SubmitUser, prepare_users}
use tweet_db.Submit.Prepare.Users.{prepare_users_lem}
use tweet_db.Submit.Batch.{
  SubmitMedia, SubmitTweet, TweetPlace, ConvertedTweet, prepare_media, prepare_tweets,
}
use tweet_db.Submit.Batch.Within.{prepare_media-Within, prepare_tweets-Within}
use tweet_db.Submit.Execute.{Lists}
use tweet_db.Submit.Execute.Steps.{Store, execute_prepared_submit}
use tweet_db.Submit.Execute.Complete.{Sized, execute_prepared_submit-Sized}

pub record SubmitTweetRequest (P Q L : Type 0) : Type 0 where
  pub users : List SubmitUser
  pub tweets : List (SubmitTweet Q L)
  pub media : List (SubmitMedia P)

-- The outcome of the execution, none if it panicked.
abbrev pub finished : Lists → Response
finished l = record {
  users = map finish l.users;
  tweets = map finish l.tweets;
  media = map finish l.media;
}

abbrev pub respond : Option Lists → AppResult (Option (Response × SubmitSummary))
respond none = ok none
respond (some l) = ok (some (finished l, summarize_results (finished l)))

abbrev pub item_count : {P Q L : Type 0} → SubmitTweetRequest P Q L → ℕ
item_count payload = length payload.users + length payload.tweets + length payload.media

-- What a submission calls: the conversions, the store and the choice of a source.
module _ {S T M R V W E O N A F X P Q L : Type 0} (parse : String → Option ℕ)
    (to_string : AppError → String) (convert_user_snapshot : ℕ → SubmitUser → Option (AppResult S))
    (convert_user_stats : ℕ → SubmitUser → Option (AppResult T))
    (convert_media : ℕ → P → AppResult M) (convert_media_resource : ℕ → P → Option (AppResult R))
    (convert_tweet_place : L → AppResult (Option (TweetPlace V)))
    (convert_tweet : ℕ → ℕ → Option String → Q → AppResult (ConvertedTweet W E O N A F))
    (media_id : M → ℕ) (tweet_id : W → ℕ) (select_source : M → R → Option X)
    (is_active_transfer : Bool) (store : Store S T M R V W E O N A F X) where
  unfoldable pub prepare_and_execute : SubmitTweetRequest P Q L → Option Lists
  prepare_and_execute payload =
      execute_prepared_submit to_string media_id tweet_id select_source is_active_transfer store
        (prepare_users parse to_string convert_user_snapshot convert_user_stats payload.users)
        (prepare_media parse to_string convert_media convert_media_resource payload.media)
        (prepare_tweets parse to_string convert_tweet_place convert_tweet payload.tweets)

  unfoldable pub submit_tweets :
      ℕ
      → Option SessionRecord
      → SubmitTweetRequest P Q L
      → AppResult (Option (Response × SubmitSummary))
  submit_tweets max_items_per_batch session payload = require_admin_session session >>= λ s.
      if ltb max_items_per_batch (item_count payload)
      then err (
          bad_request (
            text "submit item count "
            ∷ num (item_count payload)
            ∷ text " exceeds ingest.max_items_per_batch"
            ∷ []))
      else respond (prepare_and_execute payload)

  prepare_and_execute-Sized :
      (payload : SubmitTweetRequest P Q L)
      → (after : Lists) × (prepare_and_execute payload ≡ some after)
        × Sized (length payload.users) (length payload.tweets) (length payload.media) after
  unfolding prepare_and_execute
  prepare_and_execute-Sized payload =
      let (sized, users, last, distinct, snapshots, stats) =
        prepare_users_lem parse to_string convert_user_snapshot convert_user_stats payload.users in
      execute_prepared_submit-Sized to_string media_id tweet_id select_source is_active_transfer
        store (length payload.users) (length payload.tweets) (length payload.media) _ _ _
        (record { sized = sized; users_within = users; snapshots = snapshots; stats = stats })
        (prepare_media-Within parse to_string convert_media convert_media_resource payload.media)
        (prepare_tweets-Within parse to_string convert_tweet_place convert_tweet payload.tweets)

  -- A submission by an administrator, with no more items than the limit, is answered without a panic,
  -- whatever the conversions and the store answer: with one result for each submitted user, tweet and
  -- media object, and a summary whose total is the number of items.
  pub submit_tweets_answers :
      (max_items_per_batch : ℕ) (s : SessionRecord) (payload : SubmitTweetRequest P Q L)
      → require_admin_session (some s) ≡ ok s
      → item_count payload ≤ max_items_per_batch
      → (response : Response) × (summary : SubmitSummary) × (submit_tweets max_items_per_batch
            (some s)
            payload
          ≡ ok (some (response, summary)))
        × (length response.users ≡ length payload.users)
        × (length response.tweets ≡ length payload.tweets)
        × (length response.media ≡ length payload.media)
        × (summary.total ≡ item_count payload)
  unfolding submit_tweets
  submit_tweets_answers max_items_per_batch s payload admin small =
      let (l, ran, sized) = prepare_and_execute-Sized payload in
      let few : ltb max_items_per_batch (item_count payload) ≡ false = ground arith in
      let us : length (map finish l.users) ≡ length payload.users =
        length-map finish l.users ∙ sized.users_sized in
      let ts : length (map finish l.tweets) ≡ length payload.tweets =
        length-map finish l.tweets ∙ sized.tweets_sized in
      let ms : length (map finish l.media) ≡ length payload.media =
        length-map finish l.media ∙ sized.media_sized in
      let total = (summarize_results_counts (finished l)).0 in
      (
        finished l,
        summarize_results (finished l),
        rw (admin, few, ran) refl,
        us,
        ts,
        ms,
        omega (arith, total, us, ts, ms),
      )
