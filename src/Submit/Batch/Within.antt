-- ===== src/Submit/Batch/Within.antt =====
-- The prepared media and tweets point at results that exist.
use mathlib.Core.Path.{subst}
use tweet_db.Base.{
  ℕ, suc, ◌+◌, ◌≡◌, refl, Option, none, some, List, [], ◌∷◌, ◌++◌, map, length, length-append,
  String, AppResult, ok, err, AppError, All-append, Bool-cases, inl, inr, arith,
}
use tweet_db.Base.Dict.{Dict, lookup}
use tweet_db.Submit.Results.{Builder}
use tweet_db.Submit.Writes.{Indexed}
use tweet_db.Submit.Prepare.{is_index, parse_i64_id, collect_last_valid_i64_indices}
use tweet_db.Submit.Prepare.Users.{Within, Within-suc, add_converted-Within}
use tweet_db.Submit.Batch.{
  SubmitMedia, SubmitTweet, PreparedMedia, PreparedTweets, TweetPlace, ConvertedTweet, each_from,
  push, push_some, media_valid, media_parsed, media_step, prepare_media, tweet_converted,
  tweet_authored, tweet_parsed, tweet_step, prepare_tweets,
}

pub each_from_keeps :
    {X Y : Type 0} (P : ℕ → Y → Type 0) (step : ℕ → X → Y → Y)
    → ((index : ℕ) (x : X) (acc : Y) → P index acc → P (suc index) (step index x acc))
    → (index : ℕ) (xs : List X) (acc : Y) → P index acc
    → P (index + length xs) (each_from step index xs acc)
unfolding each_from
each_from_keeps P step keep index [] acc h = subst (λ k. P k acc) (omega arith) h
each_from_keeps P step keep index (x ∷ xs) acc h =
    subst (λ k. P k (each_from step (suc index) xs (step index x acc))) (omega arith)
      (each_from_keeps P step keep (suc index) xs (step index x acc) (keep index x acc h))

one_more :
    (results : List Builder) (b : Builder) {k : ℕ}
    → length results ≡ k
    → length (results ++ (b ∷ [])) ≡ suc k
one_more results b h = omega (arith, h, length-append results (b ∷ []))

push-Within :
    {Z : Type 0} (index : ℕ) (value : Z) (items : List (Indexed Z))
    → Within index items
    → Within (suc index) (push index value items)
push-Within index value items h =
    All-append _ items (record { index = index; value = value } ∷ []) (Within-suc index items h)
      (omega arith, tt)

push_some-Within :
    {Z : Type 0} (index : ℕ) (o : Option Z) (items : List (Indexed Z))
    → Within index items
    → Within (suc index) (push_some index o items)
push_some-Within index none items h = Within-suc index items h
push_some-Within index (some value) items h = push-Within index value items h

pub record MediaWithin {M R : Type 0} (k : ℕ) (acc : PreparedMedia M R) : Type 0 where
  pub sized : length acc.results ≡ k
  pub media : Within k acc.media
  pub resources : Within k acc.resources

pub record TweetsWithin {V W E O N A F : Type 0} (k : ℕ) (acc : PreparedTweets V W E O N A F)
    : Type 0 where
  pub sized : length acc.results ≡ k
  pub authors : Within k acc.authors
  pub places : Within k acc.places
  pub tweets : Within k acc.tweets
  pub edits : Within k acc.edits
  pub policies : Within k acc.policies
  pub community_notes : Within k acc.community_notes
  pub stats : Within k acc.stats
  pub relations : Within k acc.relations

skip-MediaWithin :
    {M R : Type 0} (k : ℕ) (b : Builder) (acc : PreparedMedia M R)
    → MediaWithin k acc
    → MediaWithin (suc k) (record acc { results = acc.results ++ (b ∷ []) })
skip-MediaWithin k b acc h = record {
  sized = one_more acc.results b h.sized;
  media = Within-suc k acc.media h.media;
  resources = Within-suc k acc.resources h.resources;
}

skip-TweetsWithin :
    {V W E O N A F : Type 0} (k : ℕ) (b : Builder) (acc : PreparedTweets V W E O N A F)
    → TweetsWithin k acc
    → TweetsWithin (suc k) (record acc { results = acc.results ++ (b ∷ []) })
skip-TweetsWithin k b acc h = record {
  sized = one_more acc.results b h.sized;
  authors = Within-suc k acc.authors h.authors;
  places = Within-suc k acc.places h.places;
  tweets = Within-suc k acc.tweets h.tweets;
  edits = Within-suc k acc.edits h.edits;
  policies = Within-suc k acc.policies h.policies;
  community_notes = Within-suc k acc.community_notes h.community_notes;
  stats = Within-suc k acc.stats h.stats;
  relations = Within-suc k acc.relations h.relations;
}

module _ (parse : String → Option ℕ) (to_string : AppError → String) where
  module _ {P M R : Type 0} (convert_media : ℕ → P → AppResult M)
      (convert_media_resource : ℕ → P → Option (AppResult R)) where
    media_parsed-Within :
        (last : Dict ℕ) (index : ℕ) (r : AppResult ℕ) (m : SubmitMedia P) (acc : PreparedMedia M R)
        → MediaWithin index acc
        → MediaWithin
            (suc index)
            (media_parsed parse to_string convert_media convert_media_resource last index r m acc)
    unfolding media_parsed media_valid
    media_parsed-Within last index (err e) m acc h = skip-MediaWithin index _ acc h
    media_parsed-Within last index (ok id) m acc h =
        elim (Bool-cases (is_index (lookup id last) index)) [
          | inr other ↦ rw other (skip-MediaWithin index _ acc h)
          | inl mine ↦ rw mine (record {
            sized = one_more acc.results _ h.sized;
            media = add_converted-Within to_string _ index _ acc.media _ h.media;
            resources = add_converted-Within to_string _ index _ acc.resources _ h.resources;
          })
        ]

    -- There is one result for each submitted media object, and what is handed to the writes points at
    -- results that exist.
    pub prepare_media-Within :
        (media : List (SubmitMedia P))
        → MediaWithin
            (length media)
            (prepare_media parse to_string convert_media convert_media_resource media)
    unfolding prepare_media
    prepare_media-Within media =
        let last = collect_last_valid_i64_indices parse (map (λ m. m.id) media) "media.id" in
        subst
          (λ k.
            MediaWithin k
              (prepare_media parse to_string convert_media convert_media_resource media))
          (omega arith)
          (each_from_keeps MediaWithin
            (media_step parse to_string convert_media convert_media_resource last)
            (λ index m acc h.
              media_parsed-Within last index (parse_i64_id parse m.id "media.id") m acc h)
            0 media (record { results = []; media = []; resources = [] })
            (record { sized = refl; media = tt; resources = tt }))

  module _ {P L V W E O N A F : Type 0}
      (convert_tweet_place : L → AppResult (Option (TweetPlace V)))
      (convert_tweet : ℕ → ℕ → Option String → P → AppResult (ConvertedTweet W E O N A F)) where
    tweet_converted-Within :
        (index id author : ℕ) (place : Option (TweetPlace V))
        (r : AppResult (ConvertedTweet W E O N A F)) (b : Builder)
        → (acc : PreparedTweets V W E O N A F) → TweetsWithin index acc
        → TweetsWithin (suc index) (
            tweet_converted parse to_string convert_tweet_place convert_tweet index id r b
              (record acc {
                authors = push index (record { id = author; registered_at = none }) acc.authors;
                places = push_some index place acc.places;
              }))
    unfolding tweet_converted
    tweet_converted-Within index id author place (err e) b acc h = record {
      sized = one_more acc.results _ h.sized;
      authors = push-Within index _ acc.authors h.authors;
      places = push_some-Within index place acc.places h.places;
      tweets = Within-suc index acc.tweets h.tweets;
      edits = Within-suc index acc.edits h.edits;
      policies = Within-suc index acc.policies h.policies;
      community_notes = Within-suc index acc.community_notes h.community_notes;
      stats = Within-suc index acc.stats h.stats;
      relations = Within-suc index acc.relations h.relations;
    }
    tweet_converted-Within index id author place (ok c) b acc h = record {
      sized = one_more acc.results b h.sized;
      authors = push-Within index _ acc.authors h.authors;
      places = push_some-Within index place acc.places h.places;
      tweets = push-Within index c.tweet acc.tweets h.tweets;
      edits = push_some-Within index c.edit acc.edits h.edits;
      policies = push_some-Within index c.policy acc.policies h.policies;
      community_notes =
          push_some-Within index c.community_note acc.community_notes h.community_notes;
      stats = push_some-Within index c.stats acc.stats h.stats;
      relations = push-Within index _ acc.relations h.relations;
    }

    tweet_authored-Within :
        (index id : ℕ) (r : AppResult ℕ) (t : SubmitTweet P L) (acc : PreparedTweets V W E O N A F)
        → TweetsWithin index acc
        → TweetsWithin
            (suc index)
            (tweet_authored parse to_string convert_tweet_place convert_tweet index id r t acc)
    unfolding tweet_authored
    tweet_authored-Within index id (err e) t acc h = skip-TweetsWithin index _ acc h
    tweet_authored-Within index id (ok author) t acc h =
        tweet_converted-Within index id author _ _ _ acc h

    tweet_parsed-Within :
        (last : Dict ℕ) (index : ℕ) (r : AppResult ℕ) (t : SubmitTweet P L)
        → (acc : PreparedTweets V W E O N A F) → TweetsWithin index acc
        → TweetsWithin
            (suc index)
            (tweet_parsed parse to_string convert_tweet_place convert_tweet last index r t acc)
    unfolding tweet_parsed
    tweet_parsed-Within last index (err e) t acc h = skip-TweetsWithin index _ acc h
    tweet_parsed-Within last index (ok id) t acc h =
        elim (Bool-cases (is_index (lookup id last) index)) [
          | inl mine ↦ rw mine (tweet_authored-Within index id _ t acc h)
          | inr other ↦ rw other (skip-TweetsWithin index _ acc h)
        ]

    -- There is one result for each submitted tweet, and what is handed to the writes points at results
    -- that exist.
    pub prepare_tweets-Within :
        (tweets : List (SubmitTweet P L))
        → TweetsWithin
            (length tweets)
            (prepare_tweets parse to_string convert_tweet_place convert_tweet tweets)
    unfolding prepare_tweets
    prepare_tweets-Within tweets =
        let last = collect_last_valid_i64_indices parse (map (λ t. t.id) tweets) "tweet.id" in
        subst
          (λ k.
            TweetsWithin k
              (prepare_tweets parse to_string convert_tweet_place convert_tweet tweets))
          (omega arith)
          (each_from_keeps TweetsWithin
            (tweet_step parse to_string convert_tweet_place convert_tweet last)
            (λ index t acc h.
              tweet_parsed-Within last index (parse_i64_id parse t.id "tweet.id") t acc h)
            0 tweets _
            (record {
              sized = refl;
              authors = tt;
              places = tt;
              tweets = tt;
              edits = tt;
              policies = tt;
              community_notes = tt;
              stats = tt;
              relations = tt;
            }))
