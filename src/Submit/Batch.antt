-- ===== src/Submit/Batch.antt =====
-- The loops over the submitted media and tweets, server/src/tweet_submit/prepare.rs, and what they
-- prepare, server/src/tweet_submit/batch.rs. The conversions of tweet_submit/convert are parameters.
pub mod Within
use tweet_db.Base.{
  ℕ, suc, Option, none, some, Bool, true, false, List, [], ◌∷◌, ◌++◌, map, ◌==◌, if◌then◌else◌,
  String, AppResult, ok, err, AppError,
}
use tweet_db.Base.Dict.{Dict, lookup}
use tweet_db.Submit.Results.{Builder, new, operation, skip, fail, fatal}
use tweet_db.Submit.Writes.{Indexed}
use tweet_db.Submit.Prepare.{
  TwitterUser, is_index, add_converted, parse_i64_id, collect_last_valid_i64_indices,
}

-- The body of a submitted object is what the conversions read.
pub record SubmitMedia (P : Type 0) : Type 0 where
  pub id : String
  pub body : P

pub record SubmitTweet (P L : Type 0) : Type 0 where
  pub id : String
  pub author_id : String
  pub place : Option L
  pub body : P

pub record PreparedMedia (M R : Type 0) : Type 0 where
  pub results : List Builder
  pub media : List (Indexed M)
  pub resources : List (Indexed R)

-- `value.place` of a converted place is its id.
pub record TweetPlace (V : Type 0) : Type 0 where
  pub id : String
  pub value : V

-- ConvertedTweet, whose references are `relations`.
pub record ConvertedTweet (W E O N A F : Type 0) : Type 0 where
  pub tweet : W
  pub edit : Option E
  pub policy : Option O
  pub stats : Option A
  pub community_note : Option N
  pub relations : F

pub record Relations (F : Type 0) : Type 0 where
  pub tweet_id : ℕ
  pub refs : F

pub record PreparedTweets (V W E O N A F : Type 0) : Type 0 where
  pub results : List Builder
  pub authors : List (Indexed TwitterUser)
  pub places : List (Indexed (TweetPlace V))
  pub tweets : List (Indexed W)
  pub edits : List (Indexed E)
  pub policies : List (Indexed O)
  pub community_notes : List (Indexed N)
  pub stats : List (Indexed A)
  pub relations : List (Indexed (Relations F))

-- `for (index, item) in items.into_iter().enumerate()`
unfoldable pub each_from : {X Y : Type 0} → (ℕ → X → Y → Y) → ℕ → List X → Y → Y
each_from step index [] acc = acc
each_from step index (x ∷ xs) acc = each_from step (suc index) xs (step index x acc)

abbrev pub push : {Z : Type 0} → ℕ → Z → List (Indexed Z) → List (Indexed Z)
push index value items = items ++ (record { index = index; value = value } ∷ [])

abbrev pub push_some : {Z : Type 0} → ℕ → Option Z → List (Indexed Z) → List (Indexed Z)
push_some index none items = items
push_some index (some value) items = push index value items

abbrev pub shadowed : String → Builder
shadowed id = operation (skip "input" "shadowed_by_duplicate_input") (new (some id))

module _ (parse : String → Option ℕ) (to_string : AppError → String) where
  abbrev pub unusable : String → AppError → Builder
  unusable id e = fatal (to_string e) (new (some id))

  module _ {P M R : Type 0} (convert_media : ℕ → P → AppResult M)
      (convert_media_resource : ℕ → P → Option (AppResult R)) where
    unfoldable pub media_valid : ℕ → ℕ → SubmitMedia P → PreparedMedia M R → PreparedMedia M R
    media_valid index id m acc =
        let (media, result) =
          add_converted to_string "media" index (some (convert_media id m.body)) acc.media
            (new (some m.id)) in
        let (resources, final) =
          add_converted to_string "media_resource" index (convert_media_resource id m.body)
            acc.resources result in
        record { results = acc.results ++ (final ∷ []); media = media; resources = resources }

    unfoldable pub media_parsed :
        Dict ℕ → ℕ → AppResult ℕ → SubmitMedia P → PreparedMedia M R → PreparedMedia M R
    media_parsed last index (err e) m acc = record acc {
      results = acc.results ++ (unusable m.id e ∷ []);
    }
    media_parsed last index (ok id) m acc =
        let valid = media_valid index id m acc in
        if is_index (lookup id last) index
        then valid
        else record acc { results = acc.results ++ (shadowed m.id ∷ []) }

    abbrev pub media_step : Dict ℕ → ℕ → SubmitMedia P → PreparedMedia M R → PreparedMedia M R
    media_step last index m acc = media_parsed last index (parse_i64_id parse m.id "media.id") m acc

    unfoldable pub prepare_media : List (SubmitMedia P) → PreparedMedia M R
    prepare_media media =
        each_from
          (media_step (collect_last_valid_i64_indices parse (map (λ m. m.id) media) "media.id")) 0
          media (record { results = []; media = []; resources = [] })

  module _ {P L V W E O N A F : Type 0}
      (convert_tweet_place : L → AppResult (Option (TweetPlace V)))
      (convert_tweet : ℕ → ℕ → Option String → P → AppResult (ConvertedTweet W E O N A F)) where
    abbrev pub converted_place : Option L → AppResult (Option (TweetPlace V))
    converted_place none = ok none
    converted_place (some place) = convert_tweet_place place

    abbrev pub place_result : AppResult (Option (TweetPlace V)) → Builder → Builder
    place_result (ok place) result = result
    place_result (err e) result = operation (fail "tweet_place" (to_string e)) result

    abbrev pub found_place : AppResult (Option (TweetPlace V)) → Option (TweetPlace V)
    found_place (ok place) = place
    found_place (err e) = none

    abbrev pub place_id : Option (TweetPlace V) → Option String
    place_id none = none
    place_id (some place) = some place.id

    -- From the conversion of the tweet on.
    unfoldable pub tweet_converted :
        ℕ
        → ℕ
        → AppResult (ConvertedTweet W E O N A F)
        → Builder
        → PreparedTweets V W E O N A F
        → PreparedTweets V W E O N A F
    tweet_converted index id (err e) result acc = record acc {
      results = acc.results ++ (operation (fail "tweet" (to_string e)) result ∷ []);
    }
    tweet_converted index id (ok c) result acc = record {
      results = acc.results ++ (result ∷ []);
      authors = acc.authors;
      places = acc.places;
      tweets = push index c.tweet acc.tweets;
      edits = push_some index c.edit acc.edits;
      policies = push_some index c.policy acc.policies;
      community_notes = push_some index c.community_note acc.community_notes;
      stats = push_some index c.stats acc.stats;
      relations = push index (record { tweet_id = id; refs = c.relations }) acc.relations;
    }

    unfoldable pub tweet_authored :
        ℕ
        → ℕ
        → AppResult ℕ
        → SubmitTweet P L
        → PreparedTweets V W E O N A F
        → PreparedTweets V W E O N A F
    tweet_authored index id (err e) t acc = record acc {
      results = acc.results ++ (unusable t.id e ∷ []);
    }
    tweet_authored index id (ok author) t acc =
        let place = converted_place t.place in
        let found = found_place place in
        tweet_converted index id (convert_tweet id author (place_id found) t.body)
          (place_result place (new (some t.id)))
          (record acc {
            authors = push index (record { id = author; registered_at = none }) acc.authors;
            places = push_some index found acc.places;
          })

    unfoldable pub tweet_parsed :
        Dict ℕ
        → ℕ
        → AppResult ℕ
        → SubmitTweet P L
        → PreparedTweets V W E O N A F
        → PreparedTweets V W E O N A F
    tweet_parsed last index (err e) t acc = record acc {
      results = acc.results ++ (unusable t.id e ∷ []);
    }
    tweet_parsed last index (ok id) t acc =
        let valid =
          tweet_authored index id (parse_i64_id parse t.author_id "tweet.authorId") t acc in
        if is_index (lookup id last) index
        then valid
        else record acc { results = acc.results ++ (shadowed t.id ∷ []) }

    abbrev pub tweet_step :
        Dict ℕ → ℕ → SubmitTweet P L → PreparedTweets V W E O N A F → PreparedTweets V W E O N A F
    tweet_step last index t acc = tweet_parsed last index (parse_i64_id parse t.id "tweet.id") t acc

    unfoldable pub prepare_tweets : List (SubmitTweet P L) → PreparedTweets V W E O N A F
    prepare_tweets tweets =
        each_from
          (tweet_step (collect_last_valid_i64_indices parse (map (λ t. t.id) tweets) "tweet.id")) 0
          tweets
          (record {
            results = [];
            authors = [];
            places = [];
            tweets = [];
            edits = [];
            policies = [];
            community_notes = [];
            stats = [];
            relations = [];
          })
