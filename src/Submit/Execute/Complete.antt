-- ===== src/Submit/Execute/Complete.antt =====
-- The whole execution of a prepared submission.
use mathlib.Core.Path.{subst}
use tweet_db.Base.{
  ℕ, ◌≡◌, refl, sym, ◌∙◌, Option, some, Bool, List, [], ◌∷◌, ◌++◌, length, String, AppResult, ok,
  err, AppError, All, All-append,
}
use tweet_db.Submit.Results.{Builder, Operation, fail}
use tweet_db.Submit.Writes.{
  Indexed, ConditionalWrite, record_each, write_status_batch, write_changed_batch,
}
use tweet_db.Submit.Writes.Recorded.{
  record_each-Records, write_status_batch-Records, write_changed_batch-Records,
}
use tweet_db.Submit.Prepare.{TwitterUser, Prepared}
use tweet_db.Submit.Prepare.Users.{Within}
use tweet_db.Submit.Batch.{PreparedMedia, PreparedTweets}
use tweet_db.Submit.Batch.Within.{MediaWithin, TweetsWithin}
use tweet_db.Submit.Execute.{
  Lists, Step, on_users, on_tweets, on_media, run_steps, at_each, indices,
}
use tweet_db.Submit.Execute.Shared.{combine_users}
use tweet_db.Submit.Execute.Steps.{
  Store, unique, record_all, preload_failed, write_users, write_media, write_tweets, steps_after,
  execute_prepared_submit,
}
use tweet_db.Submit.Execute.Sound.{
  Below, at_each-Within, indices-Below, unique-Below, combine_users-Placed, combine_authors-Placed,
  write_combined_users-Within, write_combined_authors-Within, dedupe_places-Located,
  write_places-Within, replace_relations-Within, transfer_notes-Within, transfer_tasks-Within,
}

-- A change of a list of results neither panics nor changes how many there are.
abbrev pub Fits : ℕ → (List Builder → Option (List Builder)) → Type 0
Fits n f =
    (results : List Builder)
    → length results ≡ n
    → (after : List Builder) × (f results ≡ some after) × (length after ≡ n)

-- There are so many results of users, tweets and media.
pub record Sized (users tweets media : ℕ) (l : Lists) : Type 0 where
  pub users_sized : length l.users ≡ users
  pub tweets_sized : length l.tweets ≡ tweets
  pub media_sized : length l.media ≡ media

module _ {Z : Type 0} where
  record-Fits :
      (n : ℕ) (op : Z → Operation) (items : List (Indexed Z))
      → Within n items
      → Fits n (record_each op items)
  record-Fits n op items h results sized =
      let (after, e, (len, at)) =
        record_each-Records op items results (subst (λ k. Within k items) (sym sized) h) in
      (after, e, len ∙ sized)

  status-Fits :
      (n : ℕ) (to_string : AppError → String) (name : String)
      → (answer : AppResult (Z → Option ConditionalWrite)) (items : List (Indexed Z))
      → Within n items
      → Fits n (write_status_batch to_string name answer items)
  status-Fits n to_string name answer items h results sized =
      let (after, e, (len, at)) =
        write_status_batch-Records to_string name answer items results
          (subst (λ k. Within k items) (sym sized) h) in
      (after, e, len ∙ sized)

  changed-Fits :
      (n : ℕ) (to_string : AppError → String) (name : String) (id : Z → ℕ)
      → (answer : AppResult (List ℕ)) (items : List (Indexed Z)) → Within n items
      → Fits n (write_changed_batch to_string name id answer items)
  changed-Fits n to_string name id answer items h results sized =
      let (after, e, (len, at)) =
        write_changed_batch-Records to_string name id answer items results
          (subst (λ k. Within k items) (sym sized) h) in
      (after, e, len ∙ sized)

and-Below :
    {Z : Type 0} (n : ℕ) (items : List (Indexed Z)) (rest : List ℕ)
    → Within n items
    → Below n rest
    → Below n (indices items ++ rest)
and-Below n items rest h below = All-append _ (indices items) rest (indices-Below n items h) below

marked-Fits :
    (n : ℕ) (op : Operation) (is : List ℕ)
    → Below n is
    → Fits n (record_all (at_each op (unique is)))
marked-Fits n op is h = record-Fits n _ _ (at_each-Within n op (unique is) (unique-Below n is h))

module _ (users tweets media : ℕ) where
  abbrev pub Safe : Step → Type 0
  Safe step =
      (l : Lists)
      → Sized users tweets media l
      → (after : Lists) × (step l ≡ some after) × Sized users tweets media after

  users-Safe : (f : List Builder → Option (List Builder)) → Fits users f → Safe (on_users f)
  users-Safe f fits l h =
      let (after, e, sized) = fits l.users h.users_sized in
      (
        record l { users = after },
        rw e refl,
        record { users_sized = sized; tweets_sized = h.tweets_sized; media_sized = h.media_sized },
      )

  tweets-Safe : (f : List Builder → Option (List Builder)) → Fits tweets f → Safe (on_tweets f)
  tweets-Safe f fits l h =
      let (after, e, sized) = fits l.tweets h.tweets_sized in
      (
        record l { tweets = after },
        rw e refl,
        record { users_sized = h.users_sized; tweets_sized = sized; media_sized = h.media_sized },
      )

  media-Safe : (f : List Builder → Option (List Builder)) → Fits media f → Safe (on_media f)
  media-Safe f fits l h =
      let (after, e, sized) = fits l.media h.media_sized in
      (
        record l { media = after },
        rw e refl,
        record { users_sized = h.users_sized; tweets_sized = h.tweets_sized; media_sized = sized },
      )

  pub run_steps-Safe : (steps : List Step) → All Safe steps → Safe (run_steps steps)
  unfolding run_steps
  run_steps-Safe [] all l h = (l, refl, h)
  run_steps-Safe (step ∷ steps) all l h =
      let (next, e, sized) = all.0 l h in
      let (after, f, final) = run_steps-Safe steps all.1 next sized in (after, rw e f, final)

-- What the preparation hands over points at results that exist.
pub record UsersWithin {S T : Type 0} (k : ℕ) (users : Prepared S T) : Type 0 where
  pub sized : length users.results ≡ k
  pub users_within : Within k users.users
  pub snapshots : Within k users.snapshots
  pub stats : Within k users.stats

module _ {S T M R V W E O N A F X : Type 0} (to_string : AppError → String) (media_id : M → ℕ)
    (tweet_id : W → ℕ) (select_source : M → R → Option X) (is_active : Bool)
    (store : Store S T M R V W E O N A F X) (u t m : ℕ) where
  preload_failed-Safe :
      (op : Operation) (users : Prepared S T) (media : PreparedMedia M R)
      → (tweets : PreparedTweets V W E O N A F) → UsersWithin u users
      → MediaWithin m media
      → TweetsWithin t tweets
      → All (Safe u t m) (
          preload_failed to_string media_id tweet_id select_source is_active store op users media
            tweets)
  unfolding preload_failed
  preload_failed-Safe op users media tweets uh mh th = (
    users-Safe u t m _ (
        marked-Fits u op _ (
          and-Below u users.users _ uh.users_within
            (and-Below u users.snapshots _ uh.snapshots (indices-Below u users.stats uh.stats)))),
    (
      tweets-Safe u t m _ (
          marked-Fits t op _ (
            and-Below t tweets.authors _ th.authors (
              and-Below t tweets.places _ th.places (
                and-Below t tweets.tweets _ th.tweets (
                  and-Below t tweets.edits _ th.edits (
                    and-Below t tweets.policies _ th.policies (
                      and-Below t tweets.community_notes _ th.community_notes (
                        and-Below t tweets.stats _ th.stats
                          (indices-Below t tweets.relations th.relations))))))))),
      (
        media-Safe u t m _ (
            marked-Fits m op _
              (and-Below m media.media _ mh.media (indices-Below m media.resources mh.resources))),
        tt,
      ),
    ),
  )

  write_users-Safe :
      (users : Prepared S T) (authors : List (Indexed TwitterUser))
      → UsersWithin u users
      → Within t authors
      → All
          (Safe u t m)
          (write_users to_string media_id tweet_id select_source is_active store users authors)
  unfolding write_users
  write_users-Safe users authors h ah =
      let placed =
        combine_authors-Placed u t authors (combine_users users.users []) ah
          (combine_users-Placed u t users.users [] h.users_within tt) in
      (
        users-Safe u t m _ (record-Fits u _ _ (write_combined_users-Within u t _ _ placed)),
        (
          tweets-Safe u t m _ (record-Fits t _ _ (write_combined_authors-Within u t _ _ placed)),
          (
            users-Safe u t m _ (status-Fits u to_string _ _ users.snapshots h.snapshots),
            (users-Safe u t m _ (status-Fits u to_string _ _ users.stats h.stats), tt),
          ),
        ),
      )

  write_media-Safe :
      (media : PreparedMedia M R)
      → MediaWithin m media
      → All
          (Safe u t m)
          (write_media to_string media_id tweet_id select_source is_active store media)
  unfolding write_media
  write_media-Safe media h = (
    media-Safe u t m _ (changed-Fits m to_string _ media_id _ media.media h.media),
    (
      media-Safe u t m _ (status-Fits m to_string _ _ media.resources h.resources),
      (
        media-Safe u t m _ (
            record-Fits m _ _
              (transfer_notes-Within select_source m is_active _ _ media.resources h.resources)),
        (
          media-Safe u t m _ (
              record-Fits m _ _
                (transfer_tasks-Within select_source m is_active _ _ media.resources h.resources)),
          tt,
        ),
      ),
    ),
  )

  write_tweets-Safe :
      (tweets : PreparedTweets V W E O N A F)
      → TweetsWithin t tweets
      → All
          (Safe u t m)
          (write_tweets to_string media_id tweet_id select_source is_active store tweets)
  unfolding write_tweets
  write_tweets-Safe tweets h = (
    tweets-Safe u t m _ (
        record-Fits t _ _
          (write_places-Within t _ _ (dedupe_places-Located t tweets.places [] h.places tt))),
    (
      tweets-Safe u t m _ (changed-Fits t to_string _ tweet_id _ tweets.tweets h.tweets),
      (
        tweets-Safe u t m _ (status-Fits t to_string _ _ tweets.edits h.edits),
        (
          tweets-Safe u t m _ (status-Fits t to_string _ _ tweets.policies h.policies),
          (
            tweets-Safe u t m _
                (status-Fits t to_string _ _ tweets.community_notes h.community_notes),
            (
              tweets-Safe u t m _ (status-Fits t to_string _ _ tweets.stats h.stats),
              (
                tweets-Safe u t m _ (
                    record-Fits t _ _
                      (replace_relations-Within to_string t _ tweets.relations h.relations)),
                tt,
              ),
            ),
          ),
        ),
      ),
    ),
  )

  steps_after-Safe :
      (loaded : AppResult (Unit {0})) (users : Prepared S T) (media : PreparedMedia M R)
      → (tweets : PreparedTweets V W E O N A F) → UsersWithin u users
      → MediaWithin m media
      → TweetsWithin t tweets
      → All (Safe u t m) (
          steps_after to_string media_id tweet_id select_source is_active store loaded users media
            tweets)
  steps_after-Safe (err e) users media tweets uh mh th =
      preload_failed-Safe (fail "dict_preload" (to_string e)) users media tweets uh mh th
  steps_after-Safe (ok loaded) users media tweets uh mh th =
      All-append _
        (write_users to_string media_id tweet_id select_source is_active store users tweets.authors)
        _ (write_users-Safe users tweets.authors uh th.authors)
        (All-append _ (write_media to_string media_id tweet_id select_source is_active store media)
          _ (write_media-Safe media mh) (write_tweets-Safe tweets th))

  pub execute_prepared_submit-Sized :
      (users : Prepared S T) (media : PreparedMedia M R) (tweets : PreparedTweets V W E O N A F)
      → UsersWithin u users
      → MediaWithin m media
      → TweetsWithin t tweets
      → (after : Lists) × (execute_prepared_submit to_string media_id tweet_id select_source
            is_active store users media tweets
          ≡ some after)
        × Sized u t m after
  unfolding execute_prepared_submit
  execute_prepared_submit-Sized users media tweets uh mh th =
      run_steps-Safe u t m _ (steps_after-Safe _ users media tweets uh mh th)
        (record { users = users.results; tweets = tweets.results; media = media.results })
        (record { users_sized = uh.sized; tweets_sized = th.sized; media_sized = mh.sized })
