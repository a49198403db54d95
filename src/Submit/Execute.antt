-- ===== src/Submit/Execute.antt =====
-- The writes of a prepared submission: server/src/tweet_submit/execute, and the handler,
-- server/src/tweet_submit/handler.rs. The answers of the store are parameters.
pub mod Shared
pub mod Transfers
pub mod Steps
pub mod Sound
pub mod Complete
pub mod Handler
use tweet_db.Base.{
  ℕ, Option, none, some, List, [], ◌∷◌, ◌++◌, map, String, AppResult, ok, err, AppError, text,
}
use tweet_db.Submit.Results.{Builder, Operation}
use tweet_db.Submit.Writes.{Indexed, and_then}

-- `user_results`, `tweet_results` and `media_results`.
pub record Lists : Type 0 where
  pub users : List Builder
  pub tweets : List Builder
  pub media : List Builder

-- A batch of writes changes the results or panics.
abbrev pub Step : Type 0
Step = Lists → Option Lists

abbrev pub on_users : (List Builder → Option (List Builder)) → Step
on_users f l = and_then (λ users. some (record l { users = users })) (f l.users)

abbrev pub on_tweets : (List Builder → Option (List Builder)) → Step
on_tweets f l = and_then (λ tweets. some (record l { tweets = tweets })) (f l.tweets)

abbrev pub on_media : (List Builder → Option (List Builder)) → Step
on_media f l = and_then (λ media. some (record l { media = media })) (f l.media)

unfoldable pub run_steps : List Step → Step
run_steps [] l = some l
run_steps (step ∷ steps) l = and_then (run_steps steps) (step l)

abbrev pub at : ℕ → Operation → Indexed Operation
at index op = record { index = index; value = op }

unfoldable pub at_each : Operation → List ℕ → List (Indexed Operation)
at_each op [] = []
at_each op (i ∷ indices) = at i op ∷ at_each op indices

unfoldable pub values : {Z : Type 0} → List (Indexed Z) → List Z
values [] = []
values (item ∷ items) = item.value ∷ values items

unfoldable pub indices : {Z : Type 0} → List (Indexed Z) → List ℕ
indices [] = []
indices (item ∷ items) = item.index ∷ indices items
