-- ===== src/Tests/Submissions.antt =====
-- The results of two submitted objects.
use tweet_db.Base.{
  ℕ, ◌+◌, ◌≡◌, ◌↔◌, Option, none, some, List, [], ◌∷◌, AppResult, ok, AppError, String, arith,
}
use tweet_db.Base.{length, All, map, refl, same_text, if◌then◌else◌}
use tweet_db.Base.Dict.{lookup, insert}
use tweet_db.Submit.Prepare.{
  SubmitUser, prepare_users, prepare_from, prepare_parsed, prepare_valid, add_converted,
  collect_last_valid_i64_indices, collect_from, parse_i64_id,
}
use tweet_db.Submit.Prepare.Users.{Within, Last, DistinctIds, prepare_users_lem}
use tweet_db.Submit.Results.{
  Builder, Response, accepted, skipped, failed, all_accepted, all_skipped, partial, any_failed,
  accept, fail, finish, summarize_results,
}
use tweet_db.Submit.Results.Summary.{Lacks, count_of, finish_status, summarize_results_counts}
use tweet_db.Submit.Writes.{
  ConditionalWrite, skipped_unchanged, Indexed, write_status_batch, status_operation,
}
use tweet_db.Submit.Writes.Recorded.{Records, write_status_batch-Records}

abbrev first : Builder
first = record {
  id = some "1";
  operations =
      accept "tweet" "inserted_or_filled" ∷ fail "tweet_stats" "missing batch write status" ∷ [];
  fatal_error = none;
}

abbrev second : Builder
second = record { id = some "2"; operations = []; fatal_error = none }

abbrev response : Response
response = record { users = []; tweets = finish first ∷ finish second ∷ []; media = [] }

abbrev item : Indexed ℕ
item = record { index = 1; value = 40 }

abbrev to_string : AppError → String
to_string e = "failed"

abbrev answer : AppResult (ℕ → Option ConditionalWrite)
answer = ok (λ v. some skipped_unchanged)

finish_status_example :
    (((finish first).status ≡ all_accepted) ↔ (
      Lacks failed first.operations
      × (first.fatal_error ≡ none)
      × ¬ Lacks accepted first.operations))
    × (((finish first).status ≡ all_skipped) ↔ (
        Lacks failed first.operations
        × (first.fatal_error ≡ none)
        × Lacks accepted first.operations))
    × (((finish first).status ≡ partial) ↔ (
        ¬ Lacks failed first.operations
        × ¬ (Lacks accepted first.operations × Lacks skipped first.operations)))
finish_status_example = finish_status first

summarize_results_counts_example :
    ((summarize_results response).total ≡ 0 + 2 + 0)
    × ((summarize_results response).accepted
        ≡ count_of all_accepted (finish first ∷ finish second ∷ []))
    × ((summarize_results response).skipped
        ≡ count_of all_skipped (finish first ∷ finish second ∷ []))
    × ((summarize_results response).partial ≡ count_of partial (finish first ∷ finish second ∷ []))
    × ((summarize_results response).failed
        ≡ count_of any_failed (finish first ∷ finish second ∷ []))
summarize_results_counts_example = summarize_results_counts response

write_status_batch-Records_example :
    (after : List Builder) × (write_status_batch to_string "tweet_stats" answer
        (item ∷ [])
        (first ∷ second ∷ [])
      ≡ some after)
    × Records
        (status_operation to_string "tweet_stats" answer)
        (item ∷ [])
        (first ∷ second ∷ [])
        after
write_status_batch-Records_example =
    write_status_batch-Records to_string "tweet_stats" answer (item ∷ []) (first ∷ second ∷ [])
      (omega arith, tt)

abbrev same_user : List SubmitUser
same_user =
    record { id = "7"; registered_at = none }
    ∷ record { id = "7"; registered_at = some 3 }
    ∷ record { id = "x"; registered_at = none }
    ∷ []

abbrev parse : String → Option ℕ
parse value = if same_text value "7" then some 7 else none

abbrev no_part : ℕ → SubmitUser → Option (AppResult ℕ)
no_part id user = none

prepare_users_lem_example :
    (length (prepare_users parse to_string no_part no_part same_user).results ≡ 3)
    × Within 3 (prepare_users parse to_string no_part no_part same_user).users
    × All
        (Last (collect_last_valid_i64_indices parse ("7" ∷ "7" ∷ "x" ∷ []) "user.id"))
        (prepare_users parse to_string no_part no_part same_user).users
    × DistinctIds (prepare_users parse to_string no_part no_part same_user).users
    × Within 3 (prepare_users parse to_string no_part no_part same_user).snapshots
    × Within 3 (prepare_users parse to_string no_part no_part same_user).stats
prepare_users_lem_example = prepare_users_lem parse to_string no_part no_part same_user

-- The second of the two users with the same id is prepared.
prepared_second :
    map (λ u. u.index) (prepare_users parse to_string no_part no_part same_user).users ≡ 1 ∷ []
unfolding prepare_users prepare_from prepare_parsed prepare_valid add_converted
    collect_last_valid_i64_indices collect_from parse_i64_id lookup insert
prepared_second = refl
