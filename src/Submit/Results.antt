-- ===== src/Submit/Results.antt =====
-- The result of each submitted object and the summary: server/src/tweet_submit/result.rs.
pub mod Summary
use tweet_db.Base.{
  ℕ, ◌+◌, Option, none, some, Bool, true, false, ◌&&◌, ◌||◌, List, [], ◌∷◌, ◌++◌, if◌then◌else◌,
  String,
}

pub data OperationStatus : Type 0 where
  accepted skipped failed : OperationStatus

pub data ObjectStatus : Type 0 where
  all_accepted all_skipped partial any_failed : ObjectStatus

pub record Operation : Type 0 where
  pub name : String
  pub status : OperationStatus
  pub reason : Option String

pub record Builder : Type 0 where
  pub id : Option String
  pub operations : List Operation
  pub fatal_error : Option String

pub record ObjectResult : Type 0 where
  pub id : Option String
  pub status : ObjectStatus
  pub operations : List Operation
  pub error : Option String

unfoldable pub new : Option String → Builder
new id = record { id = id; operations = []; fatal_error = none }

unfoldable pub operation : Operation → Builder → Builder
operation op b = record b { operations = b.operations ++ (op ∷ []) }

-- The calls `accepted`, `skipped` and `failed`.
abbrev pub accept : String → String → Operation
accept name reason = record { name = name; status = accepted; reason = some reason }

abbrev pub skip : String → String → Operation
skip name reason = record { name = name; status = skipped; reason = some reason }

abbrev pub fail : String → String → Operation
fail name error = record { name = name; status = failed; reason = some error }

unfoldable pub fatal : String → Builder → Builder
fatal error b = record b { fatal_error = some error }

abbrev pub same_status : OperationStatus → OperationStatus → Bool
same_status accepted accepted = true
same_status skipped skipped = true
same_status failed failed = true
same_status _ _ = false

unfoldable pub any_with : OperationStatus → List Operation → Bool
any_with s [] = false
any_with s (op ∷ ops) = same_status op.status s || any_with s ops

abbrev pub is_some : Option String → Bool
is_some none = false
is_some (some e) = true

unfoldable pub status_from : Bool → Bool → Bool → Bool → ObjectStatus
status_from has_accepted has_skipped has_failed is_fatal =
    if has_failed && (has_accepted || has_skipped)
    then partial
    else if has_failed || is_fatal
    then any_failed
    else if has_accepted
    then all_accepted
    else all_skipped

unfoldable pub finish : Builder → ObjectResult
finish b = record {
  id = b.id;
  status =
      status_from (any_with accepted b.operations) (any_with skipped b.operations)
        (any_with failed b.operations) (is_some b.fatal_error);
  operations = b.operations;
  error = b.fatal_error;
}

pub record SubmitSummary : Type 0 where
  pub total : ℕ
  pub accepted : ℕ
  pub skipped : ℕ
  pub partial : ℕ
  pub failed : ℕ

pub record Response : Type 0 where
  pub users : List ObjectResult
  pub tweets : List ObjectResult
  pub media : List ObjectResult

unfoldable pub count_status : ObjectStatus → SubmitSummary → SubmitSummary
count_status all_accepted s = record s { total = s.total + 1; accepted = s.accepted + 1 }
count_status all_skipped s = record s { total = s.total + 1; skipped = s.skipped + 1 }
count_status partial s = record s { total = s.total + 1; partial = s.partial + 1 }
count_status any_failed s = record s { total = s.total + 1; failed = s.failed + 1 }

unfoldable pub summarize_from : SubmitSummary → List ObjectResult → SubmitSummary
summarize_from s [] = s
summarize_from s (r ∷ results) = summarize_from (count_status r.status s) results

unfoldable pub summarize_results : Response → SubmitSummary
summarize_results response =
    summarize_from (record { total = 0; accepted = 0; skipped = 0; partial = 0; failed = 0 })
      (response.users ++ (response.tweets ++ response.media))
