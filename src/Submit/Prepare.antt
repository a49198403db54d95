-- ===== src/Submit/Prepare.antt =====
-- The preparation of the submitted users: server/src/tweet_submit/prepare.rs, with
-- collect_last_valid_i64_indices and parse_i64_id of server/src/tweet_submit/validate.rs. What Rust's
-- `parse::<i64>` reads from a text is a parameter, and so are the conversions of tweet_submit/convert.
pub mod Users
use tweet_db.Base.{
  ℕ, suc, Option, none, some, Bool, true, false, List, [], ◌∷◌, ◌++◌, map, ◌==◌, if◌then◌else◌,
  String, AppResult, ok, err, AppError, bad_request, text,
}
use tweet_db.Base.Dict.{Dict, lookup, insert}
use tweet_db.Submit.Results.{Builder, new, operation, skip, fail, fatal}
use tweet_db.Submit.Writes.{Indexed}

pub record SubmitUser : Type 0 where
  pub id : String
  pub registered_at : Option ℕ

pub record TwitterUser : Type 0 where
  pub id : ℕ
  pub registered_at : Option ℕ

pub record Prepared (S T : Type 0) : Type 0 where
  pub results : List Builder
  pub users : List (Indexed TwitterUser)
  pub snapshots : List (Indexed S)
  pub stats : List (Indexed T)

abbrev pub is_index : Option ℕ → ℕ → Bool
is_index none index = false
is_index (some i) index = i == index

-- A conversion, none when the object has no such part.
unfoldable pub add_converted :
    {Z : Type 0}
    → (AppError → String)
    → String
    → ℕ
    → Option (AppResult Z)
    → List (Indexed Z)
    → Builder
    → List (Indexed Z) × Builder
add_converted to_string name index none items result = (items, result)
add_converted to_string name index (some (ok value)) items result =
    (items ++ (record { index = index; value = value } ∷ []), result)
add_converted to_string name index (some (err e)) items result =
    (items, operation (fail name (to_string e)) result)

module _ (parse : String → Option ℕ) where
  abbrev pub or_error : String → Option ℕ → AppResult ℕ
  or_error field none =
      err (bad_request (text field ∷ text " must be a signed 64-bit integer" ∷ []))
  or_error field (some id) = ok id

  unfoldable pub parse_i64_id : String → String → AppResult ℕ
  parse_i64_id value field = or_error field (parse value)

  abbrev pub note : AppResult ℕ → ℕ → Dict ℕ → Dict ℕ
  note (ok id) index last = insert id index last
  note (err e) index last = last

  unfoldable pub collect_from : String → ℕ → List String → Dict ℕ → Dict ℕ
  collect_from field index [] last = last
  collect_from field index (value ∷ values) last =
      collect_from field (suc index) values (note (parse_i64_id value field) index last)

  unfoldable pub collect_last_valid_i64_indices : List String → String → Dict ℕ
  collect_last_valid_i64_indices values field = collect_from field 0 values []

  module _ {S T : Type 0} (to_string : AppError → String)
      (convert_user_snapshot : ℕ → SubmitUser → Option (AppResult S))
      (convert_user_stats : ℕ → SubmitUser → Option (AppResult T)) where
    -- A user whose input no later one shadows.
    unfoldable pub prepare_valid : ℕ → ℕ → SubmitUser → Prepared S T → Prepared S T
    prepare_valid index id user acc =
        let (snapshots, result) =
          add_converted to_string "user_snapshot" index (convert_user_snapshot id user)
            acc.snapshots (new (some user.id)) in
        let (stats, final) =
          add_converted to_string "user_stats" index (convert_user_stats id user) acc.stats
            result in
        record {
          results = acc.results ++ (final ∷ []);
          users =
              acc.users
              ++ (record {
                index = index;
                value = record { id = id; registered_at = user.registered_at };
              }
                  ∷ []);
          snapshots = snapshots;
          stats = stats;
        }

    unfoldable pub prepare_parsed :
        Dict ℕ → ℕ → AppResult ℕ → SubmitUser → Prepared S T → Prepared S T
    prepare_parsed last index (err e) user acc = record acc {
      results = acc.results ++ (fatal (to_string e) (new (some user.id)) ∷ []);
    }
    prepare_parsed last index (ok id) user acc =
        let valid = prepare_valid index id user acc in
        if is_index (lookup id last) index then valid else record acc {
          results =
              acc.results
              ++ (operation (skip "input" "shadowed_by_duplicate_input") (new (some user.id)) ∷ []);
        }

    unfoldable pub prepare_from : Dict ℕ → ℕ → List SubmitUser → Prepared S T → Prepared S T
    prepare_from last index [] acc = acc
    prepare_from last index (user ∷ users) acc =
        prepare_from last (suc index) users
          (prepare_parsed last index (parse_i64_id user.id "user.id") user acc)

    unfoldable pub prepare_users : List SubmitUser → Prepared S T
    prepare_users users =
        prepare_from (collect_last_valid_i64_indices (map (λ u. u.id) users) "user.id") 0 users
          (record { results = []; users = []; snapshots = []; stats = [] })
