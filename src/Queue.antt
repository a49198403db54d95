-- ===== src/Queue.antt =====
-- The table rows and the statements that the two work queues share: server/src/transfer/queue.rs and
-- server/src/search/queue.rs. Each statement is one step on the table.
pub mod Claims
pub mod Attempts
use tweet_db.Base.{
  ℕ, zero, suc, ◌+◌, Option, none, some, Bool, true, false, ◌&&◌, ◌||◌, List, [], ◌∷◌, map, leb,
  ltb, ◌==◌, if◌then◌else◌, String, take, length,
}

pub data Status : Type 0 where
  pending processing completed failed canceled : Status

-- A task with what it is about. Ids and times are numbers.
pub record Row (X : Type 0) : Type 0 where
  pub id : ℕ
  pub about : X
  pub status : Status
  pub attempt_count : ℕ
  pub last_error : Option String
  pub claimed_by : Option String
  pub claimed_at : Option ℕ
  pub created_at : ℕ
  pub completed_at : Option ℕ

-- `claimed_at IS NULL OR claimed_at <= cutoff`
abbrev pub is_stale : ℕ → Option ℕ → Bool
is_stale cutoff none = true
is_stale cutoff (some at) = leb at cutoff

abbrev pub claimable_status : Status → Bool → Bool
claimable_status pending again = true
claimable_status processing again = again
claimable_status _ again = false

abbrev pub is_processing : Status → Bool
is_processing processing = true
is_processing _ = false

-- `CASE WHEN status = 'pending' THEN 0 ELSE 1 END`
abbrev pub rank : Status → ℕ
rank pending = 0
rank _ = 1

unfoldable pub member : ℕ → List ℕ → Bool
member id [] = false
member id (x ∷ xs) = x == id || member id xs

-- `COALESCE(last_error, text)`
abbrev pub coalesce : Option String → String → Option String
coalesce none text = some text
coalesce (some old) text = some old

module _ {X : Type 0} where
  -- The `WHERE` of the candidates of a claim.
  unfoldable pub can_claim : ℕ → ℕ → Row X → Bool
  can_claim cutoff max_attempts r =
      claimable_status r.status (is_stale cutoff r.claimed_at && ltb r.attempt_count max_attempts)

  -- The `ORDER BY`: pending first, then the oldest, then by id.
  unfoldable pub before : Row X → Row X → Bool
  before a b =
      ltb (rank a.status) (rank b.status)
      || (rank a.status == rank b.status
          && (ltb a.created_at b.created_at || (a.created_at == b.created_at && ltb a.id b.id)))

  unfoldable pub insert_sorted : Row X → List (Row X) → List (Row X)
  insert_sorted r [] = r ∷ []
  insert_sorted r (x ∷ xs) =
      let later = x ∷ insert_sorted r xs in if before x r then later else r ∷ x ∷ xs

  unfoldable pub candidates : ℕ → ℕ → List (Row X) → List (Row X)
  candidates cutoff max_attempts [] = []
  candidates cutoff max_attempts (r ∷ rows) =
      let rest = candidates cutoff max_attempts rows in
      if can_claim cutoff max_attempts r then insert_sorted r rest else rest

  unfoldable pub claimed : ℕ → String → Row X → Row X
  claimed now worker r = record r {
    status = processing;
    attempt_count = r.attempt_count + 1;
    claimed_by = some worker;
    claimed_at = some now;
  }

  abbrev pub ids : List (Row X) → List ℕ
  ids = map (λ r. r.id)

  -- `UPDATE ... WHERE test`
  unfoldable pub update_where : (Row X → Bool) → (Row X → Row X) → List (Row X) → List (Row X)
  update_where test change [] = []
  update_where test change (r ∷ rows) =
      (if test r then change r else r) ∷ update_where test change rows

  -- Claims the first `limit` candidates; the table and the rows that are returned.
  unfoldable pub claim : ℕ → ℕ → ℕ → String → ℕ → List (Row X) → List (Row X) × List (Row X)
  claim now cutoff max_attempts worker limit rows =
      let chosen = take limit (candidates cutoff max_attempts rows) in
      (
        update_where (λ r. member r.id (ids chosen)) (claimed now worker) rows,
        map (claimed now worker) chosen,
      )

  unfoldable pub must_expire : ℕ → ℕ → Row X → Bool
  must_expire cutoff max_attempts r =
      is_processing r.status && is_stale cutoff r.claimed_at && leb max_attempts r.attempt_count

  unfoldable pub expired : ℕ → Row X → Row X
  expired now r = record r {
    status = failed;
    last_error = coalesce r.last_error "attempt_timeout";
    claimed_by = none;
    claimed_at = none;
    completed_at = some now;
  }

  unfoldable pub expire_stale_tasks : ℕ → ℕ → ℕ → List (Row X) → List (Row X)
  expire_stale_tasks now cutoff max_attempts =
      update_where (must_expire cutoff max_attempts) (expired now)

  -- The `SET` of a failed attempt: the task goes back to the queue unless its attempts are used up.
  unfoldable pub after_failure : ℕ → ℕ → String → Row X → Row X
  after_failure now max_attempts message r =
      let used_up = leb max_attempts r.attempt_count in
      record r {
        status = if used_up then failed else pending;
        last_error = some message;
        claimed_by = none;
        claimed_at = none;
        completed_at = if used_up then some now else none;
      }

  -- The `SET` of a completed task.
  unfoldable pub completed_row : ℕ → Row X → Row X
  completed_row now r = record r {
    status = completed;
    last_error = none;
    claimed_by = none;
    claimed_at = none;
    completed_at = some now;
  }
