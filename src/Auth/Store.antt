-- ===== src/Auth/Store.antt =====
-- The statements of server/src/db.rs, each as what it does to the tables.
use tweet_db.Base.{
  ℕ, ◌==◌, leb, ltb, Option, none, some, Bool, false, ◌||◌, [], ◌∷◌, ◌++◌, if◌then◌else◌, List,
  String, same_text, AppResult, ok, err, AppError, sqlx, conflict, text,
}
use tweet_db.Base.Dict.{Dict, lookup, insert, remove}
use tweet_db.Auth.{
  SessionRow, UserRow, AuthorizationRow, PendingSsoLogin, AuditEvent, Db, SessionRecord, Action,
}

unfoldable pub delete_expired_pending_sso_logins : ℕ → Dict PendingSsoLogin → Dict PendingSsoLogin
delete_expired_pending_sso_logins now [] = []
delete_expired_pending_sso_logins now ((state, login) ∷ rows) =
    let rest = delete_expired_pending_sso_logins now rows in
    if leb login.expires_at now then rest else (state, login) ∷ rest

unfoldable pub insert_pending_sso_login : ℕ → PendingSsoLogin → Db → Db
insert_pending_sso_login state login db = record db {
  pending_logins = insert state login db.pending_logins;
}

-- Only a login that has not expired is returned; it is deleted in any case.
abbrev pub unexpired : ℕ → Option PendingSsoLogin → Option PendingSsoLogin
unexpired now none = none
unexpired now (some login) = if ltb now login.expires_at then some login else none

unfoldable pub consume_pending_sso_login : ℕ → ℕ → Action (Option PendingSsoLogin)
consume_pending_sso_login state now db = (
  ok (unexpired now (lookup state db.pending_logins)),
  record db { pending_logins = remove state db.pending_logins },
)

-- COALESCE
abbrev pub coalesce : Option ℕ → Option ℕ → Option ℕ
coalesce none old = old
coalesce (some id) old = some id

abbrev pub known_user : Option AuthorizationRow → Option ℕ
known_user none = none
known_user (some row) = row.user_id

-- CHECK (status IN ('active', 'revoked', 'expired'))
unfoldable pub is_allowed : String → Bool
is_allowed status =
    same_text status "active" || (same_text status "revoked" || same_text status "expired")

abbrev pub check_violation : AppError
check_violation = sqlx (text "violates check constraint" ∷ [])

unfoldable pub upsert_authorization : ℕ → AuthorizationRow → Action (Unit {0})
upsert_authorization id row db =
    if is_allowed row.status
    then (
      ok tt,
      record db {
        authorizations =
            insert id
              (record row {
                user_id = coalesce row.user_id (known_user (lookup id db.authorizations));
              })
              db.authorizations;
      },
    )
    else (err check_violation, db)

unfoldable pub find_subject_binding : ℕ → Db → Option ℕ
find_subject_binding subject db = lookup subject db.subjects

abbrev pub unless_present {ℓ} : {A : Type ℓ} → Option A → Db → Db → AppResult (Unit {0}) × Db
unless_present none after db = (ok tt, after)
unless_present (some row) after db = (err (sqlx (text "duplicate key" ∷ [])), db)

-- What the program gives to the INSERT of a session.
pub record NewSession : Type 0 where
  pub verifier_hash : List ℕ
  pub user_id : Option ℕ
  pub sso_subject_id : ℕ
  pub authorization_id : ℕ
  pub registration_state : String
  pub expires_at : ℕ

-- last_seen_at and created_at are NOW(), which is the clock of the database.
abbrev pub inserted_session : ℕ → NewSession → SessionRow
inserted_session db_now new = record {
  verifier_hash = new.verifier_hash;
  user_id = new.user_id;
  sso_subject_id = new.sso_subject_id;
  authorization_id = new.authorization_id;
  registration_state = new.registration_state;
  expires_at = new.expires_at;
  last_seen_at = db_now;
  created_at = db_now;
}

unfoldable pub create_session : ℕ → ℕ → NewSession → Action (Unit {0})
create_session db_now selector new db =
    unless_present (lookup selector db.sessions)
      (record db { sessions = insert selector (inserted_session db_now new) db.sessions }) db

-- The joins of `find_session`.
abbrev pub user_of : Option ℕ → Db → Option UserRow
user_of none db = none
user_of (some id) db = lookup id db.users

abbrev pub with_user : ℕ → SessionRow → AuthorizationRow → Option UserRow → SessionRecord
with_user selector s a user = record {
  selector = selector;
  verifier_hash = s.verifier_hash;
  user_id = s.user_id;
  username = elim user [ none ↦ none | some u ↦ some u.username ];
  user_is_admin = elim user [ none ↦ false | some u ↦ u.is_admin ];
  user_disabled_at = elim user [ none ↦ none | some u ↦ u.disabled_at ];
  user_disabled_by_user_id = elim user [ none ↦ none | some u ↦ u.disabled_by_user_id ];
  sso_subject_id = s.sso_subject_id;
  authorization_id = s.authorization_id;
  registration_state = s.registration_state;
  expires_at = s.expires_at;
  last_seen_at = s.last_seen_at;
  created_at = s.created_at;
  authorization_status = a.status;
  authorization_last_checked_at = a.last_checked_at;
  authorization_remote_expires_at = a.remote_expires_at;
}

abbrev pub with_authorization : ℕ → SessionRow → Option AuthorizationRow → Db → Option SessionRecord
with_authorization selector s none db = none
with_authorization selector s (some a) db = some (with_user selector s a (user_of s.user_id db))

abbrev pub with_session : ℕ → Option SessionRow → Db → Option SessionRecord
with_session selector none db = none
with_session selector (some s) db =
    with_authorization selector s (lookup s.authorization_id db.authorizations) db

unfoldable pub find_session : ℕ → Db → Option SessionRecord
find_session selector db = with_session selector (lookup selector db.sessions) db

-- UPDATE of the row with a key, if there is one.
abbrev pub changed {ℓ} : {A : Type ℓ} → ℕ → (A → A) → Option A → Dict A → Dict A
changed key f none rows = rows
changed key f (some row) rows = insert key (f row) rows

abbrev pub touched : ℕ → ℕ → SessionRow → SessionRow
touched last_seen_at expires_at row = record row {
  last_seen_at = last_seen_at;
  expires_at = expires_at;
}

unfoldable pub touch_session : ℕ → ℕ → ℕ → Db → Db
touch_session selector last_seen_at expires_at db = record db {
  sessions =
      changed selector (touched last_seen_at expires_at) (lookup selector db.sessions) db.sessions;
}

unfoldable pub delete_session : ℕ → Db → Db
delete_session selector db = record db { sessions = remove selector db.sessions }

unfoldable pub without_authorization : ℕ → Dict SessionRow → Dict SessionRow
without_authorization id [] = []
without_authorization id ((selector, row) ∷ rows) =
    let rest = without_authorization id rows in
    if row.authorization_id == id then rest else (selector, row) ∷ rest

unfoldable pub delete_sessions_by_authorization : ℕ → Db → Db
delete_sessions_by_authorization id db = record db {
  sessions = without_authorization id db.sessions;
}

pub record StatusUpdate : Type 0 where
  pub status : String
  pub last_checked_at : ℕ
  pub remote_expires_at : Option ℕ
  pub revoked_at : Option ℕ

abbrev pub updated : StatusUpdate → AuthorizationRow → AuthorizationRow
updated u row = record row {
  status = u.status;
  last_checked_at = u.last_checked_at;
  remote_expires_at = u.remote_expires_at;
  revoked_at = u.revoked_at;
}

-- The CHECK is only reached if there is a row to update.
abbrev pub update_found : ℕ → StatusUpdate → Option AuthorizationRow → Action (Unit {0})
update_found id u none db = (ok tt, db)
update_found id u (some row) db =
    if is_allowed u.status
    then (ok tt, record db { authorizations = insert id (updated u row) db.authorizations })
    else (err check_violation, db)

unfoldable pub update_authorization_status : ℕ → StatusUpdate → Action (Unit {0})
update_authorization_status id u db = update_found id u (lookup id db.authorizations) db

unfoldable pub insert_audit_event : AuditEvent → Db → Db
insert_audit_event event db = record db { audit_events = db.audit_events ++ (event ∷ []) }

abbrev pub set_user : ℕ → AuthorizationRow → AuthorizationRow
set_user user row = record row { user_id = some user }

abbrev pub register : ℕ → SessionRow → SessionRow
register user row = record row { user_id = some user; registration_state = "active" }

-- The updates of the transaction once the user and the subject are inserted.
abbrev pub bound : ℕ → String → ℕ → ℕ → ℕ → ℕ → Db → Db
bound user_id username subject authorization_id selector now db =
    let user : UserRow = record {
      username = username;
      is_admin = false;
      disabled_at = some now;
      disabled_by_user_id = none;
    } in
    insert_audit_event
      (record {
        actor_user_id = some user_id;
        event_type = "user.registered";
        resource_type = "user";
        resource_id = some user_id;
      })
      (record db {
        users = insert user_id user db.users;
        subjects = insert subject user_id db.subjects;
        authorizations =
            changed authorization_id (set_user user_id) (lookup authorization_id db.authorizations)
              db.authorizations;
        sessions = changed selector (register user_id) (lookup selector db.sessions) db.sessions;
      })

-- An error rolls the transaction back.
abbrev pub bind_unbound : Option ℕ → ℕ → String → ℕ → ℕ → ℕ → ℕ → Action ℕ
bind_unbound (some other) user_id username subject authorization_id selector now db =
    (err (sqlx (text "duplicate key" ∷ [])), db)
bind_unbound none user_id username subject authorization_id selector now db =
    (ok user_id, bound user_id username subject authorization_id selector now db)

module _ (same_name : String → String → Bool) where
  unfoldable pub is_taken : String → Dict UserRow → Bool
  is_taken username [] = false
  is_taken username ((id, user) ∷ users) =
      same_name user.username username || is_taken username users

  unfoldable pub bind_username_to_subject : ℕ → String → ℕ → ℕ → ℕ → ℕ → Action ℕ
  bind_username_to_subject user_id username subject authorization_id selector now db =
      if is_taken username db.users
      then (err (conflict (text "username is already taken" ∷ [])), db)
      else bind_unbound (lookup subject db.subjects) user_id username subject authorization_id
          selector now db
