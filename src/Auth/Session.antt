-- ===== src/Auth/Session.antt =====
-- The session of a request: server/src/auth/session.rs, with session_expires_at of
-- server/src/auth/responses.rs. The times that the code reads from the clock are arguments.
pub mod Admitted
pub mod Revoked
use tweet_db.Base.{
  ℕ, suc, ◌+◌, ◌-◌, ◌*◌, leb, ltb, Option, none, some, Bool, true, false, not, ◌&&◌, ◌||◌,
  if◌then◌else◌, List, String, same_text, AppResult, ok, err,
}
use tweet_db.Base.Int.{ℤ, pos, negsuc, is_positive}
use tweet_db.Config.{SessionSection}
use tweet_db.Secrets.{CompoundSecret, parse_compound_secret, token_verifier_mac}
use tweet_db.Auth.{Db, SessionRecord, Action, ◌>>=◌, pure, lift, is_active, same_bytes}
use tweet_db.Auth.Store.{
  StatusUpdate, find_session, touch_session, delete_session, delete_sessions_by_authorization,
  update_authorization_status,
}
use tweet_db.Auth.Environment.{Environment, AuthorizationStatusResponse, check_authorization}

-- A time and a signed duration in units of so many seconds; no time is before the epoch.
abbrev pub plus : ℕ → ℕ → ℤ → ℕ
plus seconds time (pos n) = time + seconds * n
plus seconds time (negsuc n) = time - seconds * suc n

unfoldable pub session_expires_at : SessionSection → ℕ → ℕ → ℕ
session_expires_at config created_at now =
    let expires_at = plus 3600 now config.ttl_hours in
    let absolute = plus 3600 created_at config.absolute_ttl_hours in
    if is_positive config.absolute_ttl_hours && ltb absolute expires_at
    then absolute
    else expires_at

unfoldable pub should_auto_renew_session : String → Bool
should_auto_renew_session path =
    not (same_text path "/api/v1/tweet/submit" || same_text path "/api/v1/tweet/query")

pub data CookieAction : Type 0 where
  keep clear : CookieAction
  renew : String → ℕ → CookieAction

pub data AuthorizationRefreshOutcome : Type 0 where
  unchanged revoked : AuthorizationRefreshOutcome
  active : ℕ → Option ℕ → AuthorizationRefreshOutcome

-- The three readings of the clock that a request may make, in their order.
pub record Clock : Type 0 where
  pub at_start : ℕ
  pub at_refresh : ℕ
  pub after_check : ℕ

abbrev pub or_now : Option ℕ → ℕ → Option ℕ
or_now none now = some now
or_now (some at) now = some at

abbrev pub gone : ℕ → StatusUpdate
gone now = record {
  status = "revoked";
  last_checked_at = now;
  remote_expires_at = none;
  revoked_at = some now;
}

-- What `refresh_authorization_if_needed` and the webhook write for a status that is not active.
abbrev pub lost : AuthorizationStatusResponse → ℕ → StatusUpdate
lost status now = record {
  status = status.status;
  last_checked_at = now;
  remote_expires_at = status.expires_at;
  revoked_at = or_now status.revoked_at now;
}

abbrev pub still : AuthorizationStatusResponse → ℕ → StatusUpdate
still status now = record {
  status = "active";
  last_checked_at = now;
  remote_expires_at = status.expires_at;
  revoked_at = none;
}

unfoldable pub revoke : ℕ → StatusUpdate → Action AuthorizationRefreshOutcome
revoke id update = update_authorization_status id update >>= λ _ db.
    (ok revoked, delete_sessions_by_authorization id db)

abbrev pub checked : ℕ → ℕ → Option AuthorizationStatusResponse → Action AuthorizationRefreshOutcome
checked id now none = revoke id (gone now)
checked id now (some status) =
    if status.active
    then (update_authorization_status id (still status now) >>= λ _.
        pure (active now status.expires_at))
    else revoke id (lost status now)

unfoldable pub refresh_authorization_if_needed :
    Environment → Clock → SessionRecord → Action AuthorizationRefreshOutcome
refresh_authorization_if_needed env clock s =
    if ltb clock.at_refresh
      (plus 1 s.authorization_last_checked_at env.sso.authorization_cache_ttl_seconds)
    then pure unchanged
    else (lift (check_authorization env s.authorization_id)
        >>= checked s.authorization_id clock.after_check)

-- The answer: what happens to the cookie, and the session that the handler sees.
abbrev pub Resolved : Type 0
Resolved = CookieAction × Option SessionRecord

unfoldable pub renew_session : Environment → Clock → String → Bool → SessionRecord → Action Resolved
renew_session env clock cookie auto s db =
    let expires_at = session_expires_at env.session s.created_at clock.at_start in
    if env.session.auto_renew && auto
    then (
      ok (renew cookie expires_at, some (record s { expires_at = expires_at })),
      touch_session s.selector clock.at_start expires_at db,
    )
    else (ok (keep, some s), db)

abbrev pub admit :
    Environment
    → Clock
    → String
    → Bool
    → SessionRecord
    → AuthorizationRefreshOutcome
    → Action Resolved
admit env clock cookie auto s unchanged = renew_session env clock cookie auto s
admit env clock cookie auto s (active last_checked_at remote_expires_at) =
    renew_session env clock cookie auto (record s {
      authorization_status = "active";
      authorization_last_checked_at = last_checked_at;
      authorization_remote_expires_at = remote_expires_at;
    })
admit env clock cookie auto s revoked = pure (clear, none)

abbrev pub verified :
    Environment → Clock → String → Bool → CompoundSecret → Option SessionRecord → Action Resolved
verified env clock cookie auto secret none = pure (clear, none)
verified env clock cookie auto secret (some s) =
    if not (
      same_bytes s.verifier_hash
        (token_verifier_mac env.show_uuid env.hmac secret.selector secret.verifier))
    then pure (clear, none)
    else if leb s.expires_at clock.at_start || not (is_active s.authorization_status)
    then (λ db. (ok (clear, none), delete_session secret.selector db))
    else (refresh_authorization_if_needed env clock s >>= admit env clock cookie auto s)

abbrev pub with_secret :
    Environment → Clock → String → Bool → Option CompoundSecret → Action Resolved
with_secret env clock cookie auto none = pure (clear, none)
with_secret env clock cookie auto (some secret) =
    λ db. verified env clock cookie auto secret (find_session secret.selector db) db

-- `touch_session` is given the selector of the cookie, which is that of the record found by it.
unfoldable pub resolve_request_session :
    Environment → Clock → Option String → Bool → Action Resolved
resolve_request_session env clock none auto = pure (keep, none)
resolve_request_session env clock (some cookie) auto =
    with_secret env clock cookie auto (parse_compound_secret env.parse_uuid cookie)
