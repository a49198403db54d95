-- ===== src/Auth/Session/Admitted.antt =====
-- Which requests get a session, and for how long.
use tweet_db.Base.{
  ℕ, ◌≡◌, refl, ◌<◌, ◌⊎◌, inl, inr, ltb, ltb→lt, leb, not, ◌||◌, ◌≢◌, ap, if◌then◌else◌, Option,
  none, some, Bool, true, false, String, AppResult, ok, err, arith, Bool-cases,
}
use tweet_db.Secrets.{CompoundSecret, parse_compound_secret, token_verifier_mac}
use tweet_db.Auth.{
  Db, SessionRecord, Action, ◌>>=◌, resume-eq-ok, resume, pure, lift, is_active, same_bytes,
}
use tweet_db.Auth.Store.{
  delete_session, find_session, StatusUpdate, update_authorization_status,
  delete_sessions_by_authorization,
}
use tweet_db.Auth.Environment.{Environment, AuthorizationStatusResponse, check_authorization}
use tweet_db.Auth.Session.{
  Clock, CookieAction, clear, AuthorizationRefreshOutcome, unchanged, active, revoked, Resolved,
  plus, refresh_authorization_if_needed, renew_session, admit, verified, with_secret,
  resolve_request_session, checked, revoke, gone, lost,
}

-- The authorization was checked recently enough, or the SSO server says that it is active.
abbrev pub IsAuthorized : Environment → Clock → SessionRecord → Type 0
IsAuthorized env clock s =
    (clock.at_refresh
      < plus 1 s.authorization_last_checked_at env.sso.authorization_cache_ttl_seconds)
    ⊎ ((status : AuthorizationStatusResponse) × (check_authorization env s.authorization_id
          ≡ ok (some status))
        × (status.active ≡ true))

-- The given session has the user, the rights and the state of the one that was found.
pub record SameUser (given found : SessionRecord) : Type 0 where
  pub same_user : given.user_id ≡ found.user_id
  pub same_rights : given.user_is_admin ≡ found.user_is_admin
  pub same_state : given.registration_state ≡ found.registration_state
  pub same_disabled : given.user_disabled_at ≡ found.user_disabled_at

-- The session `found` by the cookie's secret is valid, and `given` is the same session.
pub record Admitted (env : Environment) (clock : Clock) (db : Db) (secret : CompoundSecret)
    (given : SessionRecord) : Type 0 where
  pub found : SessionRecord
  pub is_found : find_session secret.selector db ≡ some found
  pub is_verified :
      same_bytes found.verifier_hash
        (token_verifier_mac env.show_uuid env.hmac secret.selector secret.verifier)
      ≡ true
  pub unexpired : clock.at_start < found.expires_at
  pub was_active : is_active found.authorization_status ≡ true
  pub authorized : IsAuthorized env clock found
  pub same : SameUser given found

resume_revoked :
    (r : AppResult (Unit {0}) × Db) (id : ℕ) (outcome : AuthorizationRefreshOutcome) (after : Db)
    → resume r (λ _ db. (ok revoked, delete_sessions_by_authorization id db)) ≡ (ok outcome, after)
    → outcome ≡ revoked
resume_revoked (ok u, db) id outcome after h = ground arith
resume_revoked (err e, db) id outcome after h = ground arith

pub revoke_outcome :
    (id : ℕ) (u : StatusUpdate) (db : Db) (outcome : AuthorizationRefreshOutcome) (after : Db)
    → revoke id u db ≡ (ok outcome, after)
    → outcome ≡ revoked
unfolding revoke
revoke_outcome id u db outcome after h =
    resume_revoked (update_authorization_status id u db) id outcome after h

checked-active :
    (id now : ℕ) (o : Option AuthorizationStatusResponse) (db : Db)
    → (outcome : AuthorizationRefreshOutcome) (after : Db)
    → checked id now o db ≡ (ok outcome, after)
    → (outcome ≡ revoked)
      ⊎ ((status : AuthorizationStatusResponse) × (o ≡ some status) × (status.active ≡ true))
checked-active id now none db outcome after h =
    inl (revoke_outcome id (gone now) db outcome after h)
checked-active id now (some status) db outcome after h = elim (Bool-cases status.active) [
  | inl yes_active ↦ inr (status, refl, yes_active)
  | inr lost_now ↦ inl (revoke_outcome id (lost status now) db outcome after (ground arith))
]

asked-active :
    (id now : ℕ) (r : AppResult (Option AuthorizationStatusResponse)) (db : Db)
    → (outcome : AuthorizationRefreshOutcome) (after : Db)
    → (lift r >>= checked id now) db ≡ (ok outcome, after)
    → (outcome ≡ revoked)
      ⊎ ((status : AuthorizationStatusResponse) × (r ≡ ok (some status)) × (status.active ≡ true))
asked-active id now (err e) db outcome after h = ground arith
asked-active id now (ok o) db outcome after h = elim (checked-active id now o db outcome after h) [
  | inl gone_now ↦ inl gone_now
  | inr (status, present, live) ↦ inr (status, ap (λ x. ok x) present, live)
]

-- The branch that a chain of tests has taken.
pub otherwise :
    {A B : Type 0} (b : Bool) (f g : A → B) (x : A) {z : B}
    → (if b then f else g) x ≡ z
    → b ≡ false
    → g x ≡ z
otherwise true f g x h no_test = absurd (cc no_test)
otherwise false f g x h no_test = h

refresh-IsAuthorized :
    (env : Environment) (clock : Clock) (s : SessionRecord) (db : Db)
    → (outcome : AuthorizationRefreshOutcome) (after : Db)
    → refresh_authorization_if_needed env clock s db ≡ (ok outcome, after)
    → (outcome ≡ revoked) ⊎ IsAuthorized env clock s
unfolding refresh_authorization_if_needed
refresh-IsAuthorized env clock s db outcome after h =
    let until = plus 1 s.authorization_last_checked_at env.sso.authorization_cache_ttl_seconds in
    elim (Bool-cases (ltb clock.at_refresh until)) [
      | inl recent ↦ inr (inl (ltb→lt clock.at_refresh until recent))
      | inr old ↦
          elim (asked-active s.authorization_id clock.after_check
            (check_authorization env s.authorization_id) db outcome after
            (otherwise (ltb clock.at_refresh until) (pure unchanged)
              (lift (check_authorization env s.authorization_id)
                >>= checked s.authorization_id clock.after_check)
              db h old)) [ inl gone_now ↦ inl gone_now | inr live ↦ inr (inr live) ]
    ]

renew_session_same :
    (env : Environment) (clock : Clock) (cookie : String) (auto : Bool) (s : SessionRecord)
    (db : Db) {action : CookieAction} {given : SessionRecord} {after : Db}
    → renew_session env clock cookie auto s db ≡ (ok (action, some given), after)
    → SameUser given s
unfolding renew_session
renew_session_same env clock cookie auto s db h = record {
  same_user = ground arith;
  same_rights = ground arith;
  same_state = ground arith;
  same_disabled = ground arith;
}

-- A test that clears the cookie was not met.
refused :
    (test : Bool) (change : Db → Db) (rest : Action Resolved) (db : Db) {action : CookieAction}
    {given : SessionRecord} {after : Db}
    → (if test then (λ at. (ok (clear, none), change at)) else rest) db
      ≡ (ok (action, some given), after)
    → (test ≡ false) × (rest db ≡ (ok (action, some given), after))
refused true change rest db h = ground arith
refused false change rest db h = (refl, h)

admit-outcome :
    (env : Environment) (clock : Clock) (cookie : String) (auto : Bool) (s : SessionRecord)
    → (outcome : AuthorizationRefreshOutcome) (db : Db)
    → {action : CookieAction} {given : SessionRecord} {after : Db}
    → admit env clock cookie auto s outcome db ≡ (ok (action, some given), after)
    → (outcome ≢ revoked) × SameUser given s
admit-outcome env clock cookie auto s unchanged db h =
    (λ e. ground arith, renew_session_same env clock cookie auto s db h)
admit-outcome env clock cookie auto s (active last_checked_at remote) db h =
    let r =
      renew_session_same env clock cookie auto
        (record s {
          authorization_status = "active";
          authorization_last_checked_at = last_checked_at;
          authorization_remote_expires_at = remote;
        })
        db h in
    (
      λ e. ground arith,
      record {
        same_user = r.same_user;
        same_rights = r.same_rights;
        same_state = r.same_state;
        same_disabled = r.same_disabled;
      },
    )
admit-outcome env clock cookie auto s revoked db h = ground arith

verified-Admitted :
    (env : Environment) (clock : Clock) (cookie : String) (auto : Bool) (secret : CompoundSecret)
    → (o : Option SessionRecord) (db : Db)
    → {action : CookieAction} {given : SessionRecord} {after : Db}
    → find_session secret.selector db ≡ o
    → verified env clock cookie auto secret o db ≡ (ok (action, some given), after)
    → Admitted env clock db secret given
verified-Admitted env clock cookie auto secret none db at h = ground arith
verified-Admitted env clock cookie auto secret (some s) db at h =
    let hash = token_verifier_mac env.show_uuid env.hmac secret.selector secret.verifier in
    let (matches, next) = refused (not (same_bytes s.verifier_hash hash)) (λ db. db) _ db h in
    let (valid, last) =
      refused (leb s.expires_at clock.at_start || not (is_active s.authorization_status))
        (delete_session secret.selector) _ db next in
    let (outcome, mid, refreshed, admitted) =
      resume-eq-ok (refresh_authorization_if_needed env clock s db) (admit env clock cookie auto s)
        last in
    let (kept, same) = admit-outcome env clock cookie auto s outcome mid admitted in
    record {
      found = s;
      is_found = at;
      is_verified = ground arith;
      unexpired = ground arith;
      was_active = ground arith;
      authorized = elim (refresh-IsAuthorized env clock s db outcome mid refreshed) [
        | inl gone_now ↦ absurd (kept gone_now)
        | inr live ↦ live
      ];
      same = same;
    }

with_secret-Admitted :
    (env : Environment) (clock : Clock) (cookie : String) (auto : Bool) (o : Option CompoundSecret)
    → (db : Db) {action : CookieAction} {given : SessionRecord} {after : Db}
    → with_secret env clock cookie auto o db ≡ (ok (action, some given), after)
    → (secret : CompoundSecret) × (o ≡ some secret) × Admitted env clock db secret given
with_secret-Admitted env clock cookie auto none db h = ground arith
with_secret-Admitted env clock cookie auto (some secret) db h = (
  secret,
  refl,
  verified-Admitted env clock cookie auto secret (find_session secret.selector db) db refl h,
)

-- A request gets a session only if its cookie holds a compound secret whose selector is that of a
-- session in the database with the keyed hash of the secret, the session has not expired, its
-- authorization is active and was checked within the cache's time or is active at the SSO server;
-- user, rights, registration state and the time of the user's disabling are those of the database.
pub resolve_request_session-Admitted :
    (env : Environment) (clock : Clock) (cookie : String) (auto : Bool) (db : Db)
    {action : CookieAction} {given : SessionRecord} {after : Db}
    → resolve_request_session env clock (some cookie) auto db ≡ (ok (action, some given), after)
    → (secret : CompoundSecret) × (parse_compound_secret env.parse_uuid cookie ≡ some secret)
      × Admitted env clock db secret given
unfolding resolve_request_session
resolve_request_session-Admitted env clock cookie auto db h =
    with_secret-Admitted env clock cookie auto (parse_compound_secret env.parse_uuid cookie) db h
