-- ===== src/Auth/Login/Renewed.antt =====
-- The sessions stay bound whatever requests the server handles.
use mathlib.Core.Path.{subst}
use tweet_db.Base.{
  ℕ, ◌≡◌, ◌⊎◌, refl, sym, ap, ◌∙◌, ◌&&◌, if◌then◌else◌, ltb, Option, none, some, Bool, true, false,
  String, AppResult, ok, err, Bool-cases, arith, inl, inr,
}
use tweet_db.Base.Dict.{lookup, All-lookup}
use tweet_db.Auth.{SessionRow, AuthorizationRow, Db, SessionRecord, resume, ◌>>=◌, pure, lift}
use tweet_db.Auth.Store.{
  with_session, with_authorization, touch_session, touched, update_found, StatusUpdate,
  update_authorization_status,
}
use tweet_db.Auth.Environment.{Environment, AuthorizationStatusResponse, check_authorization}
use tweet_db.Auth.Session.{
  Clock, AuthorizationRefreshOutcome, unchanged, active, revoked, plus, session_expires_at, revoke,
  still, gone, lost, checked, refresh_authorization_if_needed, renew_session, admit,
}
use tweet_db.Auth.Session.Admitted.{revoke_outcome, otherwise}
use tweet_db.Auth.Login.Registered.{AllBound, IsBound, changed-AllBound, touched-IsBound}
use tweet_db.Auth.Login.Kept.{choice-AllBound}

-- The session record and the row of its selector are of the same age.
abbrev pub IsDated : SessionRecord → Db → Type 0
IsDated s db =
    (row : SessionRow) → lookup s.selector db.sessions ≡ some row → row.created_at ≡ s.created_at

pub with_session-IsDated :
    (selector : ℕ) (o : Option SessionRow) (db : Db) (s : SessionRecord)
    → lookup selector db.sessions ≡ o
    → with_session selector o db ≡ some s
    → IsDated s db
with_session-IsDated selector none db s at h = ground arith
with_session-IsDated selector (some row) db s at h =
    go (lookup row.authorization_id db.authorizations) h
  where
    go :
        (a : Option AuthorizationRow) → with_authorization selector row a db ≡ some s → IsDated s db
    go none k other found = ground arith
    go (some a) k other found =
        let same_selector : s.selector ≡ selector = ground arith in
        let dated : row.created_at ≡ s.created_at = ground arith in
        let here : lookup selector db.sessions ≡ some other =
          subst (λ x. lookup x db.sessions ≡ some other) same_selector found in
        ground arith

renewed-AllBound :
    (env : Environment) (skew : ℕ) (clock : Clock) (cookie : String) (auto : Bool)
    (s : SessionRecord) (db : Db)
    → IsDated s db
    → AllBound env.session skew db.sessions
    → AllBound env.session skew (renew_session env clock cookie auto s db).1.sessions
unfolding renew_session touch_session
renewed-AllBound env skew clock cookie auto s db dated all =
    choice-AllBound env.session skew (env.session.auto_renew && auto) _ _
      (changed-AllBound env.session skew s.selector (touched clock.at_start expires_at)
        (lookup s.selector db.sessions) db.sessions own all)
      all
  where
    expires_at : ℕ
    expires_at = session_expires_at env.session s.created_at clock.at_start

    own :
        (row : SessionRow)
        → lookup s.selector db.sessions ≡ some row
        → IsBound env.session skew (s.selector, touched clock.at_start expires_at row)
    own row at =
        subst
          (λ c. IsBound env.session skew (
            s.selector,
            touched clock.at_start (session_expires_at env.session c clock.at_start) row,
          ))
          (dated row at)
          (touched-IsBound env.session skew s.selector clock.at_start clock.at_start row
            (All-lookup _ s.selector db.sessions all at))

pub admit-AllBound :
    (env : Environment) (skew : ℕ) (clock : Clock) (cookie : String) (auto : Bool)
    (s : SessionRecord)
    → (outcome : AuthorizationRefreshOutcome) (db : Db) → (outcome ≡ revoked) ⊎ IsDated s db
    → AllBound env.session skew db.sessions
    → AllBound env.session skew (admit env clock cookie auto s outcome db).1.sessions
admit-AllBound env skew clock cookie auto s revoked db dated all = all
admit-AllBound env skew clock cookie auto s unchanged db (inl no_revocation) all =
    absurd (ground arith)
admit-AllBound env skew clock cookie auto s unchanged db (inr dated) all =
    renewed-AllBound env skew clock cookie auto s db dated all
admit-AllBound env skew clock cookie auto s (active checked_at remote) db (inl no_revocation) all =
    absurd (ground arith)
admit-AllBound env skew clock cookie auto s (active checked_at remote) db (inr dated) all =
    renewed-AllBound env skew clock cookie auto
      (record s {
        authorization_status = "active";
        authorization_last_checked_at = checked_at;
        authorization_remote_expires_at = remote;
      })
      db dated all

-- An update of an authorization leaves the sessions.
updated_sessions :
    (id : ℕ) (u : StatusUpdate) (o : Option AuthorizationRow) (db : Db)
    → (update_found id u o db).1.sessions ≡ db.sessions
updated_sessions id u none db = refl
updated_sessions id u (some row) db = ground arith

resumed_sessions :
    (r : AppResult (Unit {0}) × Db) (answer outcome : AuthorizationRefreshOutcome) (after : Db)
    → resume r (λ _. pure answer) ≡ (ok outcome, after)
    → after.sessions ≡ r.1.sessions
resumed_sessions (ok u, db) answer outcome after h = ap (λ p. p.1.sessions) (sym h)
resumed_sessions (err e, db) answer outcome after h = ground arith

chosen :
    {A B : Type 0} (b : Bool) (f g : A → B) (x : A) {z : B}
    → (if b then f else g) x ≡ z
    → b ≡ true
    → f x ≡ z
chosen true f g x h test = h
chosen false f g x h test = absurd (cc test)

checked_outcome :
    (id now : ℕ) (o : Option AuthorizationStatusResponse) (db : Db)
    → (outcome : AuthorizationRefreshOutcome) (after : Db)
    → checked id now o db ≡ (ok outcome, after)
    → (outcome ≡ revoked) ⊎ (after.sessions ≡ db.sessions)
unfolding update_authorization_status
checked_outcome id now none db outcome after h =
    inl (revoke_outcome id (gone now) db outcome after h)
checked_outcome id now (some status) db outcome after h = elim (Bool-cases status.active) [
  | inl live ↦
      let kept = updated_sessions id (still status now) (lookup id db.authorizations) db in
      let answer = active now status.expires_at in
      let stays =
        chosen status.active
          (update_authorization_status id (still status now) >>= λ _. pure answer)
          (revoke id (lost status now)) db h live in
      inr (
        resumed_sessions (update_found id (still status now) (lookup id db.authorizations) db)
          answer outcome after stays
        ∙ kept)
  | inr lost_now ↦ inl (revoke_outcome id (lost status now) db outcome after (ground arith))
]

asked_outcome :
    (id now : ℕ) (r : AppResult (Option AuthorizationStatusResponse)) (db : Db)
    → (outcome : AuthorizationRefreshOutcome) (after : Db)
    → (lift r >>= checked id now) db ≡ (ok outcome, after)
    → (outcome ≡ revoked) ⊎ (after.sessions ≡ db.sessions)
asked_outcome id now (err e) db outcome after h = ground arith
asked_outcome id now (ok o) db outcome after h = checked_outcome id now o db outcome after h

pub refresh_outcome :
    (env : Environment) (clock : Clock) (s : SessionRecord) (db : Db)
    → (outcome : AuthorizationRefreshOutcome) (after : Db)
    → refresh_authorization_if_needed env clock s db ≡ (ok outcome, after)
    → (outcome ≡ revoked) ⊎ (after.sessions ≡ db.sessions)
unfolding refresh_authorization_if_needed
refresh_outcome env clock s db outcome after h =
    let until = plus 1 s.authorization_last_checked_at env.sso.authorization_cache_ttl_seconds in
    let ask =
      lift (check_authorization env s.authorization_id)
      >>= checked s.authorization_id clock.after_check in
    elim (Bool-cases (ltb clock.at_refresh until)) [
      | inl recent ↦
          let same = chosen (ltb clock.at_refresh until) (pure unchanged) ask db h recent in
          inr (ap (λ p. p.1.sessions) (sym same))
      | inr old ↦
          asked_outcome s.authorization_id clock.after_check
            (check_authorization env s.authorization_id) db outcome after
            (otherwise (ltb clock.at_refresh until) (pure unchanged) ask db h old)
    ]
