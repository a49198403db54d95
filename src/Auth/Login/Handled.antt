-- ===== src/Auth/Login/Handled.antt =====
-- Sequences of requests and calls of the handlers.
use mathlib.Core.Path.{subst}
use tweet_db.Base.{
  ℕ, ◌≡◌, refl, leb, not, ◌||◌, if◌then◌else◌, ltb, Option, none, some, Bool, true, false, List, [],
  All, ◌+◌, ◌≤◌, ◌∷◌, String, AppResult, ok, err, inl, inr,
}
use tweet_db.Base.Dict.{lookup, All-remove}
use tweet_db.Config.{SessionSection}
use tweet_db.Secrets.{CompoundSecret, parse_compound_secret, token_verifier_mac}
use tweet_db.Auth.{Db, SessionRecord, Action, resume, ◌>>=◌, pure, lift, is_active, same_bytes}
use tweet_db.Auth.Store.{
  insert_pending_sso_login, find_session, delete_session, update_authorization_status,
}
use tweet_db.Auth.Environment.{Environment, AuthorizationStatusResponse, check_authorization}
use tweet_db.Auth.Session.{
  Clock, clear, AuthorizationRefreshOutcome, unchanged, active, Resolved, plus, revoke, still, gone,
  lost, checked, refresh_authorization_if_needed, admit, verified, with_secret,
  resolve_request_session,
}
use tweet_db.Auth.Login.{
  CallbackQuery, sso_callback, revocation_webhook, internal_register_complete, internal_logout,
  begin_sso_login,
}
use tweet_db.Auth.Login.Registered.{AllBound}
use tweet_db.Auth.Login.Kept.{
  IsKeeping, sso_callback-IsKeeping, webhook-IsKeeping, register-IsKeeping, logout-IsKeeping,
  revoke-IsKeeping, update-IsKeeping, then-IsKeeping,
}
use tweet_db.Auth.Login.Renewed.{IsDated, with_session-IsDated, admit-AllBound, refresh_outcome}

checked-IsKeeping :
    (config : SessionSection) (skew id now : ℕ) (o : Option AuthorizationStatusResponse)
    → IsKeeping config skew (checked id now o)
checked-IsKeeping config skew id now none db all = revoke-IsKeeping config skew id (gone now) db all
checked-IsKeeping config skew id now (some status) db all = go status.active
  where
    stay : IsKeeping config skew (
        update_authorization_status id (still status now) >>= λ _.
        pure (active now status.expires_at))
    stay =
        then-IsKeeping config skew (update_authorization_status id (still status now))
          (λ _. pure (active now status.expires_at))
          (update-IsKeeping config skew id (still status now)) (λ _ at kept. kept)

    go :
        (b : Bool)
        → AllBound config skew
            ((if b
                then (update_authorization_status id (still status now) >>= λ _.
                    pure (active now status.expires_at))
                else revoke id (lost status now))
              db).1.sessions
    go true = stay db all
    go false = revoke-IsKeeping config skew id (lost status now) db all

refresh-IsKeeping :
    (config : SessionSection) (skew : ℕ) (env : Environment) (clock : Clock) (s : SessionRecord)
    → IsKeeping config skew (refresh_authorization_if_needed env clock s)
unfolding refresh_authorization_if_needed
refresh-IsKeeping config skew env clock s db all = go (
    ltb clock.at_refresh
      (plus 1 s.authorization_last_checked_at env.sso.authorization_cache_ttl_seconds))
  where
    ask : Action AuthorizationRefreshOutcome
    ask =
        lift (check_authorization env s.authorization_id)
        >>= checked s.authorization_id clock.after_check

    go : (b : Bool) → AllBound config skew ((if b then pure unchanged else ask) db).1.sessions
    go true = all
    go false =
        then-IsKeeping config skew (lift (check_authorization env s.authorization_id))
          (checked s.authorization_id clock.after_check) (λ at kept. kept)
          (checked-IsKeeping config skew s.authorization_id clock.after_check) db all

verified-AllBound :
    (env : Environment) (skew : ℕ) (clock : Clock) (cookie : String) (auto : Bool)
    (secret : CompoundSecret)
    → (o : Option SessionRecord) (db : Db) → find_session secret.selector db ≡ o
    → AllBound env.session skew db.sessions
    → AllBound env.session skew (verified env clock cookie auto secret o db).1.sessions
unfolding find_session delete_session
verified-AllBound env skew clock cookie auto secret none db at all = all
verified-AllBound env skew clock cookie auto secret (some s) db at all = first (
    not (
      same_bytes s.verifier_hash
        (token_verifier_mac env.show_uuid env.hmac secret.selector secret.verifier)))
  where
    dated : IsDated s db
    dated = with_session-IsDated secret.selector (lookup secret.selector db.sessions) db s refl at

    go :
        (p : AppResult AuthorizationRefreshOutcome × Db)
        → refresh_authorization_if_needed env clock s db ≡ p
        → AllBound env.session skew p.1.sessions
        → AllBound env.session skew (resume p (admit env clock cookie auto s)).1.sessions
    go (err e, after) here kept = kept
    go (ok outcome, after) here kept = elim (refresh_outcome env clock s db outcome after here) [
      | inl gone_now ↦ admit-AllBound env skew clock cookie auto s outcome after (inl gone_now) kept
      | inr same ↦
          admit-AllBound env skew clock cookie auto s outcome after
            (inr (λ row found.
              dated row (subst (λ rows. lookup s.selector rows ≡ some row) same found)))
            kept
    ]

    continue : Action Resolved
    continue = refresh_authorization_if_needed env clock s >>= admit env clock cookie auto s

    drop_session : Action Resolved
    drop_session = λ at. (ok (clear, none), delete_session secret.selector at)

    second :
        (b : Bool)
        → AllBound env.session skew ((if b then drop_session else continue) db).1.sessions
    second true = All-remove _ secret.selector db.sessions all
    second false =
        go (refresh_authorization_if_needed env clock s db) refl
          (refresh-IsKeeping env.session skew env clock s db all)

    first :
        (b : Bool)
        → AllBound env.session skew
            ((if b
                then pure (clear, none)
                else (if leb s.expires_at clock.at_start || not (is_active s.authorization_status)
                    then drop_session
                    else continue))
              db).1.sessions
    first true = all
    first false = second (leb s.expires_at clock.at_start || not (is_active s.authorization_status))

-- A request, or a call of one of the handlers, with the readings of the clock and the new random
-- values that it uses.
pub data Event : Type 0 where
  request : Clock → Option String → Bool → Event
  login : ℕ → ℕ → String → Event
  callback : ℕ → ℕ → CompoundSecret → Option String → CallbackQuery → Event
  notice : ℕ → ℕ → Event
  registration : ℕ → ℕ → Option SessionRecord → String → Event
  logout : Option SessionRecord → Event

unfoldable pub handle : Environment → Event → Db → Db
handle env (request clock cookie auto) db = (resolve_request_session env clock cookie auto db).1
handle env (login now state verifier) db = begin_sso_login env now state verifier db
handle env (callback now db_now secret cookie query) db =
    (sso_callback env now db_now secret cookie query db).1
handle env (notice now id) db = (revocation_webhook env now id db).1
handle env (registration now user session raw) db =
    (internal_register_complete env now user session raw db).1
handle env (logout session) db = (internal_logout session db).1

unfoldable pub handle_all : Environment → List Event → Db → Db
handle_all env [] db = db
handle_all env (e ∷ events) db = handle_all env events (handle env e db)

-- When a login is completed, the clock of the program is at most `skew` seconds ahead of the one of the
-- database.
abbrev pub IsSynced : ℕ → Event → Type 0
IsSynced skew (request clock cookie auto) = Unit
IsSynced skew (login now state verifier) = Unit
IsSynced skew (callback now db_now secret cookie query) = now ≤ db_now + skew
IsSynced skew (notice now id) = Unit
IsSynced skew (registration now user session raw) = Unit
IsSynced skew (logout session) = Unit

request-AllBound :
    (env : Environment) (skew : ℕ) (clock : Clock) (cookie : Option String) (auto : Bool) (db : Db)
    → AllBound env.session skew db.sessions
    → AllBound env.session skew (resolve_request_session env clock cookie auto db).1.sessions
unfolding resolve_request_session
request-AllBound env skew clock none auto db all = all
request-AllBound env skew clock (some text) auto db all =
    go (parse_compound_secret env.parse_uuid text)
  where
    go :
        (o : Option CompoundSecret)
        → AllBound env.session skew (with_secret env clock text auto o db).1.sessions
    go none = all
    go (some secret) =
        verified-AllBound env skew clock text auto secret (find_session secret.selector db) db refl
          all

handle-AllBound :
    (env : Environment) (skew : ℕ) (e : Event) (db : Db)
    → IsSynced skew e
    → AllBound env.session skew db.sessions
    → AllBound env.session skew (handle env e db).sessions
unfolding handle begin_sso_login insert_pending_sso_login
handle-AllBound env skew (request clock cookie auto) db synced all =
    request-AllBound env skew clock cookie auto db all
handle-AllBound env skew (login now state verifier) db synced all = all
handle-AllBound env skew (callback now db_now secret cookie query) db synced all =
    sso_callback-IsKeeping env.session skew env now db_now secret cookie query refl synced db all
handle-AllBound env skew (notice now id) db synced all =
    webhook-IsKeeping env.session skew env now id db all
handle-AllBound env skew (registration now user session raw) db synced all =
    register-IsKeeping env.session skew env now user session raw db all
handle-AllBound env skew (logout session) db synced all =
    logout-IsKeeping env.session skew session db all

-- Whatever requests and handlers follow one another, if at every completed login the clock of the
-- program is at most `skew` seconds ahead of the database's: every session in the database that is
-- registered has a user, and no session expires more than `skew` seconds after the end of the
-- configured absolute limit, if there is one, counted from its creation by the database's clock,
-- however often it is renewed; if this holds at the beginning.
pub handle_all-AllBound :
    (env : Environment) (skew : ℕ) (events : List Event) (db : Db)
    → All (IsSynced skew) events
    → AllBound env.session skew db.sessions
    → AllBound env.session skew (handle_all env events db).sessions
unfolding handle_all
handle_all-AllBound env skew [] db synced all = all
handle_all-AllBound env skew (e ∷ events) db synced all =
    handle_all-AllBound env skew events (handle env e db) synced.1
      (handle-AllBound env skew e db synced.0 all)
