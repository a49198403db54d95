-- ===== src/Auth/Environment.antt =====
-- What the authentication calls outside the program: the SSO server over HTTP, the texts of uuids,
-- the keyed hash, and Rust's text functions. And what the code makes of the SSO server's answers
-- (server/src/auth/sso.rs).
use tweet_db.Base.{
  ℕ, ◌==◌, leb, ltb, Option, none, some, Bool, ◌&&◌, if◌then◌else◌, List, [], ◌∷◌, String,
  AppResult, ok, err, ◌>>=◌, upstream, text, num,
}
use tweet_db.Config.{SessionSection, SsoSection}

pub record AuthorizationStatusResponse : Type 0 where
  pub active : Bool
  pub status : String
  pub expires_at : Option ℕ
  pub revoked_at : Option ℕ

-- The body is an error when it is no such document.
pub record StatusAnswer : Type 0 where
  pub status : ℕ
  pub body : AppResult AuthorizationStatusResponse

pub record SsoExchangeResponse : Type 0 where
  pub subject_id : ℕ
  pub authorization_id : ℕ

pub record ExchangeAnswer : Type 0 where
  pub status : ℕ
  pub body : AppResult SsoExchangeResponse

pub record Environment : Type 0 where
  pub session : SessionSection
  pub sso : SsoSection
  pub parse_uuid : String → Option ℕ
  pub show_uuid : ℕ → String
  pub hmac : String → List ℕ
  pub get_authorization : ℕ → AppResult StatusAnswer
  pub post_exchange : String → String → AppResult ExchangeAnswer
  pub same_name : String → String → Bool
  pub trim : String → String
  pub is_word : String → Bool

abbrev pub is_success : ℕ → Bool
is_success status = leb 200 status && ltb status 300

abbrev pub found_status : StatusAnswer → AppResult (Option AuthorizationStatusResponse)
found_status answer =
    if answer.status == 404
    then ok none
    else if is_success answer.status
    then (answer.body >>= λ status. ok (some status))
    else err (upstream (text "authorization check failed with status " ∷ num answer.status ∷ []))

unfoldable pub check_authorization :
    Environment → ℕ → AppResult (Option AuthorizationStatusResponse)
check_authorization env id = env.get_authorization id >>= found_status

abbrev pub exchanged : ExchangeAnswer → AppResult SsoExchangeResponse
exchanged answer =
    if is_success answer.status
    then answer.body
    else err (upstream (text "sso exchange failed with status " ∷ num answer.status ∷ []))

unfoldable pub exchange_code : Environment → String → String → AppResult SsoExchangeResponse
exchange_code env code code_verifier = env.post_exchange code code_verifier >>= exchanged
