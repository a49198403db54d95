-- ===== src/Auth/Roles.antt =====
-- What a session may do and what the client is told of it: the guards of server/src/auth/session.rs
-- and the responses of server/src/auth/responses.rs.
pub mod Guards
use tweet_db.Base.{
  ℕ, leb, Option, none, some, Bool, true, false, not, ◌&&◌, if◌then◌else◌, List, [], ◌∷◌, String,
  same_text, AppResult, ok, err, ◌>>=◌, AppError, unauthorized, forbidden, bad_request, text,
}
use Prim.Native.String.{len}
use tweet_db.Auth.{SessionRecord, is_active}

abbrev pub is_present {ℓ} : {A : Type ℓ} → Option A → Bool
is_present none = false
is_present (some a) = true

unfoldable pub require_registered_session : Option SessionRecord → AppResult SessionRecord
require_registered_session none = err (unauthorized (text "session required" ∷ []))
require_registered_session (some s) =
    if not (is_active s.registration_state)
    then err (unauthorized (text "registration must be completed" ∷ []))
    else if is_present s.user_disabled_at
    then err (forbidden (text "account is disabled" ∷ []))
    else ok s

abbrev pub admin_only : SessionRecord → AppResult SessionRecord
admin_only s =
    if not s.user_is_admin then err (forbidden (text "admin access required" ∷ [])) else ok s

unfoldable pub require_admin_session : Option SessionRecord → AppResult SessionRecord
require_admin_session session = require_registered_session session >>= admin_only

unfoldable pub require_pending_registration : Option SessionRecord → AppResult SessionRecord
require_pending_registration none = err (unauthorized (text "session required" ∷ []))
require_pending_registration (some s) =
    if not (same_text s.registration_state "pending")
    then err (bad_request (text "session is not pending registration" ∷ []))
    else ok s

-- `is_word` says that all characters are ASCII letters, digits or underscores.
unfoldable pub normalize_username : (String → String) → (String → Bool) → String → AppResult String
normalize_username trim is_word raw =
    let username = trim raw in
    if not (leb 3 (len username) && leb (len username) 32)
    then err (bad_request (text "username length must be between 3 and 32 characters" ∷ []))
    else if not (is_word username)
    then err (bad_request (text "username may only contain letters, digits, and underscores" ∷ []))
    else ok username

pub record SessionMeResponse : Type 0 where
  pub authenticated : Bool
  pub registered : Bool
  pub username : Option String
  pub expires_at : Option ℕ
  pub account_url : Option String

abbrev pub unless_registered : Bool → String → Option String
unless_registered true url = none
unless_registered false url = some url

-- `account_url` is `account_management_url(base_url)`.
unfoldable pub build_public_session_response : String → Option SessionRecord → SessionMeResponse
build_public_session_response account_url none = record {
  authenticated = false;
  registered = false;
  username = none;
  expires_at = none;
  account_url = some account_url;
}
build_public_session_response account_url (some s) = record {
  authenticated = true;
  registered = is_active s.registration_state;
  username = s.username;
  expires_at = some s.expires_at;
  account_url = unless_registered (is_active s.registration_state) account_url;
}

pub record InternalSessionMeResponse : Type 0 where
  pub authenticated : Bool
  pub registered : Bool
  pub is_admin : Bool
  pub disabled : Bool
  pub activation_required : Bool
  pub user_id : Option ℕ
  pub username : Option String
  pub subject_id : Option ℕ
  pub authorization_id : Option ℕ
  pub disabled_at : Option ℕ
  pub disabled_by_user_id : Option ℕ
  pub expires_at : Option ℕ

unfoldable pub build_internal_session_me_response : Option SessionRecord → InternalSessionMeResponse
build_internal_session_me_response none = record {
  authenticated = false;
  registered = false;
  is_admin = false;
  disabled = false;
  activation_required = false;
  user_id = none;
  username = none;
  subject_id = none;
  authorization_id = none;
  disabled_at = none;
  disabled_by_user_id = none;
  expires_at = none;
}
build_internal_session_me_response (some s) =
    let disabled = is_present s.user_disabled_at in
    record {
      authenticated = true;
      registered = is_active s.registration_state;
      is_admin = s.user_is_admin;
      disabled = disabled;
      activation_required = disabled && not (is_present s.user_disabled_by_user_id);
      user_id = s.user_id;
      username = s.username;
      subject_id = some s.sso_subject_id;
      authorization_id = some s.authorization_id;
      disabled_at = s.user_disabled_at;
      disabled_by_user_id = s.user_disabled_by_user_id;
      expires_at = some s.expires_at;
    }
