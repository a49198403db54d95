-- ===== src/Api/Capabilities.antt =====
-- Who may call what. docs/api.md and docs/architecture.md still say that every capability needs an
-- administrator; this is about what the code does.
use tweet_db.Base.{
  ◌≡◌, ◌↔◌, refl, inl, inr, Option, none, some, Bool, true, false, ◌||◌, [], ◌∷◌, ok, Bool-cases,
  arith,
}
use tweet_db.Auth.{SessionRecord, is_active}
use tweet_db.Auth.Roles.{require_registered_session}
use tweet_db.Api.{
  Capability, identity_read, identity_write, tweet_read, media_read, media_transfer_write,
  storage_read, transfer_write, search_read, search_write, audit_read, system_read,
  user_capabilities, has_capability, capable, capable_if, require_capability,
}

-- What a user who is no administrator may do.
abbrev pub is_browsing : Capability → Bool
is_browsing identity_read = false
is_browsing identity_write = false
is_browsing tweet_read = true
is_browsing media_read = true
is_browsing media_transfer_write = false
is_browsing storage_read = true
is_browsing transfer_write = false
is_browsing search_read = false
is_browsing search_write = false
is_browsing audit_read = false
is_browsing system_read = true

has_browsing :
    (c : Capability)
    → has_capability c (tweet_read ∷ media_read ∷ storage_read ∷ system_read ∷ []) ≡ is_browsing c
unfolding has_capability
has_browsing identity_read = refl
has_browsing identity_write = refl
has_browsing tweet_read = refl
has_browsing media_read = refl
has_browsing media_transfer_write = refl
has_browsing storage_read = refl
has_browsing transfer_write = refl
has_browsing search_read = refl
has_browsing search_write = refl
has_browsing audit_read = refl
has_browsing system_read = refl

capable-eq :
    (c : Capability) (s : SessionRecord)
    → capable c s ≡ capable_if (s.user_is_admin || is_browsing c) s
unfolding user_capabilities
capable-eq c s = elim (Bool-cases s.user_is_admin) [
  | inl admin ↦ rw (admin)
  | inr plain ↦ rw (plain, has_browsing c)
]

-- A session may do what a capability stands for exactly if its registration is complete, its user is
-- not disabled, and the user is an administrator or the capability is one of reading tweets, media,
-- storage and the state of the system.
pub require_capability_iff :
    (session : Option SessionRecord) (c : Capability) (s : SessionRecord)
    → (require_capability session c ≡ ok s) ↔ (
        (session ≡ some s)
        × (is_active s.registration_state ≡ true)
        × (s.user_disabled_at ≡ none)
        × ((s.user_is_admin || is_browsing c) ≡ true))
unfolding require_capability require_registered_session
require_capability_iff none c s = (λ h. ground arith, λ h. ground arith)
require_capability_iff (some t) c s =
    let e = capable-eq c t in (λ h. ground arith, λ h. ground arith)
