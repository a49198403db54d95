-- ===== src/Secrets.antt =====
-- server/src/security.rs: compound secrets. Uuids are numbers, their texts and the keyed hash are
-- parameters.
pub mod RoundTrip
use tweet_db.Base.{ℕ, ◌==◌, Option, none, some, Bool, true, false, not, ◌&&◌, if◌then◌else◌}
use Prim.Native.String.{String, [], ◌∷◌, ◌++◌}
use Prim.Native.Char.{code}

pub record CompoundSecret : Type 0 where
  pub selector : ℕ
  pub verifier : String

-- `splitn(2, '.')`: what stands before the first dot, and after it if there is one.
unfoldable pub split_dot : String → String × Option String
split_dot [] = ([], none)
split_dot (c ∷ s) =
    let (before, after) = split_dot s in if code c == 46 then ([], some s) else (c ∷ before, after)

unfoldable pub dotless : String → Bool
dotless [] = true
dotless (c ∷ s) = not (code c == 46) && dotless s

abbrev pub with_selector : Option ℕ → String → Option CompoundSecret
with_selector none verifier = none
with_selector (some selector) verifier = some (record { selector = selector; verifier = verifier })

module _ (parse_uuid : String → Option ℕ) where
  abbrev pub with_verifier : String → Option String → Option CompoundSecret
  with_verifier selector none = none
  with_verifier selector (some verifier) = with_selector (parse_uuid selector) verifier

  unfoldable pub parse_compound_secret : String → Option CompoundSecret
  parse_compound_secret value = let (before, after) = split_dot value in with_verifier before after

module _ (show_uuid : ℕ → String) where
  -- `format!("{}.{}", self.selector, self.verifier)`
  unfoldable pub compound_value : CompoundSecret → String
  compound_value secret = show_uuid secret.selector ++ ("." ++ secret.verifier)

  -- The text that the keyed hash is taken of; `Session` is the only kind of token.
  unfoldable pub token_verifier_mac : {H : Type 0} → (String → H) → ℕ → String → H
  token_verifier_mac hmac selector verifier =
      hmac ("session" ++ (":" ++ (show_uuid selector ++ (":" ++ verifier))))
