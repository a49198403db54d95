-- ===== src/Base/Texts.antt =====
-- What the code does with a Rust `str`.
use Prim.Native.Nat.{ℕ, zero, suc}
use Prim.Native.String.{String, [], ◌∷◌}
use mathlib.Core.Bool.{Bool}
use text.Mathlib.Text

-- `==` on texts.
abbrev pub same_text : String → String → Bool
same_text a b = Text.◌==◌ a b

-- `value.chars().take(n).collect()`
unfoldable pub take_chars : ℕ → String → String
take_chars zero s = []
take_chars (suc n) [] = []
take_chars (suc n) (c ∷ s) = c ∷ take_chars n s
