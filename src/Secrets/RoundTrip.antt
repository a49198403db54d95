-- ===== src/Secrets/RoundTrip.antt =====
-- A compound secret is read back from its text.
use Prim.Native.String.append.{nil, cons}
use tweet_db.Base.{◌∙◌, ap, ℕ, ◌≡◌, ◌==◌, Option, some, true, false, arith}
use Prim.Native.String.{String, [], ◌∷◌, ◌++◌}
use Prim.Native.Char.{char, code}
use tweet_db.Secrets.{CompoundSecret, split_dot, dotless, parse_compound_secret, compound_value}

split_dot-++ : (a v : String) → dotless a ≡ true → split_dot (a ++ ("." ++ v)) ≡ (a, some v)
unfolding split_dot dotless
split_dot-++ [] v h =
    let dot : ("." ++ v) ≡ (char 46 tt ∷ v) =
      cons (char 46 tt) [] v ∙ ap (λ s. char 46 tt ∷ s) (nil v) in
    rw (nil ("." ++ v), dot)
split_dot-++ (c ∷ a) v h =
    let rest = split_dot-++ a v (ground arith) in
    let other : (code c == 46) ≡ false = ground arith in rw (cons c a ("." ++ v), rest, other)

-- If the text of a uuid has no dot and is read as that uuid, the value of a compound secret is parsed
-- as its selector and its verifier, whatever the verifier is.
pub parse_compound_secret-compound_value :
    (parse_uuid : String → Option ℕ) (show_uuid : ℕ → String) (secret : CompoundSecret)
    → dotless (show_uuid secret.selector) ≡ true
    → parse_uuid (show_uuid secret.selector) ≡ some secret.selector
    → parse_compound_secret parse_uuid (compound_value show_uuid secret) ≡ some secret
unfolding parse_compound_secret compound_value
parse_compound_secret-compound_value parse_uuid show_uuid secret plain read =
    rw (split_dot-++ (show_uuid secret.selector) secret.verifier plain, read)
