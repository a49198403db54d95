-- ===== src/Search/Tasks/Kinds.antt =====
-- The kinds of targets as texts.
use tweet_db.Base.{◌≡◌, refl, ok}
use tweet_db.Search.Tasks.{IndexTargetKind, user, tweet, as_db_str, from_db_str}

-- A kind that is written as its text is read back.
pub from_db_str-as_db_str : (kind : IndexTargetKind) → from_db_str (as_db_str kind) ≡ ok kind
unfolding from_db_str
from_db_str-as_db_str user = refl
from_db_str-as_db_str tweet = refl
