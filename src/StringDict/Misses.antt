-- ===== src/StringDict/Misses.antt =====
-- What a miss of the dictionary's cache does.
use mathlib.Core.Path.{subst}
use tweet_db.Base.{
  ℕ, ◌≡◌, refl, ap, inl, inr, Option, none, some, true, List, [], ◌∷◌, Bool-cases, arith,
}
use tweet_db.StringDict.{
  Entry, same_entry, Table, find_id, dict_id, insert_cached, World, insert_new, miss, hit_or_miss,
  is_cached, seen, miss_all,
}
use tweet_db.StringDict.Agreement.{Consistent, cons-hit, same_entry-eq, miss-Consistent}

-- The reference: the function of the database is asked each time.
unfoldable pub ask : Entry → Table → Option ℕ × Table
ask e t = let (id, after) = dict_id e t in (some id, after)

pub hit_or_miss-Consistent :
    (e : Entry) (o : Option ℕ) (w : World) → Consistent w → Consistent (hit_or_miss e o w).1
hit_or_miss-Consistent e (some id) w c = c
hit_or_miss-Consistent e none w c = miss-Consistent e w c

pub hit_or_miss-ask :
    (e : Entry) (o : Option ℕ) (w : World)
    → Consistent w
    → find_id e w.cache.by_key ≡ o
    → ((hit_or_miss e o w).0, (hit_or_miss e o w).1.table) ≡ ask e w.table
unfolding ask miss dict_id insert_new
hit_or_miss-ask e (some id) w c h = let known = c.keys e id h in ground arith
hit_or_miss-ask e none w c h = refl

pub hit_or_miss_cached :
    (e : Entry) (o : Option ℕ) (w : World)
    → find_id e w.cache.by_key ≡ o
    → find_id e (hit_or_miss e o w).1.cache.by_key ≡ (hit_or_miss e o w).0
unfolding miss insert_cached
hit_or_miss_cached e (some id) w h = h
hit_or_miss_cached e none w h = cons-hit e (dict_id e w.table).0 w.cache.by_key

-- A miss keeps what is cached.
pub miss_keeps :
    (e k : Entry) (w : World)
    → is_cached (find_id k w.cache.by_key) ≡ true
    → is_cached (find_id k (miss e w).1.cache.by_key) ≡ true
unfolding miss insert_cached find_id
miss_keeps e k w h = ground arith

pub miss_cached : (e : Entry) (w : World) → is_cached (find_id e (miss e w).1.cache.by_key) ≡ true
unfolding miss insert_cached
miss_cached e w = ap is_cached (cons-hit e (dict_id e w.table).0 w.cache.by_key)

pub miss_all-Consistent : (es : List Entry) (w : World) → Consistent w → Consistent (miss_all es w)
unfolding miss_all
miss_all-Consistent [] w c = c
miss_all-Consistent (e ∷ es) w c = miss_all-Consistent es (miss e w).1 (miss-Consistent e w c)

pub miss_all_keeps :
    (es : List Entry) (k : Entry) (w : World)
    → is_cached (find_id k w.cache.by_key) ≡ true
    → is_cached (find_id k (miss_all es w).cache.by_key) ≡ true
unfolding miss_all
miss_all_keeps [] k w h = h
miss_all_keeps (e ∷ es) k w h = miss_all_keeps es k (miss e w).1 (miss_keeps e k w h)

pub miss_all-seen :
    (es : List Entry) (k : Entry) (w : World)
    → seen k es ≡ true
    → is_cached (find_id k (miss_all es w).cache.by_key) ≡ true
unfolding miss_all seen
miss_all-seen [] k w h = absurd (cc h)
miss_all-seen (e ∷ es) k w h = elim (Bool-cases (same_entry e k)) [
  | inl s ↦ miss_all_keeps es k (miss e w).1 (
      subst (λ x. is_cached (find_id x (miss e w).1.cache.by_key) ≡ true) (same_entry-eq e k s)
        (miss_cached e w))
  | inr s ↦ miss_all-seen es k (miss e w).1 (ground arith)
]
