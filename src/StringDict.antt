-- ===== src/StringDict.antt =====
-- server/src/string_dict.rs: the cache of the dictionary of strings, with the function tweet.dict_id of
-- server/migrations/20260408000030_tweet.sql. Rust's `trim` is a parameter.
pub mod Semantic
pub mod Agreement
pub mod Misses
pub mod Ensured
use tweet_db.Base.{
  ℕ, ◌+◌, Option, none, some, Bool, true, false, ◌&&◌, ◌||◌, not, List, [], ◌∷◌, ◌==◌,
  if◌then◌else◌, String, same_text,
}
use tweet_db.StringDict.Semantic.{StringSemantic, same_semantic}

-- StringDictValue, which is also the key of `by_key`.
pub record Entry : Type 0 where
  pub semantic : StringSemantic
  pub value : String

abbrev pub same_entry : Entry → Entry → Bool
same_entry a b = same_semantic a.semantic b.semantic && same_text a.value b.value

-- The table, newest row first, and the next id of its identity column.
pub record Table : Type 0 where
  pub rows : List (ℕ × Entry)
  pub next_id : ℕ

unfoldable pub find_id : Entry → List (ℕ × Entry) → Option ℕ
find_id e [] = none
find_id e ((id, x) ∷ rows) = let rest = find_id e rows in if same_entry x e then some id else rest

unfoldable pub find_entry : ℕ → List (ℕ × Entry) → Option Entry
find_entry id [] = none
find_entry id ((i, x) ∷ rows) = let rest = find_entry id rows in if i == id then some x else rest

unfoldable pub insert_new : Entry → Option ℕ → Table → ℕ × Table
insert_new e (some id) t = (id, t)
insert_new e none t =
    (t.next_id, record { rows = (t.next_id, e) ∷ t.rows; next_id = t.next_id + 1 })

-- tweet.dict_id
unfoldable pub dict_id : Entry → Table → ℕ × Table
dict_id e t = insert_new e (find_id e t.rows) t

-- The two maps, with the latest insertion first.
pub record CacheState : Type 0 where
  pub by_key : List (ℕ × Entry)
  pub by_id : List (ℕ × Entry)

unfoldable pub insert_cached : ℕ → Entry → CacheState → CacheState
insert_cached id e c = record { by_key = (id, e) ∷ c.by_key; by_id = (id, e) ∷ c.by_id }

-- `refresh` reads the rows in the order of their ids, the newest last.
unfoldable pub loaded : List (ℕ × Entry) → CacheState
loaded [] = record { by_key = []; by_id = [] }
loaded ((id, e) ∷ older) = insert_cached id e (loaded older)

pub record World : Type 0 where
  pub table : Table
  pub cache : CacheState

unfoldable pub refresh : World → World
refresh w = record w { cache = loaded w.table.rows }

unfoldable pub get_entry : ℕ → CacheState → Option Entry
get_entry id c = find_entry id c.by_id

abbrev pub value_of : Option Entry → Option String
value_of none = none
value_of (some e) = some e.value

unfoldable pub get_value : ℕ → CacheState → Option String
get_value id c = value_of (get_entry id c)

-- The call of the database on a miss.
unfoldable pub miss : Entry → World → ℕ × World
miss e w =
    let (id, table) = dict_id e w.table in
    (id, record { table = table; cache = insert_cached id e w.cache })

abbrev pub hit_or_miss : Entry → Option ℕ → World → Option ℕ × World
hit_or_miss e (some id) w = (some id, w)
hit_or_miss e none w = let (id, after) = miss e w in (some id, after)

abbrev pub push_some : Option ℕ → List ℕ → List ℕ
push_some none ids = ids
push_some (some id) ids = id ∷ ids

unfoldable pub seen : Entry → List Entry → Bool
seen e [] = false
seen e (x ∷ xs) = same_entry x e || seen e xs

abbrev pub is_cached : Option ℕ → Bool
is_cached none = false
is_cached (some id) = true

-- The rows of the answer are cached one after the other.
unfoldable pub miss_all : List Entry → World → World
miss_all [] w = w
miss_all (e ∷ es) w = miss_all es (miss e w).1

abbrev pub lookup_normal : StringSemantic → Option String → CacheState → Option ℕ
lookup_normal semantic none c = none
lookup_normal semantic (some v) c = find_id (record { semantic = semantic; value = v }) c.by_key

module _ (trim : String → String) where
  unfoldable pub normalize_value : String → Option String
  normalize_value value = let v = trim value in if same_text v "" then none else some v

  unfoldable pub get_id : StringSemantic → String → CacheState → Option ℕ
  get_id semantic value c = lookup_normal semantic (normalize_value value) c

  abbrev pub ensure_normal : StringSemantic → Option String → World → Option ℕ × World
  ensure_normal semantic none w = (none, w)
  ensure_normal semantic (some v) w =
      hit_or_miss (record { semantic = semantic; value = v }) (get_id semantic v w.cache) w

  abbrev pub normalize_option : Option String → Option String
  normalize_option none = none
  normalize_option (some value) = normalize_value value

  unfoldable pub ensure_id : StringSemantic → Option String → World → Option ℕ × World
  ensure_id semantic value w = ensure_normal semantic (normalize_option value) w

  unfoldable pub ensure_ids : StringSemantic → List String → World → List ℕ × World
  ensure_ids semantic [] w = ([], w)
  ensure_ids semantic (value ∷ values) w =
      let (id, next) = ensure_id semantic (some value) w in
      let (ids, final) = ensure_ids semantic values next in (push_some id ids, final)

  -- The entries of `ensure_many` that are neither blank nor repeated nor in the cache.
  abbrev pub add_missing : StringSemantic → Option String → CacheState → List Entry → List Entry
  add_missing semantic none c found = found
  add_missing semantic (some v) c found =
      let e : Entry = record { semantic = semantic; value = v } in
      if seen e found || is_cached (get_id semantic v c) then found else e ∷ found

  unfoldable pub missing : List Entry → CacheState → List Entry
  missing [] c = []
  missing (x ∷ xs) c = add_missing x.semantic (normalize_value x.value) c (missing xs c)

  unfoldable pub ensure_many : List Entry → World → World
  ensure_many values w = miss_all (missing values w.cache) w
