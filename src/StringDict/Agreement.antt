-- ===== src/StringDict/Agreement.antt =====
-- The cache of the dictionary against its table.
use text.Mathlib.TextEquality.{eq_iff}
use mathlib.Core.Path.{subst}
use tweet_db.Base.{
  ℕ, ◌+◌, ◌≡◌, refl, sym, ap, ◌<◌, ◌⊎◌, inl, inr, Option, none, some, true, false, List, [], ◌∷◌,
  ◌==◌, ==_iff, same_text, Bool-cases, arith,
}
use tweet_db.StringDict.Semantic.{same_semantic-eq, same_semantic_refl}
use tweet_db.StringDict.{
  Entry, same_entry, Table, find_id, find_entry, insert_new, dict_id, insert_cached, loaded, World,
  refresh, miss,
}

-- Every key is found with an id that leads back to it, and the ids are below the next one.
pub record Sound (t : Table) : Type 0 where
  pub back : (k : Entry) (id : ℕ) → find_id k t.rows ≡ some id → find_entry id t.rows ≡ some k
  pub fresh : (id : ℕ) (e : Entry) → find_entry id t.rows ≡ some e → id < t.next_id

-- Both maps of the cache repeat rows of the table, and they agree with one another.
pub record Consistent (w : World) : Type 0 where
  pub table_sound : Sound w.table
  pub keys :
      (k : Entry) (id : ℕ) → find_id k w.cache.by_key ≡ some id → find_id k w.table.rows ≡ some id
  pub entries :
      (id : ℕ) (e : Entry)
      → find_entry id w.cache.by_id ≡ some e
      → find_entry id w.table.rows ≡ some e
  pub both :
      (k : Entry) (id : ℕ)
      → find_id k w.cache.by_key ≡ some id
      → find_entry id w.cache.by_id ≡ some k

pub same_entry-eq : (a b : Entry) → same_entry a b ≡ true → a ≡ b
same_entry-eq a b h =
    let s : a.semantic ≡ b.semantic = same_semantic-eq a.semantic b.semantic (ground arith) in
    let v : a.value ≡ b.value = (eq_iff a.value b.value).0 (ground arith) in
    λ i. record { semantic = s i; value = v i }

pub same_entry_refl : (a : Entry) → same_entry a a ≡ true
same_entry_refl a =
    let s = same_semantic_refl a.semantic in
    let v : same_text a.value a.value ≡ true = (eq_iff a.value a.value).1 refl in ground arith

-- A row in front answers for its own key.
pub cons-hit : (e : Entry) (id : ℕ) (rows : List (ℕ × Entry)) → find_id e ((id, e) ∷ rows) ≡ some id
unfolding find_id
cons-hit e id rows = let s = same_entry_refl e in ground arith

cons-other :
    (k e : Entry) (i : ℕ) (rows : List (ℕ × Entry))
    → same_entry e k ≡ false
    → find_id k ((i, e) ∷ rows) ≡ find_id k rows
unfolding find_id
cons-other k e i rows s = ground arith

-- What holds of an answer of `find_id` after a row is put in front.
cons_answer {ℓ} :
    (P : Entry → ℕ → Type ℓ) (k e : Entry) (id i : ℕ) (rows : List (ℕ × Entry))
    → P e i
    → (find_id k rows ≡ some id → P k id)
    → find_id k ((i, e) ∷ rows) ≡ some id
    → P k id
unfolding find_id
cons_answer P k e id i rows own rest h = elim (Bool-cases (same_entry e k)) [
  | inl s ↦
      let same : e ≡ k = same_entry-eq e k s in
      let at : i ≡ id = ground arith in subst (λ x. P x id) same (subst (λ x. P e x) at own)
  | inr s ↦ rest (ground arith)
]

entry-hit : (e : Entry) (i : ℕ) (rows : List (ℕ × Entry)) → find_entry i ((i, e) ∷ rows) ≡ some e
unfolding find_entry
entry-hit e i rows = ground arith

entry-later :
    (t : Table) (e x : Entry) (id : ℕ)
    → Sound t
    → find_entry id t.rows ≡ some x
    → find_entry id ((t.next_id, e) ∷ t.rows) ≡ some x
unfolding find_entry
entry-later t e x id sound h = let below = sound.fresh id x h in ground arith

entry-below :
    (t : Table) (e x : Entry) (id : ℕ)
    → Sound t
    → find_entry id ((t.next_id, e) ∷ t.rows) ≡ some x
    → id < t.next_id + 1
unfolding find_entry
entry-below t e x id sound h = let below = sound.fresh id x in ground arith

inserted-Sound :
    (t : Table) (e : Entry)
    → Sound t
    → Sound (record { rows = (t.next_id, e) ∷ t.rows; next_id = t.next_id + 1 })
inserted-Sound t e sound = record {
  back = λ k id h.
      cons_answer (λ x i. find_entry i ((t.next_id, e) ∷ t.rows) ≡ some x) k e id t.next_id t.rows
        (entry-hit e t.next_id t.rows) (λ old. entry-later t e k id sound (sound.back k id old)) h;
  fresh = λ id x h. entry-below t e x id sound h;
}

-- What the database promises of the answer `id` to `e`, and of the table after it.
record Answered (e : Entry) (before : Table) (id : ℕ) (after : Table) : Type 0 where
  sound : Sound after
  found : find_id e after.rows ≡ some id
  keeps_keys : (k : Entry) (i : ℕ) → find_id k before.rows ≡ some i → find_id k after.rows ≡ some i
  keeps_entries :
      (i : ℕ) (x : Entry) → find_entry i before.rows ≡ some x → find_entry i after.rows ≡ some x

keys-later :
    (e k : Entry) (id i : ℕ) (rows : List (ℕ × Entry))
    → find_id e rows ≡ none
    → find_id k rows ≡ some i
    → find_id k ((id, e) ∷ rows) ≡ some i
unfolding find_id
keys-later e k id i rows new old = elim (Bool-cases (same_entry e k)) [
  | inl s ↦
      let moved : find_id e rows ≡ find_id k rows =
        ap (λ x. find_id x rows) (same_entry-eq e k s) in
      absurd (cc (moved, new, old))
  | inr s ↦ ground arith
]

insert_new-Answered :
    (e : Entry) (t : Table) (found : Option ℕ)
    → Sound t
    → find_id e t.rows ≡ found
    → Answered e t (insert_new e found t).0 (insert_new e found t).1
unfolding insert_new
insert_new-Answered e t (some id) sound h = record {
  sound = sound;
  found = h;
  keeps_keys = λ k i x. x;
  keeps_entries = λ i k x. x;
}
insert_new-Answered e t none sound h = record {
  sound = inserted-Sound t e sound;
  found = cons-hit e t.next_id t.rows;
  keeps_keys = λ k i x. keys-later e k t.next_id i t.rows h x;
  keeps_entries = λ i x old. entry-later t e x i sound old;
}

dict_id-Answered : (e : Entry) (t : Table) → Sound t → Answered e t (dict_id e t).0 (dict_id e t).1
unfolding dict_id
dict_id-Answered e t sound = insert_new-Answered e t (find_id e t.rows) sound refl

entry_cons :
    (e x : Entry) (id i : ℕ) (rows : List (ℕ × Entry))
    → find_entry i ((id, e) ∷ rows) ≡ some x
    → ((id ≡ i) × (e ≡ x)) ⊎ (find_entry i rows ≡ some x)
unfolding find_entry
entry_cons e x id i rows h = elim (Bool-cases (id == i)) [
  | inl same ↦ inl ((==_iff id i).0 same, ground arith)
  | inr other ↦ inr (ground arith)
]

entry_agrees :
    (e k : Entry) (id i : ℕ) (rows by_id : List (ℕ × Entry))
    → find_entry id rows ≡ some e
    → find_entry i rows ≡ some k
    → find_entry i by_id ≡ some k
    → find_entry i ((id, e) ∷ by_id) ≡ some k
unfolding find_entry
entry_agrees e k id i rows by_id here there cached = elim (Bool-cases (id == i)) [
  | inl same ↦
      let moved : find_entry id rows ≡ find_entry i rows =
        ap (λ x. find_entry x rows) ((==_iff id i).0 same) in
      ground arith
  | inr other ↦ ground arith
]

-- An answer of the database is put into the cache.
cached-Consistent :
    (e : Entry) (w : World) (id : ℕ) (after : Table)
    → Consistent w
    → Answered e w.table id after
    → Consistent (record { table = after; cache = insert_cached id e w.cache })
unfolding insert_cached
cached-Consistent e w id after c a =
    let here = a.sound.back e id a.found in
    record {
      table_sound = a.sound;
      keys = λ k i h.
          cons_answer (λ x j. find_id x after.rows ≡ some j) k e i id w.cache.by_key a.found
            (λ old. a.keeps_keys k i (c.keys k i old)) h;
      entries = λ i x h. elim (entry_cons e x id i w.cache.by_id h) [
        | inl (at, same) ↦
            subst (λ j. find_entry j after.rows ≡ some x) at
              (subst (λ y. find_entry id after.rows ≡ some y) same here)
        | inr old ↦ a.keeps_entries i x (c.entries i x old)
      ];
      both = λ k i h.
          cons_answer (λ x j. find_entry j ((id, e) ∷ w.cache.by_id) ≡ some x) k e i id
            w.cache.by_key (entry-hit e id w.cache.by_id)
            (λ old.
              entry_agrees e k id i after.rows w.cache.by_id here
                (a.sound.back k i (a.keeps_keys k i (c.keys k i old))) (c.both k i old))
            h;
    }

pub miss-Consistent : (e : Entry) (w : World) → Consistent w → Consistent (miss e w).1
unfolding miss
miss-Consistent e w c =
    cached-Consistent e w (dict_id e w.table).0 (dict_id e w.table).1 c
      (dict_id-Answered e w.table c.table_sound)

-- `refresh` copies the table.
loaded_keys : (rows : List (ℕ × Entry)) → (loaded rows).by_key ≡ rows
unfolding loaded insert_cached
loaded_keys [] = refl
loaded_keys ((id, e) ∷ older) = ap (λ xs. (id, e) ∷ xs) (loaded_keys older)

loaded_entries : (rows : List (ℕ × Entry)) → (loaded rows).by_id ≡ rows
unfolding loaded insert_cached
loaded_entries [] = refl
loaded_entries ((id, e) ∷ older) = ap (λ xs. (id, e) ∷ xs) (loaded_entries older)

pub refresh-Consistent : (w : World) → Sound w.table → Consistent (refresh w)
unfolding refresh
refresh-Consistent w sound = record {
  table_sound = sound;
  keys = λ k i h. subst (λ xs. find_id k xs ≡ some i) (loaded_keys w.table.rows) h;
  entries = λ i x h. subst (λ xs. find_entry i xs ≡ some x) (loaded_entries w.table.rows) h;
  both = λ k i h.
      subst (λ xs. find_entry i xs ≡ some k) (sym (loaded_entries w.table.rows))
        (sound.back k i (subst (λ xs. find_id k xs ≡ some i) (loaded_keys w.table.rows) h));
}
