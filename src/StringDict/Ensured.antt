-- ===== src/StringDict/Ensured.antt =====
-- What the operations of the dictionary's cache promise.
use mathlib.Core.Path.{subst}
use tweet_db.Base.{
  All, All-map, ◌||◌, same_text, ℕ, ◌≡◌, refl, ap, inl, inr, Option, none, some, true, false, List,
  [], ◌∷◌, Bool, Bool-cases, ◌∙◌, String, arith,
}
use tweet_db.StringDict.{
  Entry, Table, find_id, CacheState, World, is_cached, seen, miss_all, missing, normalize_value,
  get_id, ensure_normal, ensure_id, ensure_ids, ensure_many, push_some, add_missing, lookup_normal,
}
use tweet_db.StringDict.Semantic.{StringSemantic}
use tweet_db.StringDict.Agreement.{Consistent, same_entry_refl}
use tweet_db.StringDict.Misses.{
  ask, hit_or_miss-Consistent, hit_or_miss-ask, miss_all-Consistent, miss_all_keeps, miss_all-seen,
}

or_right : (a b : Bool) → (a || b) ≡ true → a ≡ false → b ≡ true
or_right a b h k = ground arith

abbrev pub is_present : Option String → Bool
is_present none = false
is_present (some v) = true

-- The reference: a blank value has no id, and the database is asked for any other.
unfoldable pub asked : StringSemantic → Option String → Table → Option ℕ × Table
asked semantic none t = (none, t)
asked semantic (some v) t = ask (record { semantic = semantic; value = v }) t

module _ (trim : String → String) where
  unfoldable pub asked_each : StringSemantic → List String → Table → List ℕ × Table
  asked_each semantic [] t = ([], t)
  asked_each semantic (value ∷ values) t =
      let (id, next) = asked semantic (normalize_value trim value) t in
      let (ids, final) = asked_each semantic values next in (push_some id ids, final)

module _ (trim : String → String) (trim_twice : (s : String) → trim (trim s) ≡ trim s) where
  normalize_again :
      (value v : String) → normalize_value trim value ≡ some v → normalize_value trim v ≡ some v
  unfolding normalize_value
  normalize_again value v h =
      let at : trim value ≡ v = ground arith in
      let twice : trim v ≡ v = subst (λ x. trim x ≡ x) at (trim_twice value) in
      let kept : same_text v "" ≡ false = subst (λ x. same_text x "" ≡ false) at (ground arith) in
      rw (twice, kept)

  pub ensure_normal-asked :
      (semantic : StringSemantic) (value : String) (o : Option String) (w : World)
      → Consistent w
      → normalize_value trim value ≡ o
      → (((ensure_normal trim semantic o w).0, (ensure_normal trim semantic o w).1.table)
          ≡ asked semantic o w.table)
        × Consistent (ensure_normal trim semantic o w).1
  unfolding asked get_id
  ensure_normal-asked semantic value none w c h = (refl, c)
  ensure_normal-asked semantic value (some v) w c h =
      let e : Entry = record { semantic = semantic; value = v } in
      let again = normalize_again value v h in
      (
        hit_or_miss-ask e (get_id trim semantic v w.cache) w c (rw (again)),
        hit_or_miss-Consistent e (get_id trim semantic v w.cache) w c,
      )

  -- With a cache that is consistent with the table, `ensure_ids` returns the ids that the database
  -- would give if it were asked for each value, leaves the table that it would leave, and keeps the
  -- cache consistent.
  pub ensure_ids-asked_each :
      (semantic : StringSemantic) (values : List String) (w : World)
      → Consistent w
      → (((ensure_ids trim semantic values w).0, (ensure_ids trim semantic values w).1.table)
          ≡ asked_each trim semantic values w.table)
        × Consistent (ensure_ids trim semantic values w).1
  unfolding ensure_ids ensure_id asked_each
  ensure_ids-asked_each semantic [] w c = (refl, c)
  ensure_ids-asked_each semantic (value ∷ values) w c =
      let (same, kept) = ensure_normal-asked semantic value (normalize_value trim value) w c refl in
      let next : World = (ensure_id trim semantic (some value) w).1 in
      let (rest, final) = ensure_ids-asked_each semantic values next kept in
      let first : List ℕ × Table → List ℕ × Table =
        λ q. (push_some (ensure_id trim semantic (some value) w).0 q.0, q.1) in
      let then_each : Option ℕ × Table → List ℕ × Table = λ p. (
        push_some p.0 (asked_each trim semantic values p.1).0,
        (asked_each trim semantic values p.1).1,
      ) in
      (ap first rest ∙ ap then_each same, final)

  covers : StringSemantic → Option String → CacheState → List Entry → Bool
  covers semantic none c found = true
  covers semantic (some v) c found =
      seen (record { semantic = semantic; value = v }) found || is_cached (get_id trim semantic v c)

  covers_more :
      (semantic kind : StringSemantic) (o value : Option String) (c : CacheState)
      (found : List Entry)
      → covers semantic o c found ≡ true
      → covers semantic o c (add_missing trim kind value c found) ≡ true
  unfolding covers seen
  covers_more semantic kind none value c found h = refl
  covers_more semantic kind (some v) none c found h = h
  covers_more semantic kind (some v) (some u) c found h = ground arith

  covers_own :
      (semantic : StringSemantic) (o : Option String) (c : CacheState) (found : List Entry)
      → covers semantic o c (add_missing trim semantic o c found) ≡ true
  unfolding covers seen
  covers_own semantic none c found = refl
  covers_own semantic (some v) c found =
      let e : Entry = record { semantic = semantic; value = v } in
      let own = same_entry_refl e in ground arith

  missing-covers :
      (values : List Entry) (c : CacheState)
      → All
          (λ x. covers x.semantic (normalize_value trim x.value) c (missing trim values c) ≡ true)
          values
  unfolding missing
  missing-covers [] c = tt
  missing-covers (x ∷ xs) c = (
    covers_own x.semantic (normalize_value trim x.value) c (missing trim xs c),
    All-map _
        (λ y h.
          covers_more y.semantic x.semantic (normalize_value trim y.value)
            (normalize_value trim x.value) c (missing trim xs c) h)
        xs (missing-covers xs c),
  )

  covers-id :
      (semantic : StringSemantic) (value : String) (o : Option String) (w : World)
      (found : List Entry)
      → normalize_value trim value ≡ o
      → covers semantic o w.cache found ≡ true
      → is_cached (get_id trim semantic value (miss_all found w).cache) ≡ is_present o
  unfolding get_id covers
  covers-id semantic value none w found at h = rw (at)
  covers-id semantic value (some v) w found at h =
      let e : Entry = record { semantic = semantic; value = v } in
      let again = normalize_again value v at in
      elim (Bool-cases (seen e found)) [
        | inl s ↦ rw (at, miss_all-seen found e w s)
        | inr s ↦
            let old : is_cached (find_id e w.cache.by_key) ≡ true =
              or_right (seen e found) (is_cached (find_id e w.cache.by_key))
                (subst (λ o. (seen e found || is_cached (lookup_normal semantic o w.cache)) ≡ true)
                  again h)
                s in
            rw (at, miss_all_keeps found e w old)
      ]

  -- After `ensure_many`, `get_id` finds every value that is not blank, and the cache is still
  -- consistent with the table, if it was before.
  pub ensure_many-Loads :
      (values : List Entry) (w : World)
      → Consistent w
      → Consistent (ensure_many trim values w)
        × All
            (λ x.
              is_cached (get_id trim x.semantic x.value (ensure_many trim values w).cache)
              ≡ is_present (normalize_value trim x.value))
            values
  unfolding ensure_many
  ensure_many-Loads values w c = (
    miss_all-Consistent (missing trim values w.cache) w c,
    All-map _
        (λ x h.
          covers-id x.semantic x.value (normalize_value trim x.value) w
            (missing trim values w.cache) refl h)
        values (missing-covers values w.cache),
  )
