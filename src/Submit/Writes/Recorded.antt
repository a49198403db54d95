-- ===== src/Submit/Writes/Recorded.antt =====
-- What a batch leaves in the results.
use tweet_db.Base.{
  ℕ, zero, suc, ◌<◌, ◌≡◌, refl, sym, ap, ◌∙◌, Option, none, some, List, [], ◌∷◌, ◌++◌, map, length,
  append_assoc, append-nil, ◌==◌, if◌then◌else◌, String, AppResult, AppError, All, All-map, keep,
  Bool-cases, inl, inr, arith,
}
use tweet_db.Submit.Results.{Builder, Operation, operation}
use tweet_db.Submit.Writes.{
  ConditionalWrite, Indexed, update_at, record_each, status_operation, write_status_batch,
  change_operation, write_changed_batch,
}

-- The result at an index.
abbrev pub nth : ℕ → List Builder → Option Builder
nth i [] = none
nth zero (b ∷ results) = some b
nth (suc i) (b ∷ results) = nth i results

abbrev pub on_some : (Builder → Builder) → Option Builder → Option Builder
on_some f none = none
on_some f (some b) = some (f b)

-- Further operations.
abbrev pub with_more : List Operation → Builder → Builder
with_more ops b = record b { operations = b.operations ++ ops }

-- The result at an index after the change at another.
abbrev Changed : ℕ → (Builder → Builder) → List Builder → List Builder → Type 0
Changed j change before after =
    (i : ℕ) → nth i after ≡ (if j == i then on_some change (nth i before) else nth i before)

Changed-head :
    (change : Builder → Builder) (b : Builder) (results : List Builder)
    → Changed 0 change (b ∷ results) (change b ∷ results)
Changed-head change b results zero = refl
Changed-head change b results (suc i) = ground arith

Changed-tail :
    (j : ℕ) (change : Builder → Builder) (b : Builder) (results after : List Builder)
    → Changed j change results after
    → Changed (suc j) change (b ∷ results) (b ∷ after)
Changed-tail j change b results after at zero = ground arith
Changed-tail j change b results after at (suc i) = rw (at i) (ground arith)

update_at-Changed :
    (j : ℕ) (change : Builder → Builder) (results : List Builder)
    → j < length results
    → (after : List Builder) × (update_at j change results ≡ some after)
      × (length after ≡ length results)
      × Changed j change results after
unfolding update_at
update_at-Changed j change [] h = absurd (omega arith)
update_at-Changed zero change (b ∷ results) h =
    (change b ∷ results, refl, refl, Changed-head change b results)
update_at-Changed (suc j) change (b ∷ results) h =
    let (after, e, len, at) = update_at-Changed j change results (omega arith) in
    (b ∷ after, rw e refl, ap suc len, Changed-tail j change b results after at)

with_more_none : (o : Option Builder) → o ≡ on_some (with_more []) o
with_more_none none = refl
with_more_none (some b) =
    ap (λ ops. some (record b { operations = ops })) (sym (append-nil b.operations))

with_more_more :
    (op : Operation) (ops : List Operation) (o : Option Builder)
    → on_some (with_more ops) (on_some (operation op) o) ≡ on_some (with_more (op ∷ ops)) o
unfolding operation
with_more_more op ops none = refl
with_more_more op ops (some b) =
    ap (λ all. some (record b { operations = all })) (append_assoc b.operations (op ∷ []) ops)

module _ {T : Type 0} where
  -- The operations of the items that have the index.
  abbrev pub own : (T → Operation) → ℕ → List (Indexed T) → List Operation
  own op i items = map (λ item. op item.value) (keep (λ item. item.index == i) items)

  -- Every result keeps its operations, and gets those of its own items, in their order.
  abbrev pub Records : (T → Operation) → List (Indexed T) → List Builder → List Builder → Type 0
  Records op items before after =
      (length after ≡ length before)
      × ((i : ℕ) → nth i after ≡ on_some (with_more (own op i items)) (nth i before))

  pub record_each-Records :
      (op : T → Operation) (items : List (Indexed T)) (results : List Builder)
      → All (λ item. item.index < length results) items
      → (after : List Builder) × (record_each op items results ≡ some after)
        × Records op items results after
  unfolding record_each
  record_each-Records op [] results all =
      (results, refl, (refl, λ i. with_more_none (nth i results)))
  record_each-Records op (item ∷ items) results all =
      let (next, e, len, at) =
        update_at-Changed item.index (operation (op item.value)) results all.0 in
      let (after, f, (len2, rest)) =
        record_each-Records op items next (All-map _ (λ x h. omega (arith, h, len)) items all.1) in
      (
        after,
        rw e f,
        (
          len2 ∙ len,
          λ i. elim (Bool-cases (item.index == i)) [
            | inl same ↦
                rw (rest i, at i, same)
                  (with_more_more (op item.value) (own op i items) (nth i results))
            | inr differ ↦ rw (rest i, at i, differ) refl
          ],
        ),
      )

  module _ (to_string : AppError → String) where
    -- If the indices of a batch's items lie within the results, the batch does not panic, whatever the
    -- store answers, and every result keeps its operations and gets one for each of its own items.
    pub write_status_batch-Records :
        (name : String) (answer : AppResult (T → Option ConditionalWrite))
        → (items : List (Indexed T)) (results : List Builder)
        → All (λ item. item.index < length results) items
        → (after : List Builder) × (write_status_batch to_string name answer items results
            ≡ some after)
          × Records (status_operation to_string name answer) items results after
    unfolding write_status_batch
    write_status_batch-Records name answer items results all =
        record_each-Records (status_operation to_string name answer) items results all

    -- If the indices of a batch's items lie within the results, the batch does not panic, whatever the
    -- list of changed ids that the store answers with or its error, and every result keeps its operations
    -- and gets one for each of its own items.
    pub write_changed_batch-Records :
        (name : String) (id : T → ℕ) (answer : AppResult (List ℕ))
        → (items : List (Indexed T)) (results : List Builder)
        → All (λ item. item.index < length results) items
        → (after : List Builder) × (write_changed_batch to_string name id answer items results
            ≡ some after)
          × Records (change_operation to_string name id answer) items results after
    unfolding write_changed_batch
    write_changed_batch-Records name id answer items results all =
        record_each-Records (change_operation to_string name id answer) items results all
