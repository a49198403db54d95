-- ===== src/Submit/Execute/Sound.antt =====
-- The indices that the batches use lie within the results.
use tweet_db.Base.{
  ℕ, ◌<◌, ◌≡◌, refl, Option, none, some, Bool, true, false, List, [], ◌∷◌, String, same_text,
  AppResult, ok, err, AppError, All, All-append, Bool-cases, inl, inr, if◌then◌else◌,
}
use tweet_db.Base.Dict.{Dict, lookup, All-insert, All-lookup}
use tweet_db.Queue.{member}
use tweet_db.Submit.Results.{Operation}
use tweet_db.Submit.Writes.{Indexed, ConditionalWrite}
use tweet_db.Submit.Prepare.{TwitterUser}
use tweet_db.Submit.Prepare.Users.{Within}
use tweet_db.Submit.Batch.{TweetPlace, Relations}
use tweet_db.Submit.Execute.{at_each, indices}
use tweet_db.Submit.Execute.Shared.{
  CombinedUserWrite, add_user, add_author, combine_users, combine_authors, write_combined_users,
  write_combined_authors, SharedPlace, add_place, dedupe_places, write_places, RelationSyncStatuses,
  synced, relation_operations, replace_relations,
}
use tweet_db.Submit.Execute.Transfers.{
  Task, Decision, pass, note, enqueue, noted, tasked, transfer_notes, transfer_tasks,
}
use tweet_db.Submit.Execute.Steps.{unique}

abbrev pub Below : ℕ → List ℕ → Type 0
Below n is = All (λ i. i < n) is

pub at_each-Within : (n : ℕ) (op : Operation) (is : List ℕ) → Below n is → Within n (at_each op is)
unfolding at_each
at_each-Within n op [] h = tt
at_each-Within n op (i ∷ is) h = (h.0, at_each-Within n op is h.1)

pub indices-Below :
    {Z : Type 0} (n : ℕ) (items : List (Indexed Z)) → Within n items → Below n (indices items)
unfolding indices
indices-Below n [] h = tt
indices-Below n (x ∷ items) h = (h.0, indices-Below n items h.1)

choice-Below :
    (n : ℕ) (b : Bool) (xs ys : List ℕ) → Below n xs → Below n ys → Below n (if b then xs else ys)
choice-Below n true xs ys h k = h
choice-Below n false xs ys h k = k

pub unique-Below : (n : ℕ) (is : List ℕ) → Below n is → Below n (unique is)
unfolding unique
unique-Below n [] h = tt
unique-Below n (i ∷ is) h =
    let rest = unique-Below n is h.1 in
    choice-Below n (member i (unique is)) (unique is) (i ∷ unique is) rest (h.0, rest)

-- The indices of a combined write.
abbrev pub Placed : ℕ → ℕ → ℕ × CombinedUserWrite → Type 0
Placed users tweets e = Below users e.1.user_indices × Below tweets e.1.tweet_indices

add_user-Placed :
    (users tweets id : ℕ) (o : Option CombinedUserWrite) (item : Indexed TwitterUser)
    → item.index < users
    → ((e : CombinedUserWrite) → o ≡ some e → Placed users tweets (id, e))
    → Placed users tweets (id, add_user o item)
add_user-Placed users tweets id none item h old = ((h, tt), tt)
add_user-Placed users tweets id (some e) item h old =
    (All-append _ e.user_indices (item.index ∷ []) (old e refl).0 (h, tt), (old e refl).1)

add_author-Placed :
    (users tweets id : ℕ) (o : Option CombinedUserWrite) (item : Indexed TwitterUser)
    → item.index < tweets
    → ((e : CombinedUserWrite) → o ≡ some e → Placed users tweets (id, e))
    → Placed users tweets (id, add_author o item)
add_author-Placed users tweets id none item h old = (tt, (h, tt))
add_author-Placed users tweets id (some e) item h old =
    ((old e refl).0, All-append _ e.tweet_indices (item.index ∷ []) (old e refl).1 (h, tt))

pub combine_users-Placed :
    (users tweets : ℕ) (items : List (Indexed TwitterUser)) (combined : Dict CombinedUserWrite)
    → Within users items
    → All (Placed users tweets) combined
    → All (Placed users tweets) (combine_users items combined)
unfolding combine_users
combine_users-Placed users tweets [] combined h all = all
combine_users-Placed users tweets (item ∷ items) combined h all =
    let id = item.value.id in
    combine_users-Placed users tweets items _ h.1 (
      All-insert _ id (add_user (lookup id combined) item) combined
        (add_user-Placed users tweets id (lookup id combined) item h.0
          (λ e found. All-lookup _ id combined all found))
        all)

pub combine_authors-Placed :
    (users tweets : ℕ) (items : List (Indexed TwitterUser)) (combined : Dict CombinedUserWrite)
    → Within tweets items
    → All (Placed users tweets) combined
    → All (Placed users tweets) (combine_authors items combined)
unfolding combine_authors
combine_authors-Placed users tweets [] combined h all = all
combine_authors-Placed users tweets (item ∷ items) combined h all =
    let id = item.value.id in
    combine_authors-Placed users tweets items _ h.1 (
      All-insert _ id (add_author (lookup id combined) item) combined
        (add_author-Placed users tweets id (lookup id combined) item h.0
          (λ e found. All-lookup _ id combined all found))
        all)

pub write_combined_users-Within :
    (users tweets : ℕ) (op : ℕ → Operation) (combined : Dict CombinedUserWrite)
    → All (Placed users tweets) combined
    → Within users (write_combined_users op combined)
unfolding write_combined_users
write_combined_users-Within users tweets op [] all = tt
write_combined_users-Within users tweets op ((id, e) ∷ combined) all =
    All-append _ (at_each (op e.value.id) e.user_indices) (write_combined_users op combined)
      (at_each-Within users (op e.value.id) e.user_indices all.0.0)
      (write_combined_users-Within users tweets op combined all.1)

pub write_combined_authors-Within :
    (users tweets : ℕ) (op : ℕ → Operation) (combined : Dict CombinedUserWrite)
    → All (Placed users tweets) combined
    → Within tweets (write_combined_authors op combined)
unfolding write_combined_authors
write_combined_authors-Within users tweets op [] all = tt
write_combined_authors-Within users tweets op ((id, e) ∷ combined) all =
    All-append _ (at_each (op e.value.id) e.tweet_indices) (write_combined_authors op combined)
      (at_each-Within tweets (op e.value.id) e.tweet_indices all.0.1)
      (write_combined_authors-Within users tweets op combined all.1)

module _ {V : Type 0} where
  abbrev pub Located : ℕ → SharedPlace V → Type 0
  Located n p = Below n p.indices

  add_place-Located :
      (n : ℕ) (item : Indexed (TweetPlace V)) (places : List (SharedPlace V))
      → item.index < n
      → All (Located n) places
      → All (Located n) (add_place item places)
  unfolding add_place
  add_place-Located n item [] h all = ((h, tt), tt)
  add_place-Located n item (p ∷ places) h all =
      elim (Bool-cases (same_text p.place.id item.value.id)) [
        | inl same ↦ rw same (All-append _ p.indices (item.index ∷ []) all.0 (h, tt), all.1)
        | inr other ↦ rw other (all.0, add_place-Located n item places h all.1)
      ]

  pub dedupe_places-Located :
      (n : ℕ) (items : List (Indexed (TweetPlace V))) (places : List (SharedPlace V))
      → Within n items
      → All (Located n) places
      → All (Located n) (dedupe_places items places)
  unfolding dedupe_places
  dedupe_places-Located n [] places h all = all
  dedupe_places-Located n (item ∷ items) places h all =
      dedupe_places-Located n items (add_place item places) h.1
        (add_place-Located n item places h.0 all)

  pub write_places-Within :
      (n : ℕ) (op : String → Operation) (places : List (SharedPlace V))
      → All (Located n) places
      → Within n (write_places op places)
  unfolding write_places
  write_places-Within n op [] all = tt
  write_places-Within n op (p ∷ places) all =
      All-append _ (at_each (op p.place.id) p.indices) (write_places op places)
        (at_each-Within n (op p.place.id) p.indices all.0) (write_places-Within n op places all.1)

module _ {F : Type 0} (to_string : AppError → String) where
  relation_operations-Within :
      (n : ℕ) (answer : AppResult (ℕ → Option RelationSyncStatuses)) (item : Indexed (Relations F))
      → item.index < n
      → Within n (relation_operations to_string answer item)
  relation_operations-Within n (err e) item h = (h, (h, (h, (h, tt))))
  relation_operations-Within n (ok statuses) item h = go (statuses item.value.tweet_id)
    where
      go : (o : Option RelationSyncStatuses) → Within n (synced item.index o)
      go none = (h, (h, (h, (h, tt))))
      go (some s) = (h, (h, (h, (h, tt))))

  pub replace_relations-Within :
      (n : ℕ) (answer : AppResult (ℕ → Option RelationSyncStatuses))
      (items : List (Indexed (Relations F)))
      → Within n items
      → Within n (replace_relations to_string answer items)
  unfolding replace_relations
  replace_relations-Within n answer [] h = tt
  replace_relations-Within n answer (item ∷ items) h =
      All-append _ (relation_operations to_string answer item)
        (replace_relations to_string answer items) (relation_operations-Within n answer item h.0)
        (replace_relations-Within n answer items h.1)

module _ {M R X : Type 0} (select_source : M → R → Option X) where
  noted-Within :
      (n index : ℕ) (d : Decision X) (rest : List (Indexed Operation))
      → index < n
      → Within n rest
      → Within n (noted index d rest)
  noted-Within n index pass rest h all = all
  noted-Within n index (note op) rest h all = (h, all)
  noted-Within n index (enqueue source) rest h all = all

  tasked-Within :
      (n index : ℕ) (resource : R) (d : Decision X) (rest : List (Indexed (Task R X)))
      → index < n
      → Within n rest
      → Within n (tasked index resource d rest)
  tasked-Within n index resource pass rest h all = all
  tasked-Within n index resource (note op) rest h all = all
  tasked-Within n index resource (enqueue source) rest h all = (h, all)

  pub transfer_notes-Within :
      (n : ℕ) (is_active : Bool) (statuses : R → Option ConditionalWrite) (media : Dict M)
      → (items : List (Indexed R)) → Within n items
      → Within n (transfer_notes select_source is_active statuses media items)
  unfolding transfer_notes
  transfer_notes-Within n is_active statuses media [] h = tt
  transfer_notes-Within n is_active statuses media (item ∷ items) h =
      noted-Within n item.index _ _ h.0 (transfer_notes-Within n is_active statuses media items h.1)

  pub transfer_tasks-Within :
      (n : ℕ) (is_active : Bool) (statuses : R → Option ConditionalWrite) (media : Dict M)
      → (items : List (Indexed R)) → Within n items
      → Within n (transfer_tasks select_source is_active statuses media items)
  unfolding transfer_tasks
  transfer_tasks-Within n is_active statuses media [] h = tt
  transfer_tasks-Within n is_active statuses media (item ∷ items) h =
      tasked-Within n item.index item.value _ _ h.0
        (transfer_tasks-Within n is_active statuses media items h.1)
