-- ===== src/Submit/Prepare/Users.antt =====
-- What the preparation hands to the writes.
use tweet_db.Base.{
  ℕ, suc, ◌+◌, ◌<◌, ◌≡◌, ◌≢◌, refl, ◌∙◌, sym, Option, none, some, true, List, [], ◌∷◌, ◌++◌, map,
  length, length-append, String, AppResult, ok, err, AppError, All, All-map, All-append, All-zip,
  ap, Bool-cases, inl, inr, arith,
}
use mathlib.Core.Path.{subst}
use tweet_db.Base.Dict.{Dict, lookup}
use tweet_db.Submit.Results.{Builder, new, operation, fatal, skip}
use tweet_db.Submit.Writes.{Indexed}
use tweet_db.Submit.Prepare.{
  SubmitUser, TwitterUser, Prepared, is_index, parse_i64_id, collect_last_valid_i64_indices,
  add_converted, prepare_valid, prepare_parsed, prepare_from, prepare_users,
}

-- The items point at results before `k`.
abbrev pub Within : ℕ → {Z : Type 0} → List (Indexed Z) → Type 0
Within k items = All (λ item. item.index < k) items

-- No two users have the same id.
abbrev pub DistinctIds : List (Indexed TwitterUser) → Type 0
DistinctIds [] = Unit {0}
DistinctIds (x ∷ items) = All (λ y. y.value.id ≢ x.value.id) items × DistinctIds items

DistinctIds-snoc :
    (items : List (Indexed TwitterUser)) (x : Indexed TwitterUser)
    → DistinctIds items
    → All (λ y. x.value.id ≢ y.value.id) items
    → DistinctIds (items ++ (x ∷ []))
DistinctIds-snoc [] x d all = (tt, tt)
DistinctIds-snoc (y ∷ items) x d all =
    (All-append _ items (x ∷ []) d.0 (all.0, tt), DistinctIds-snoc items x d.1 all.1)

pub Within-suc :
    {Z : Type 0} (k : ℕ) (items : List (Indexed Z)) → Within k items → Within (suc k) items
Within-suc k items all = All-map _ (λ x h. omega (arith, h)) items all

-- A user has the index that the map gives for its id.
abbrev pub Last : Dict ℕ → Indexed TwitterUser → Type 0
Last last item = lookup item.value.id last ≡ some item.index

pub add_converted-Within :
    {Z : Type 0} (to_string : AppError → String) (name : String) (index : ℕ)
    → (answer : Option (AppResult Z)) (items : List (Indexed Z)) (result : Builder)
    → Within index items
    → Within (suc index) (add_converted to_string name index answer items result).0
unfolding add_converted
add_converted-Within to_string name index none items result all = Within-suc index items all
add_converted-Within to_string name index (some (ok value)) items result all =
    All-append _ items (record { index = index; value = value } ∷ []) (Within-suc index items all)
      (omega arith, tt)
add_converted-Within to_string name index (some (err e)) items result all =
    Within-suc index items all

is_index-true : (o : Option ℕ) (index : ℕ) → is_index o index ≡ true → o ≡ some index
is_index-true none index h = absurd (cc h)
is_index-true (some i) index h = ap some (ground arith)

not_less : (a b : ℕ) → a ≡ b → b < a → ⊥
not_less a b e h = omega arith

some_same : (a b : ℕ) → some a ≡ some b → a ≡ b
some_same a b h = cc h

-- A new user is not one of those before, whose last indices are smaller.
Last-apart :
    (last : Dict ℕ) (id index : ℕ) (items : List (Indexed TwitterUser))
    → lookup id last ≡ some index
    → Within index items
    → All (Last last) items
    → All (λ y. id ≢ y.value.id) items
Last-apart last id index items e within all =
    All-zip _
      (λ y lt l same.
        not_less index y.index (some_same index y.index (sym e ∙ ap (λ i. lookup i last) same ∙ l))
          lt)
      items within all

module _ {S T : Type 0} where
  abbrev Inv : Dict ℕ → ℕ → Prepared S T → Type 0
  Inv last k acc =
      (length acc.results ≡ k)
      × Within k acc.users
      × All (Last last) acc.users
      × DistinctIds acc.users
      × Within k acc.snapshots
      × Within k acc.stats

  module _ (parse : String → Option ℕ) (to_string : AppError → String)
      (convert_user_snapshot : ℕ → SubmitUser → Option (AppResult S))
      (convert_user_stats : ℕ → SubmitUser → Option (AppResult T)) where
    prepare_valid-Inv :
        (last : Dict ℕ) (index id : ℕ) (user : SubmitUser) (acc : Prepared S T)
        → lookup id last ≡ some index
        → Inv last index acc
        → Inv last (suc index) (
            prepare_valid parse to_string convert_user_snapshot convert_user_stats index id user
              acc)
    unfolding prepare_valid
    prepare_valid-Inv last index id user acc e (len, within, all, distinct, snapshots, stats) = (
      omega (arith, len, length-append acc.results (_ ∷ [])),
      All-append _ acc.users (_ ∷ []) (Within-suc index acc.users within) (omega arith, tt),
      All-append _ acc.users (_ ∷ []) all (e, tt),
      DistinctIds-snoc acc.users _ distinct (Last-apart last id index acc.users e within all),
      add_converted-Within to_string _ index _ acc.snapshots _ snapshots,
      add_converted-Within to_string _ index _ acc.stats _ stats,
    )

    prepare_parsed-Inv :
        (last : Dict ℕ) (index : ℕ) (id : AppResult ℕ) (user : SubmitUser) (acc : Prepared S T)
        → Inv last index acc
        → Inv last (suc index) (
            prepare_parsed parse to_string convert_user_snapshot convert_user_stats last index id
              user acc)
    unfolding prepare_parsed
    prepare_parsed-Inv last index (err e) user acc (len, within, all, distinct, snapshots, stats) =
        (
          omega (
            arith,
            len,
            length-append acc.results (fatal (to_string e) (new (some user.id)) ∷ []),
          ),
          Within-suc index acc.users within,
          all,
          distinct,
          Within-suc index acc.snapshots snapshots,
          Within-suc index acc.stats stats,
        )
    prepare_parsed-Inv last index (ok id) user acc inv =
        elim (Bool-cases (is_index (lookup id last) index)) [
          | inl e ↦ rw e (
              prepare_valid-Inv last index id user acc (is_index-true (lookup id last) index e) inv)
          | inr e ↦ rw e (
              let (len, within, all, distinct, snapshots, stats) = inv in
              (
                omega (
                  arith,
                  len,
                  length-append acc.results (
                      operation (skip "input" "shadowed_by_duplicate_input") (new (some user.id))
                      ∷ []),
                ),
                Within-suc index acc.users within,
                all,
                distinct,
                Within-suc index acc.snapshots snapshots,
                Within-suc index acc.stats stats,
              ))
        ]

    prepare_from-Inv :
        (last : Dict ℕ) (index : ℕ) (users : List SubmitUser) (acc : Prepared S T)
        → Inv last index acc
        → Inv last (index + length users) (
            prepare_from parse to_string convert_user_snapshot convert_user_stats last index users
              acc)
    unfolding prepare_from
    prepare_from-Inv last index [] acc inv = subst (λ k. Inv last k acc) (omega arith) inv
    prepare_from-Inv last index (user ∷ users) acc inv =
        let next =
          prepare_parsed parse to_string convert_user_snapshot convert_user_stats last index
            (parse_i64_id parse user.id "user.id") user acc in
        subst
          (λ k. Inv last k (
            prepare_from parse to_string convert_user_snapshot convert_user_stats last (suc index)
              users next))
          (omega arith)
          (prepare_from-Inv last (suc index) users next
            (prepare_parsed-Inv last index (parse_i64_id parse user.id "user.id") user acc inv))

    -- There is one result for each submitted user; the users, snapshots and statistics that are handed to
    -- the writes point at results that exist; no two users have the same id, and each has the index that
    -- collect_last_valid_i64_indices gives for its id.
    pub prepare_users_lem :
        (users : List SubmitUser)
        → let prepared =
            prepare_users parse to_string convert_user_snapshot convert_user_stats users in
          let last = collect_last_valid_i64_indices parse (map (λ u. u.id) users) "user.id" in
          (length prepared.results ≡ length users)
          × Within (length users) prepared.users
          × All (Last last) prepared.users
          × DistinctIds prepared.users
          × Within (length users) prepared.snapshots
          × Within (length users) prepared.stats
    unfolding prepare_users
    prepare_users_lem users =
        subst
          (λ k.
            Inv (collect_last_valid_i64_indices parse (map (λ u. u.id) users) "user.id") k
              (prepare_users parse to_string convert_user_snapshot convert_user_stats users))
          (omega arith)
          (prepare_from-Inv (collect_last_valid_i64_indices parse (map (λ u. u.id) users) "user.id")
            0 users (record { results = []; users = []; snapshots = []; stats = [] })
            (refl, tt, tt, tt, tt, tt))
