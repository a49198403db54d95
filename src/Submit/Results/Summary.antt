-- ===== src/Submit/Results/Summary.antt =====
-- What the status of an object and the summary say.
use tweet_db.Base.{
  ℕ, ◌+◌, ◌≡◌, ◌≢◌, ◌↔◌, refl, Option, none, some, Bool, true, false, ◌||◌, List, [], ◌∷◌, ◌++◌,
  length, length-append, All, keep, Bool-cases, inl, inr, arith,
}
use Prim.Native.String.{String}
use mathlib.Core.Logic.{◌⊎◌}
use tweet_db.Submit.Results.{
  OperationStatus, accepted, skipped, failed, ObjectStatus, all_accepted, all_skipped, partial,
  any_failed, Operation, Builder, ObjectResult, same_status, any_with, is_some, status_from, finish,
  SubmitSummary, Response, count_status, summarize_from, summarize_results,
}

-- No operation has the status.
abbrev pub Lacks : OperationStatus → List Operation → Type 0
Lacks s ops = All (λ op. op.status ≢ s) ops

same_status_iff : (s t : OperationStatus) → (same_status s t ≡ false) ↔ (s ≢ t)
same_status_iff accepted accepted = (λ h. absurd (cc h), λ n. absurd (n refl))
same_status_iff accepted skipped = (λ h p. cc p, λ n. refl)
same_status_iff accepted failed = (λ h p. cc p, λ n. refl)
same_status_iff skipped accepted = (λ h p. cc p, λ n. refl)
same_status_iff skipped skipped = (λ h. absurd (cc h), λ n. absurd (n refl))
same_status_iff skipped failed = (λ h p. cc p, λ n. refl)
same_status_iff failed accepted = (λ h p. cc p, λ n. refl)
same_status_iff failed skipped = (λ h p. cc p, λ n. refl)
same_status_iff failed failed = (λ h. absurd (cc h), λ n. absurd (n refl))

any_with-Lacks : (s : OperationStatus) (ops : List Operation) → any_with s ops ≡ false → Lacks s ops
unfolding any_with
any_with-Lacks s [] h = tt
any_with-Lacks s (op ∷ ops) h =
    ((same_status_iff op.status s).0 (ground arith), any_with-Lacks s ops (ground arith))

Lacks-any_with : (s : OperationStatus) (ops : List Operation) → Lacks s ops → any_with s ops ≡ false
unfolding any_with
Lacks-any_with s [] l = refl
Lacks-any_with s (op ∷ ops) l =
    rw ((same_status_iff op.status s).1 l.0, Lacks-any_with s ops l.1) refl

status_from_table :
    (a s f e : Bool)
    → ((status_from a s f e ≡ all_accepted) ↔ ((f ≡ false) × (e ≡ false) × (a ≡ true)))
      × ((status_from a s f e ≡ all_skipped) ↔ ((f ≡ false) × (e ≡ false) × (a ≡ false)))
      × ((status_from a s f e ≡ partial) ↔ ((f ≡ true) × (a || s ≡ true)))
unfolding status_from
status_from_table a s f e = (ground arith, ground arith, ground arith)

is_some_iff : (e : Option String) → (is_some e ≡ false) ↔ (e ≡ none)
is_some_iff none = (λ h. refl, λ h. refl)
is_some_iff (some e) = (λ h. absurd (cc h), λ h. absurd (cc h))

any_with-true : (s : OperationStatus) (ops : List Operation) → any_with s ops ≡ true → ¬ Lacks s ops
any_with-true s ops h l = cc (h, Lacks-any_with s ops l)

not_Lacks : (s : OperationStatus) (ops : List Operation) → ¬ Lacks s ops → any_with s ops ≡ true
not_Lacks s ops n = elim (Bool-cases (any_with s ops)) [
  | inl e ↦ e
  | inr e ↦ absurd (n (any_with-Lacks s ops e))
]

either_true : (a b : Bool) → a || b ≡ true → (a ≡ true) ⊎ (b ≡ true)
either_true true b h = inl refl
either_true false b h = inr h

neither : (a b : Bool) → a ≡ false → b ≡ false → a || b ≡ false
neither a b h k = ground arith

some_other : (a b : Bool) → (a ≡ false → b ≡ false → ⊥) → a || b ≡ true
some_other true b n = refl
some_other false true n = refl
some_other false false n = absurd (n refl refl)

-- An object counts as accepted when nothing failed, there is no fatal error and something was accepted;
-- as skipped when nothing failed or was accepted and there is no fatal error; and as partial when
-- something failed and something was accepted or skipped.
pub finish_status :
    (b : Builder)
    → (((finish b).status ≡ all_accepted)
        ↔ (Lacks failed b.operations × (b.fatal_error ≡ none) × ¬ Lacks accepted b.operations))
      × (((finish b).status ≡ all_skipped)
          ↔ (Lacks failed b.operations × (b.fatal_error ≡ none) × Lacks accepted b.operations))
      × (((finish b).status ≡ partial) ↔ (
          ¬ Lacks failed b.operations
          × ¬ (Lacks accepted b.operations × Lacks skipped b.operations)))
unfolding finish
finish_status b =
    let ops = b.operations in
    let (t1, t2, t3) =
      status_from_table (any_with accepted ops) (any_with skipped ops) (any_with failed ops)
        (is_some b.fatal_error) in
    (
      (
        λ h.
            let (f, e, a) = t1.0 h in
            (
              any_with-Lacks failed ops f,
              (is_some_iff b.fatal_error).0 e,
              any_with-true accepted ops a,
            ),
        λ (f, e, a). t1.1 (
          Lacks-any_with failed ops f,
          (is_some_iff b.fatal_error).1 e,
          not_Lacks accepted ops a,
        ),
      ),
      (
        λ h.
            let (f, e, a) = t2.0 h in
            (
              any_with-Lacks failed ops f,
              (is_some_iff b.fatal_error).0 e,
              any_with-Lacks accepted ops a,
            ),
        λ (f, e, a). t2.1 (
          Lacks-any_with failed ops f,
          (is_some_iff b.fatal_error).1 e,
          Lacks-any_with accepted ops a,
        ),
      ),
      (
        λ h.
            let (f, o) = t3.0 h in
            (
              any_with-true failed ops f,
              λ (a, k). cc (
                o,
                neither (any_with accepted ops) (any_with skipped ops)
                    (Lacks-any_with accepted ops a) (Lacks-any_with skipped ops k),
              ),
            ),
        λ (f, n). t3.1 (
          not_Lacks failed ops f,
          some_other (any_with accepted ops) (any_with skipped ops)
              (λ a k. n (any_with-Lacks accepted ops a, any_with-Lacks skipped ops k)),
        ),
      ),
    )

abbrev pub same_object_status : ObjectStatus → ObjectStatus → Bool
same_object_status all_accepted all_accepted = true
same_object_status all_skipped all_skipped = true
same_object_status partial partial = true
same_object_status any_failed any_failed = true
same_object_status _ _ = false

-- The results with a status.
abbrev pub count_of : ObjectStatus → List ObjectResult → ℕ
count_of s results = length (keep (λ r. same_object_status r.status s) results)

abbrev pub Adds : SubmitSummary → List ObjectResult → SubmitSummary → Type 0
Adds before results after =
    (after.total ≡ before.total + length results)
    × (after.accepted ≡ before.accepted + count_of all_accepted results)
    × (after.skipped ≡ before.skipped + count_of all_skipped results)
    × (after.partial ≡ before.partial + count_of partial results)
    × (after.failed ≡ before.failed + count_of any_failed results)

-- One more result before the others.
Adds-cons :
    (s after : SubmitSummary) (status : ObjectStatus) (r : ObjectResult)
    (results : List ObjectResult)
    → r.status ≡ status
    → Adds (count_status status s) results after
    → Adds s (r ∷ results) after
unfolding count_status
Adds-cons s after all_accepted r results e (t, a, k, p, f) =
    rw e (omega arith, omega arith, omega arith, omega arith, omega arith)
Adds-cons s after all_skipped r results e (t, a, k, p, f) =
    rw e (omega arith, omega arith, omega arith, omega arith, omega arith)
Adds-cons s after partial r results e (t, a, k, p, f) =
    rw e (omega arith, omega arith, omega arith, omega arith, omega arith)
Adds-cons s after any_failed r results e (t, a, k, p, f) =
    rw e (omega arith, omega arith, omega arith, omega arith, omega arith)

summarize_from-Adds :
    (s : SubmitSummary) (results : List ObjectResult) → Adds s results (summarize_from s results)
unfolding summarize_from
summarize_from-Adds s [] = (omega arith, omega arith, omega arith, omega arith, omega arith)
summarize_from-Adds s (r ∷ results) =
    Adds-cons s (summarize_from (count_status r.status s) results) r.status r results refl
      (summarize_from-Adds (count_status r.status s) results)

-- The summary counts all results of the response, and those of each status.
pub summarize_results_counts :
    (response : Response)
    → let all = response.users ++ (response.tweets ++ response.media) in
      let summary = summarize_results response in
      (summary.total ≡ length response.users + length response.tweets + length response.media)
      × (summary.accepted ≡ count_of all_accepted all)
      × (summary.skipped ≡ count_of all_skipped all)
      × (summary.partial ≡ count_of partial all)
      × (summary.failed ≡ count_of any_failed all)
unfolding summarize_results
summarize_results_counts response =
    let all = response.users ++ (response.tweets ++ response.media) in
    let (t, a, k, p, f) =
      summarize_from-Adds (record { total = 0; accepted = 0; skipped = 0; partial = 0; failed = 0 })
        all in
    (
      omega (
        arith,
        t,
        length-append response.users (response.tweets ++ response.media),
        length-append response.tweets response.media,
      ),
      omega (arith, a),
      omega (arith, k),
      omega (arith, p),
      omega (arith, f),
    )
