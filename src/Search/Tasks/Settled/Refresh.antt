-- ===== src/Search/Tasks/Settled/Refresh.antt =====
-- A refresh that arrives while its target is being indexed.
use tweet_db.Base.{
  ℕ, ◌≡◌, refl, ◌∙◌, Bool, true, false, ◌||◌, List, [], ◌∷◌, AppResult, AppError, String, All,
  All-of, All-map, All-zip, All-append, Bool-cases, inl, inr, arith,
}
use tweet_db.Queue.{
  Status, pending, processing, completed, failed, canceled, is_processing, after_failure,
  completed_row,
}
use tweet_db.Queue.Claims.{update_where-All}
use tweet_db.Search.Tasks.{
  IndexTargetKind, user, tweet, IndexTarget, Task, ClaimedIndexTask, same_kind, same_target,
  is_target, distinct, refreshed_row, new_row, has_row, upsert, upsert_all, enqueue_targets,
  process_task_batch,
}
use tweet_db.Search.Tasks.Settled.{Kept, batch-keeps}

same_kind_sym : (a b : IndexTargetKind) → same_kind a b ≡ same_kind b a
same_kind_sym user user = refl
same_kind_sym user tweet = refl
same_kind_sym tweet user = refl
same_kind_sym tweet tweet = refl

same_kind_trans :
    (a b c : IndexTargetKind) → same_kind a b ≡ true → same_kind a c ≡ true → same_kind b c ≡ true
same_kind_trans user user c h k = k
same_kind_trans user tweet c h k = absurd (cc h)
same_kind_trans tweet user c h k = absurd (cc h)
same_kind_trans tweet tweet c h k = k

same_target_sym : (a b : IndexTarget) → same_target a b ≡ same_target b a
same_target_sym a b = rw (same_kind_sym a.kind b.kind) (ground arith)

same_target_trans :
    (a b c : IndexTarget) → same_target a b ≡ true → same_target a c ≡ true → same_target b c ≡ true
same_target_trans a b c h k = elim (Bool-cases (same_kind b.kind c.kind)) [
  | inl e ↦ rw e (ground arith)
  | inr e ↦ absurd (ground (arith, same_kind_trans a.kind b.kind c.kind))
]

other : (a b : Bool) → a ≡ false → a || b ≡ true → b ≡ true
other a b h k = ground arith

either : (a b : Bool) → b ≡ true → a || b ≡ true
either a b h = ground arith

not_both : (s : Status) → is_processing s ≡ true → s ≡ pending → ⊥
not_both processing h k = cc k
not_both pending h k = absurd (cc h)
not_both completed h k = cc k
not_both failed h k = cc k
not_both canceled h k = cc k

-- Queued afresh.
abbrev pub IsRefreshed : Task → Type 0
IsRefreshed r = (r.status ≡ pending) × (r.attempt_count ≡ 0)

abbrev About : IndexTarget → Task → Type 0
About t r = same_target t r.about ≡ true → IsRefreshed r

has_row-About : (t : IndexTarget) (rows : List Task) → has_row t rows ≡ false → All (About t) rows
unfolding has_row
has_row-About t [] h = tt
has_row-About t (r ∷ rows) h = (
  λ same. absurd (ground (arith, same_target_sym t r.about)),
  has_row-About t rows (ground arith),
)

upsert-About :
    (now : ℕ) (new_id : IndexTarget → ℕ) (t : IndexTarget) (rows : List Task)
    → All (About t) (upsert now new_id t rows)
unfolding upsert refreshed_row new_row
upsert-About now new_id t rows = elim (Bool-cases (has_row t rows)) [
  | inl e ↦ rw e (
      update_where-All (About t) (λ r. same_target r.about t) refreshed_row rows
        (All-of _
          (λ r.
            (λ h same. (refl, refl), λ h same. absurd (ground (arith, same_target_sym t r.about))))
          rows))
  | inr e ↦ rw e (
      All-append _ rows (new_row now (new_id t) t ∷ []) (has_row-About t rows e)
        ((λ same. (refl, refl)), tt))
]

upsert-keeps :
    (now : ℕ) (new_id : IndexTarget → ℕ) (t u : IndexTarget) (rows : List Task)
    → All (About u) rows
    → All (About u) (upsert now new_id t rows)
unfolding upsert refreshed_row new_row
upsert-keeps now new_id t u rows all = elim (Bool-cases (has_row t rows)) [
  | inl e ↦ rw e (
      update_where-All (About u) (λ r. same_target r.about t) refreshed_row rows
        (All-map _ (λ r a. (λ h same. (refl, refl), λ h. a)) rows all))
  | inr e ↦
      rw e (All-append _ rows (new_row now (new_id t) t ∷ []) all ((λ same. (refl, refl)), tt))
]

upsert_all-keeps :
    (now : ℕ) (new_id : IndexTarget → ℕ) (u : IndexTarget) (targets : List IndexTarget)
    (rows : List Task)
    → All (About u) rows
    → All (About u) (upsert_all now new_id targets rows)
unfolding upsert_all
upsert_all-keeps now new_id u [] rows all = all
upsert_all-keeps now new_id u (t ∷ targets) rows all =
    upsert_all-keeps now new_id u targets (upsert now new_id t rows)
      (upsert-keeps now new_id t u rows all)

-- A row about one of the targets is queued afresh.
abbrev pub Refreshed : List IndexTarget → Task → Type 0
Refreshed targets r = is_target targets r.about ≡ true → IsRefreshed r

upsert_all-Refreshed :
    (now : ℕ) (new_id : IndexTarget → ℕ) (targets : List IndexTarget) (rows : List Task)
    → All (Refreshed targets) (upsert_all now new_id targets rows)
unfolding upsert_all is_target
upsert_all-Refreshed now new_id [] rows = All-of _ (λ r h. absurd (cc h)) rows
upsert_all-Refreshed now new_id (t ∷ targets) rows =
    All-zip _
      (λ r a b h. elim (Bool-cases (same_target t r.about)) [
        | inl e ↦ a e
        | inr e ↦ b (other (same_target t r.about) (is_target targets r.about) e h)
      ])
      (upsert_all now new_id targets (upsert now new_id t rows))
      (upsert_all-keeps now new_id t targets (upsert now new_id t rows)
        (upsert-About now new_id t rows))
      (upsert_all-Refreshed now new_id targets (upsert now new_id t rows))

is_target-same :
    (targets : List IndexTarget) (t u : IndexTarget)
    → is_target targets t ≡ true
    → same_target t u ≡ true
    → is_target targets u ≡ true
unfolding is_target
is_target-same [] t u h k = absurd (cc h)
is_target-same (x ∷ xs) t u h k = elim (Bool-cases (same_target x t)) [
  | inl e ↦ rw (same_target_trans t x u (same_target_sym t x ∙ e) k) refl
  | inr e ↦
      either (same_target x u) (is_target xs u)
        (is_target-same xs t u (other (same_target x t) (is_target xs t) e h) k)
]

distinct-is_target :
    (targets : List IndexTarget) (u : IndexTarget)
    → is_target targets u ≡ true
    → is_target (distinct targets) u ≡ true
unfolding is_target distinct
distinct-is_target [] u h = h
distinct-is_target (t ∷ targets) u h = elim (Bool-cases (is_target (distinct targets) t)) [
  | inl d ↦ elim (Bool-cases (same_target t u)) [
    | inl e ↦ rw d (is_target-same (distinct targets) t u d e)
    | inr e ↦
        rw d (distinct-is_target targets u (other (same_target t u) (is_target targets u) e h))
  ]
  | inr d ↦ elim (Bool-cases (same_target t u)) [
    | inl e ↦ rw (d, e) refl
    | inr e ↦
        rw (d, e) (distinct-is_target targets u (other (same_target t u) (is_target targets u) e h))
  ]
]

Refreshed-Kept : (targets : List IndexTarget) (now max : ℕ) → Kept (Refreshed targets) now max
unfolding completed_row after_failure
Refreshed-Kept targets now max = record {
  completes = λ r p fresh h. absurd (not_both r.status p (fresh h).0);
  fails = λ message r p fresh h. absurd (not_both r.status p (fresh h).0);
}

-- After targets are enqueued, every row about one of them is pending with no attempts made, and still
-- is after any worker has processed any tasks it claimed before, however the index answers.
pub enqueue_targets_survives :
    (to_string : AppError → String) (index_task : ClaimedIndexTask → AppResult (Unit {0}))
    → (now later max : ℕ) (new_id : IndexTarget → ℕ) (targets : List IndexTarget)
    → (answer : AppResult (Unit {0})) (tasks : List ClaimedIndexTask) (rows : List Task)
    → All (Refreshed targets) (
        process_task_batch to_string index_task later max answer tasks
          (enqueue_targets now new_id targets rows).0)
unfolding enqueue_targets
enqueue_targets_survives to_string index_task now later max new_id targets answer tasks rows =
    batch-keeps to_string index_task (Refreshed targets) later max answer tasks
      (upsert_all now new_id (distinct targets) rows) (Refreshed-Kept targets later max)
      (All-map _ (λ r fresh h. fresh (distinct-is_target targets r.about h))
        (upsert_all now new_id (distinct targets) rows)
        (upsert_all-Refreshed now new_id (distinct targets) rows))
