-- ===== src/Scheduler/Eligible.antt =====
-- Which items `select_actions` of src/scheduler.rs acts on.
use phase_golem.Prelude.{
  ℕ, zero, suc, ◌≡◌, refl, ◌⊎◌, inl, inr, Bool, true, false, ◌&&◌, some, List, [], ◌∷◌, ◌++◌, arith,
  All, All-imp, All-append, All-filter_mem, filter, sort_by, sort_by-All, leb, is_empty, any, all,
  Bool-cases, Option-cases, eqb,
}
use mathlib.Core.List.{Memᴰ}
use phase_golem.Types.{
  ItemStatus, status_eq, status_beq_iff, SchedulerAction, triage, promote, run_phase,
}
use phase_golem.PgItem.{Item}
use phase_golem.PgItem.Getters.{pg_status}
use phase_golem.Config.{Pipelines, ExecutionConfig}
use phase_golem.Scheduler.{RunningTasks, is_item_running, has_destructive}
use phase_golem.Scheduler.Dependencies.{AllMet, unmet_dep_summary_iff}
use phase_golem.Scheduler.Items.{
  skip_for_unmet_deps, sorted_ready_items, sorted_in_progress_items, sorted_scoping_items,
  sorted_new_items, build_run_phase_action,
}
use phase_golem.Scheduler.Select.{
  is_free, promotions, run_actions, triage_actions, phase_actions, fill_slots, is_promote,
  is_destructive_run, select_actions, available_slots,
}

module _ (items : List Item) (running : RunningTasks) where
  -- An item of the store in a status, not running and with no unmet dependency.
  pub record IsCandidate (wanted : ItemStatus) (item : Item) : Type 0 where
    pub stored : Memᴰ item items
    pub status : pg_status item ≡ wanted
    pub idle : is_item_running running item.id ≡ false
    pub met : AllMet items item

  -- What stands behind an action.
  abbrev pub Justified : Pipelines → SchedulerAction → Type 0
  Justified pipelines (promote id) =
      (item : Item) × (item.id ≡ id) × IsCandidate ItemStatus.ready item
  Justified pipelines (triage id) = (item : Item) × (item.id ≡ id) × IsCandidate ItemStatus.new item
  Justified pipelines (run_phase id name pool d) =
      (item : Item) × (build_run_phase_action pipelines item ≡ some (run_phase id name pool d))
      × (IsCandidate ItemStatus.in_progress item ⊎ IsCandidate ItemStatus.scoping item)

  abbrev IsIn : ItemStatus → Item → Type 0
  IsIn wanted item = Memᴰ item items × (pg_status item ≡ wanted)

  IsCandidate-of_free :
      (wanted : ItemStatus) (item : Item)
      → IsIn wanted item
      → is_free items running item ≡ true
      → IsCandidate wanted item
  unfolding is_free skip_for_unmet_deps
  IsCandidate-of_free wanted item h f = record {
    stored = h.0;
    status = h.1;
    idle = ground arith;
    met = (unmet_dep_summary_iff item items).0 (ground arith);
  }

  module _ (pipelines : Pipelines) where
    promotions-Justified :
        (needed promoted : ℕ) (queue : List Item)
        → All (IsIn ItemStatus.ready) queue
        → All (Justified pipelines) (promotions items running needed promoted queue)
    unfolding promotions
    promotions-Justified needed promoted [] h = tt
    promotions-Justified needed promoted (item ∷ rest) h = elim (Bool-cases (leb needed promoted)) [
      | inl e ↦ rw e tt
      | inr e ↦ elim (Bool-cases (is_free items running item)) [
        | inl f ↦
            rw (e, f)
              (
                (item, refl, IsCandidate-of_free ItemStatus.ready item h.0 f),
                promotions-Justified needed (suc promoted) rest h.1,
              )
        | inr f ↦ rw (e, f) (promotions-Justified needed promoted rest h.1)
      ]
    ]

    triage_actions-Justified :
        (queue : List Item)
        → All (IsIn ItemStatus.new) queue
        → All (Justified pipelines) (triage_actions items running queue)
    unfolding triage_actions
    triage_actions-Justified [] h = tt
    triage_actions-Justified (item ∷ rest) h = elim (Bool-cases (is_free items running item)) [
      | inl f ↦ rw f (
        (item, refl, IsCandidate-of_free ItemStatus.new item h.0 f),
        triage_actions-Justified rest h.1,
      )
      | inr f ↦ rw f (triage_actions-Justified rest h.1)
    ]

    run_actions-Justified :
        (wanted : ItemStatus) (queue : List Item)
        → ((item : Item)
            → IsCandidate wanted item
            → IsCandidate ItemStatus.in_progress item ⊎ IsCandidate ItemStatus.scoping item)
        → All (IsIn wanted) queue
        → All (Justified pipelines) (run_actions items running pipelines queue)
    unfolding run_actions
    run_actions-Justified wanted [] f h = tt
    run_actions-Justified wanted (item ∷ rest) f h =
        elim (Bool-cases (is_free items running item)) [
          | inl free ↦ elim (Option-cases (build_run_phase_action pipelines item)) [
            | inl e ↦ rw (free, e) (run_actions-Justified wanted rest f h.1)
            | inr (a, e) ↦
                rw (free, e)
                  (
                    built item a e (f item (IsCandidate-of_free wanted item h.0 free)),
                    run_actions-Justified wanted rest f h.1,
                  )
          ]
          | inr busy ↦ rw busy (run_actions-Justified wanted rest f h.1)
        ]
      where
        built :
            (i : Item) (a : SchedulerAction)
            → build_run_phase_action pipelines i ≡ some a
            → IsCandidate ItemStatus.in_progress i ⊎ IsCandidate ItemStatus.scoping i
            → Justified pipelines a
        built i (run_phase id name pool d) e c = (i, e, c)
        built i (promote id) e c = absurd (unfold build_run_phase_action in ground arith)
        built i (triage id) e c = absurd (unfold build_run_phase_action in ground arith)

  fill_slots-All {κ} :
      (P : SchedulerAction → Type κ) (slots : ℕ) (actions candidates : List SchedulerAction)
      → All P actions
      → All P candidates
      → All P (fill_slots running slots actions candidates)
  unfolding fill_slots
  fill_slots-All P slots actions [] h k = h
  fill_slots-All P zero actions (a ∷ rest) h k = h
  fill_slots-All P (suc slots) actions (a ∷ rest) h k =
      let longer = All-append P actions (a ∷ []) h (k.0, tt) in
      elim (Bool-cases (is_destructive_run a)) [
        | inl d ↦ elim (Bool-cases (is_empty running && all is_promote actions)) [
          | inl e ↦ rw (d, e) longer
          | inr e ↦ rw (d, e) h
        ]
        | inr d ↦ elim (Bool-cases (any is_destructive_run actions)) [
          | inl e ↦ rw (d, e) h
          | inr e ↦ rw (d, e) (fill_slots-All P slots (actions ++ a ∷ []) rest longer k.1)
        ]
      ]

  module _ (pipelines : Pipelines) where
    queued :
        (wanted : ItemStatus) (le : Item → Item → Bool) (test : Item → Bool)
        → ((i : Item) → test i ≡ true → pg_status i ≡ wanted)
        → All (IsIn wanted) (sort_by le (filter test items))
    queued wanted le test f = sort_by-All le (IsIn wanted) (filter test items) (
        All-imp (λ i. Memᴰ i items × (test i ≡ true)) (IsIn wanted) (λ i h. (h.0, f i h.1))
          (filter test items) (All-filter_mem test items))

    ready_queued : All (IsIn ItemStatus.ready) (sorted_ready_items items)
    unfolding sorted_ready_items
    ready_queued = queued ItemStatus.ready _ _ (λ i h. (status_beq_iff _ _).0 h)

    in_progress_queued :
        All (IsIn ItemStatus.in_progress) (sorted_in_progress_items pipelines items)
    unfolding sorted_in_progress_items
    in_progress_queued =
        queued ItemStatus.in_progress _ _
          (λ i h. (status_beq_iff (pg_status i) ItemStatus.in_progress).0 (ground arith))

    scoping_queued : All (IsIn ItemStatus.scoping) (sorted_scoping_items pipelines items)
    unfolding sorted_scoping_items
    scoping_queued =
        queued ItemStatus.scoping _ _
          (λ i h. (status_beq_iff (pg_status i) ItemStatus.scoping).0 (ground arith))

    new_queued : All (IsIn ItemStatus.new) (sorted_new_items items)
    unfolding sorted_new_items
    new_queued = queued ItemStatus.new _ _ (λ i h. (status_beq_iff _ _).0 h)

    phase_actions-Justified : All (Justified pipelines) (phase_actions items running pipelines)
    unfolding phase_actions
    phase_actions-Justified =
        All-append (Justified pipelines) _ _
          (run_actions-Justified pipelines ItemStatus.in_progress _ (λ i c. inl c)
            in_progress_queued)
          (All-append (Justified pipelines) _ _
            (run_actions-Justified pipelines ItemStatus.scoping _ (λ i c. inr c) scoping_queued)
            (triage_actions-Justified pipelines _ new_queued))

-- Every action chosen stands for an item of the store that is not running and whose dependencies
-- are all met: a promotion for a ready item, a triage for a new one, and a phase for an item in
-- progress or in scoping, namely the phase that the item is in, with the destructive flag of its
-- configuration.
pub select_actions-Justified :
    (items : List Item) (running : RunningTasks) (config : ExecutionConfig) (pipelines : Pipelines)
    → All (Justified items running pipelines) (select_actions items running config pipelines)
unfolding select_actions
select_actions-Justified items running config pipelines =
    elim (Bool-cases (has_destructive running)) [
      | inl e ↦ rw e tt
      | inr e ↦ elim (Bool-cases (eqb (available_slots running config) 0)) [
        | inl f ↦ rw (e, f) tt
        | inr f ↦
            rw (e, f)
              (fill_slots-All items running (Justified items running pipelines) _ _ _
                (promotions-Justified items running pipelines _ 0 _
                  (ready_queued items running pipelines))
                (phase_actions-Justified items running pipelines))
      ]
    ]
