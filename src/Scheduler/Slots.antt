-- ===== src/Scheduler/Slots.antt =====
-- How many actions `select_actions` of src/scheduler.rs chooses, and when one is destructive.
use phase_golem.Prelude.{
  ℕ, zero, suc, ◌+◌, ◌≤◌, ◌≡◌, ◌≢◌, ◌%◌, ◌^◌, ◌==◌, length, filter, refl, inl, inr, Bool, true,
  false, not, List, [], ◌∷◌, ◌++◌, arith, any, all, count, count-append, any-append, Option-cases,
  some,
}
use phase_golem.Types.{ItemStatus, status_eq, SchedulerAction}
use phase_golem.PgItem.{Item}
use phase_golem.PgItem.Getters.{pg_status}
use phase_golem.Config.{Pipelines, ExecutionConfig}
use phase_golem.Scheduler.{RunningTasks, has_destructive, non_destructive_count}
use phase_golem.Scheduler.Items.{
  sorted_ready_items, sorted_in_progress_items, sorted_scoping_items, sorted_new_items,
  build_run_phase_action,
}
use phase_golem.Scheduler.Select.{
  promotions, run_actions, triage_actions, phase_actions, is_promote, is_destructive_run,
  fill_slots, available_slots, promotions_needed, in_progress_count, select_actions,
}

-- An action that takes an executor slot.
abbrev pub is_executor : SchedulerAction → Bool
is_executor a = not (is_promote a)

all_promote-count :
    (xs : List SchedulerAction) → all is_promote xs ≡ true → count is_executor xs ≡ 0
all_promote-count [] h = refl
all_promote-count (a ∷ xs) h = ground (arith, all_promote-count xs)

count-snoc :
    (p : SchedulerAction → Bool) (xs : List SchedulerAction) (a : SchedulerAction)
    → count p (xs ++ a ∷ []) ≡ count p xs + count p (a ∷ [])
count-snoc p xs a = count-append p xs (a ∷ [])

fill_slots-count :
    (running : RunningTasks) (slots : ℕ) (actions candidates : List SchedulerAction)
    → count is_executor (fill_slots running slots actions candidates)
      ≤ count is_executor actions + slots
unfolding fill_slots
fill_slots-count running slots actions [] = omega arith
fill_slots-count running zero actions (a ∷ rest) = omega arith
fill_slots-count running (suc slots) actions (a ∷ rest) = ground (
  arith,
  count-snoc is_executor actions a,
  fill_slots-count running slots (actions ++ a ∷ []) rest,
)

fill_slots-exclusive :
    (running : RunningTasks) (slots : ℕ) (actions candidates : List SchedulerAction)
    → any is_destructive_run actions ≡ false
    → any is_destructive_run (fill_slots running slots actions candidates) ≡ true
    → (running ≡ []) × (count is_executor (fill_slots running slots actions candidates) ≡ 1)
unfolding fill_slots
fill_slots-exclusive running slots actions [] n h = cc
fill_slots-exclusive running zero actions (a ∷ rest) n h = cc
fill_slots-exclusive running (suc slots) actions (a ∷ rest) n h = ground (
  arith,
  count-snoc is_executor actions a,
  all_promote-count actions,
  any-append is_destructive_run actions (a ∷ []),
  fill_slots-exclusive running slots (actions ++ a ∷ []) rest,
)

fill_slots-promotes :
    (running : RunningTasks) (slots : ℕ) (actions candidates : List SchedulerAction)
    → any is_promote candidates ≡ false
    → count is_promote (fill_slots running slots actions candidates) ≡ count is_promote actions
unfolding fill_slots
fill_slots-promotes running slots actions [] n = refl
fill_slots-promotes running zero actions (a ∷ rest) n = refl
fill_slots-promotes running (suc slots) actions (a ∷ rest) n = ground (
  arith,
  count-snoc is_promote actions a,
  fill_slots-promotes running slots (actions ++ a ∷ []) rest,
)

module _ (items : List Item) (running : RunningTasks) where
  -- Only promotions, as many as are needed at most.
  promotions-count :
      (needed promoted : ℕ) (queue : List Item)
      → let chosen = promotions items running needed promoted queue in
        (all is_promote chosen ≡ true)
        × (any is_destructive_run chosen ≡ false)
        × (count is_executor chosen ≡ 0)
        × (promoted ≤ needed → promoted + count is_promote chosen ≤ needed)
  unfolding promotions
  promotions-count needed promoted [] = (refl, refl, refl, omega arith)
  promotions-count needed promoted (item ∷ rest) =
      ground
        (arith, promotions-count needed (suc promoted) rest, promotions-count needed promoted rest)

  build_run_phase_action-promotes :
      (pipelines : Pipelines) (item : Item) (a : SchedulerAction)
      → build_run_phase_action pipelines item ≡ some a
      → is_promote a ≡ false
  unfolding build_run_phase_action
  build_run_phase_action-promotes pipelines item a h = ground arith

  run_actions-promotes :
      (pipelines : Pipelines) (queue : List Item)
      → any is_promote (run_actions items running pipelines queue) ≡ false
  unfolding run_actions
  run_actions-promotes pipelines [] = refl
  run_actions-promotes pipelines (item ∷ rest) =
      elim (Option-cases (build_run_phase_action pipelines item)) [
        | inl e ↦ ground (arith, run_actions-promotes pipelines rest)
        | inr (a, e) ↦ ground (
          arith,
          build_run_phase_action-promotes pipelines item a e,
          run_actions-promotes pipelines rest,
        )
      ]

  triage_actions-promotes :
      (queue : List Item) → any is_promote (triage_actions items running queue) ≡ false
  unfolding triage_actions
  triage_actions-promotes [] = refl
  triage_actions-promotes (item ∷ rest) = ground (arith, triage_actions-promotes rest)

  phase_actions-promotes :
      (pipelines : Pipelines) → any is_promote (phase_actions items running pipelines) ≡ false
  unfolding phase_actions
  phase_actions-promotes pipelines =
      let in_progress = sorted_in_progress_items pipelines items in
      let scoping = sorted_scoping_items pipelines items in
      let new = sorted_new_items items in
      ground (
        arith,
        any-append is_promote (run_actions items running pipelines in_progress)
            (run_actions items running pipelines scoping ++ triage_actions items running new),
        any-append is_promote (run_actions items running pipelines scoping)
            (triage_actions items running new),
        run_actions-promotes pipelines in_progress,
        run_actions-promotes pipelines scoping,
        triage_actions-promotes new,
      )

-- What a round of scheduling may choose, whatever the items.
pub record IsSafe (items : List Item) (running : RunningTasks) (config : ExecutionConfig)
    (chosen : List SchedulerAction) : Type 0 where
  pub within_slots : count is_executor chosen ≤ available_slots running config
  pub within_wip : count is_promote chosen ≤ promotions_needed items config
  -- The same two limits, spelled out in the source's `u32` counts.
  pub room :
      count is_executor chosen ≢ 0
      → count is_executor chosen + length running % 2 ^ 32 ≤ config.max_concurrent
  pub in_limit :
      count is_promote chosen ≢ 0
      → count is_promote chosen
          + length (filter (λ i. pg_status i == ItemStatus.in_progress) items) % 2 ^ 32
        ≤ config.max_wip
  pub alone : any is_destructive_run chosen ≡ true → (running ≡ []) × (count is_executor chosen ≡ 1)
  pub locked : has_destructive running ≡ true → chosen ≡ []

-- No destructive task runs: every running task takes a slot.
none_destructive :
    (running : RunningTasks)
    → has_destructive running ≡ false
    → non_destructive_count running ≡ length running
unfolding has_destructive non_destructive_count
none_destructive [] h = refl
none_destructive (t ∷ running) h = ground (arith, none_destructive running)

-- The actions chosen in a round take no more executor slots than are free: any that take one are,
-- with the tasks that run, at most max_concurrent. They promote no more items than the limit of items
-- in progress leaves room for: any promotions are, with the items in progress, at most max_wip (both
-- counts in u32). They hold a destructive phase only where nothing is running and no other action
-- takes a slot, and are none while a destructive task runs.
pub select_actions-IsSafe :
    (items : List Item) (running : RunningTasks) (config : ExecutionConfig) (pipelines : Pipelines)
    → IsSafe items running config (select_actions items running config pipelines)
unfolding select_actions available_slots promotions_needed in_progress_count
select_actions-IsSafe items running config pipelines =
    let slots = available_slots running config in
    let needed = promotions_needed items config in
    let promoted = promotions items running needed 0 (sorted_ready_items items) in
    let candidates = phase_actions items running pipelines in
    let start = promotions-count items running needed 0 (sorted_ready_items items) in
    ground (
      arith,
      start,
      fill_slots-count running slots promoted candidates,
      fill_slots-promotes running slots promoted candidates
          (phase_actions-promotes items running pipelines),
      fill_slots-exclusive running slots promoted candidates,
      none_destructive running,
    )
