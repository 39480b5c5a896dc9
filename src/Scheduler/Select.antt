-- ===== src/Scheduler/Select.antt =====
-- `select_actions` of src/scheduler.rs, and what it is made of.
use phase_golem.Prelude.{
  ℕ, zero, suc, ◌-◌, ◌^◌, ◌%◌, Bool, true, false, not, ◌&&◌, none, some, List, [], ◌∷◌, ◌++◌,
  if◌then◌else◌, leb, eqb, ◌==◌, string_eq, any, all, filter, length, is_empty,
}
use phase_golem.Types.{ItemStatus, status_eq, SchedulerAction, triage, promote, run_phase}
use phase_golem.PgItem.{Item}
use phase_golem.PgItem.Getters.{pg_status}
use phase_golem.Config.{Pipelines, ExecutionConfig}
use phase_golem.Scheduler.Items.{
  skip_for_unmet_deps, sorted_ready_items, sorted_in_progress_items, sorted_scoping_items,
  sorted_new_items, build_run_phase_action,
}
use phase_golem.Scheduler.{RunningTasks, has_destructive, non_destructive_count, is_item_running}

module _ (items : List Item) (running : RunningTasks) where
  -- Neither running nor waiting for a dependency.
  unfoldable pub is_free : Item → Bool
  is_free item = not (is_item_running running item.id) && not (skip_for_unmet_deps item items)

  -- The loop over the ready items.
  unfoldable pub promotions : (needed promoted : ℕ) → List Item → List SchedulerAction
  promotions needed promoted [] = []
  promotions needed promoted (item ∷ rest) =
      let more = promotions needed (if is_free item then suc promoted else promoted) rest in
      if leb needed promoted then [] else if is_free item then promote item.id ∷ more else more

  -- The loops over the items in progress and in scoping, and over the new ones.
  unfoldable pub run_actions : Pipelines → List Item → List SchedulerAction
  run_actions pipelines [] = []
  run_actions pipelines (item ∷ rest) =
      let more = run_actions pipelines rest in
      if is_free item
      then elim (build_run_phase_action pipelines item) [ none ↦ more | some a ↦ a ∷ more ]
      else more

  unfoldable pub triage_actions : List Item → List SchedulerAction
  triage_actions [] = []
  triage_actions (item ∷ rest) =
      let more = triage_actions rest in if is_free item then triage item.id ∷ more else more

  unfoldable pub phase_actions : Pipelines → List SchedulerAction
  phase_actions pipelines =
      run_actions pipelines (sorted_in_progress_items pipelines items)
      ++ (run_actions pipelines (sorted_scoping_items pipelines items)
          ++ triage_actions (sorted_new_items items))

abbrev pub is_promote : SchedulerAction → Bool
is_promote (triage id) = false
is_promote (promote id) = true
is_promote (run_phase id name pool d) = false

abbrev pub is_destructive_run : SchedulerAction → Bool
is_destructive_run (triage id) = false
is_destructive_run (promote id) = false
is_destructive_run (run_phase id name pool d) = d

-- The loop that fills the slots, behind the actions chosen so far.
unfoldable pub fill_slots :
    RunningTasks → (slots : ℕ) (actions candidates : List SchedulerAction) → List SchedulerAction
fill_slots running slots actions [] = actions
fill_slots running zero actions (a ∷ rest) = actions
fill_slots running (suc slots) actions (a ∷ rest) =
    let more = fill_slots running slots (actions ++ a ∷ []) rest in
    if is_destructive_run a
    then (if is_empty running && all is_promote actions then actions ++ a ∷ [] else actions)
    else if any is_destructive_run actions
    then actions
    else more

-- `as u32` of a count.
abbrev as_u32 : ℕ → ℕ
as_u32 n = n % 2 ^ 32

unfoldable pub available_slots : RunningTasks → ExecutionConfig → ℕ
available_slots running config = config.max_concurrent - as_u32 (non_destructive_count running)

unfoldable pub in_progress_count : List Item → ℕ
in_progress_count items = length (filter (λ i. pg_status i == ItemStatus.in_progress) items)

unfoldable pub promotions_needed : List Item → ExecutionConfig → ℕ
promotions_needed items config = config.max_wip - as_u32 (in_progress_count items)

unfoldable pub select_actions :
    List Item → RunningTasks → ExecutionConfig → Pipelines → List SchedulerAction
select_actions items running config pipelines =
    if has_destructive running
    then []
    else if eqb (available_slots running config) 0
    then []
    else fill_slots running (available_slots running config)
        (promotions items running (promotions_needed items config) 0 (sorted_ready_items items))
        (phase_actions items running pipelines)
