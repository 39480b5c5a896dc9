-- ===== src/Scheduler/Halting.antt =====
-- When a run of `run_scheduler` (src/scheduler.rs) halts for its targets or its filter, and which actions
-- it chooses.
use phase_golem.Prelude.{
  ℕ, String, Bool, true, false, not, ◌&&◌, Option, none, some, List, [], if◌then◌else◌, ◌==◌,
  string_eq, leb, any, all, length, is_empty, get_elem?,
}
use phase_golem.Types.{ItemStatus, status_eq, SchedulerAction}
use phase_golem.PgItem.{Item}
use phase_golem.PgItem.Getters.{pg_status}
use phase_golem.Config.{PhaseGolemConfig}
use phase_golem.Filter.{FilterCriterion}
use phase_golem.Filter.Apply.{matches_item, apply_filters}
use phase_golem.Scheduler.{
  SchedulerState, RunningTasks, HaltReason, target_completed, target_blocked, filter_exhausted,
  no_matching_items,
}
use phase_golem.Scheduler.Select.{select_actions}
use phase_golem.Scheduler.Target.{select_targeted_actions, advance_to_next_active_target}

-- `RunParams`; the paths in it are for the tasks.
pub record RunParams : Type 0 where
  pub targets : List String
  pub filter : List FilterCriterion
  pub cap : ℕ
  pub auto_advance : Bool

pub data TargetCheck : Type 0 where
  stop : HaltReason → TargetCheck
  pass_blocked : TargetCheck
  go_on : ℕ → TargetCheck

abbrev pub is_blocked_target : SchedulerState → Option String → Bool
is_blocked_target state none = false
is_blocked_target state (some target) = any (λ id. id == target) state.items_blocked

unfoldable pub check_targets : RunParams → SchedulerState → List Item → TargetCheck
check_targets params state snapshot =
    let next =
      advance_to_next_active_target params.targets state.current_target_index state.items_completed
        snapshot in
    if is_empty params.targets
    then go_on state.current_target_index
    else if is_blocked_target state (get_elem? params.targets state.current_target_index)
    then (if params.auto_advance then pass_blocked else stop target_blocked)
    else if leb (length params.targets) next
    then stop target_completed
    else go_on next

abbrev pub is_finished : Item → Bool
is_finished item =
    if pg_status item == ItemStatus.done then true else (pg_status item == ItemStatus.blocked)

abbrev pub has_prior_progress : SchedulerState → Bool
has_prior_progress state =
    if is_empty state.items_completed then not (is_empty state.items_blocked) else true

unfoldable pub check_filter : RunParams → SchedulerState → List Item → Option HaltReason
unfolding apply_filters matches_item
check_filter params state snapshot =
    let filtered = apply_filters params.filter snapshot in
    let any_match = any (λ item. all (λ c. matches_item c item) params.filter) snapshot in
    if is_empty params.filter
    then none
    else if is_empty filtered
    then (if not any_match && not (has_prior_progress state)
        then some no_matching_items
        else some filter_exhausted)
    else if all is_finished filtered
    then some filter_exhausted
    else none

-- A target that the index does not reach cannot be met here: the check before stops at it.
abbrev pub for_target :
    PhaseGolemConfig → List Item → RunningTasks → Option String → List SchedulerAction
for_target config snapshot running none = []
for_target config snapshot running (some target) =
    select_targeted_actions snapshot running config.pipelines target

unfoldable pub choose_actions :
    PhaseGolemConfig → RunParams → SchedulerState → List Item → RunningTasks → List SchedulerAction
unfolding select_actions apply_filters select_targeted_actions
choose_actions config params state snapshot running =
    if not (is_empty params.targets)
    then for_target config snapshot running (get_elem? params.targets state.current_target_index)
    else if not (is_empty params.filter)
    then select_actions (apply_filters params.filter snapshot) running config.execution
        config.pipelines
    else select_actions snapshot running config.execution config.pipelines
