-- ===== src/Scheduler/Target.antt =====
-- Runs with targets: `select_targeted_actions` and `advance_to_next_active_target` of
-- src/scheduler.rs.
use phase_golem.Prelude.{
  ℕ, suc, String, Bool, true, not, ◌&&◌, ◌||◌, Option, none, some, List, [], ◌∷◌, if◌then◌else◌,
  ◌==◌, string_eq, any, find, drop,
}
use phase_golem.Types.{ItemStatus, status_eq, SchedulerAction, triage, promote}
use phase_golem.PgItem.{Item}
use phase_golem.PgItem.Getters.{pg_status}
use phase_golem.Config.{Pipelines}
use phase_golem.Scheduler.{RunningTasks, is_item_running, has_destructive}
use phase_golem.Scheduler.Items.{has_id, skip_for_unmet_deps, build_run_phase_action}

abbrev action_list : Option SchedulerAction → List SchedulerAction
action_list none = []
action_list (some a) = a ∷ []

-- The `match` on the target's status.
abbrev targeted : ItemStatus → Bool → Item → String → Pipelines → List SchedulerAction
targeted ItemStatus.new is_running target id pipelines = if is_running then [] else triage id ∷ []
targeted ItemStatus.ready is_running target id pipelines = promote id ∷ []
targeted ItemStatus.scoping is_running target id pipelines =
    if is_running then [] else action_list (build_run_phase_action pipelines target)
targeted ItemStatus.in_progress is_running target id pipelines =
    if is_running then [] else action_list (build_run_phase_action pipelines target)
targeted ItemStatus.blocked is_running target id pipelines = []
targeted ItemStatus.done is_running target id pipelines = []

abbrev pub is_over : ItemStatus → Bool
is_over s = s == ItemStatus.done || s == ItemStatus.blocked

abbrev select_for :
    List Item → RunningTasks → Pipelines → String → Option Item → List SchedulerAction
select_for items running pipelines target_id none = []
select_for items running pipelines target_id (some target) =
    if skip_for_unmet_deps target items
    then []
    else if is_over (pg_status target) && not (is_item_running running target_id)
    then []
    else if has_destructive running
    then []
    else targeted (pg_status target) (is_item_running running target_id) target target_id pipelines

unfoldable pub select_targeted_actions :
    List Item → RunningTasks → Pipelines → String → List SchedulerAction
select_targeted_actions items running pipelines target_id =
    select_for items running pipelines target_id (find (has_id target_id) items)

-- Whether the loop goes past a target.
abbrev passed_by : List String → Option Item → Bool
passed_by completed none = true
passed_by completed (some item) =
    (any (λ id. id == item.id) completed || pg_status item == ItemStatus.done)
    || pg_status item == ItemStatus.blocked

unfoldable pub is_inactive : List String → List Item → String → Bool
is_inactive completed items target = passed_by completed (find (has_id target) items)

-- The `while` loop, over the targets from the current index on.
unfoldable pub advance_over : List String → List Item → ℕ → List String → ℕ
advance_over completed items index [] = index
advance_over completed items index (target ∷ rest) =
    let next = advance_over completed items (suc index) rest in
    if is_inactive completed items target then next else index

unfoldable pub advance_to_next_active_target :
    (targets : List String) (current_index : ℕ) (items_completed : List String) → List Item → ℕ
advance_to_next_active_target targets current_index completed items =
    advance_over completed items current_index (drop current_index targets)
