-- ===== src/Scheduler/Drain.antt =====
-- The completion of a task in src/scheduler.rs, the loop that waits for the last tasks, and the summary.
use phase_golem.Prelude.{
  String, Bool, Option, none, some, List, [], ◌∷◌, if◌then◌else◌, ◌==◌, string_eq, find, sort_by,
}
use phase_golem.Prelude.Actions.{Action, ◌>>=◌}
use phase_golem.Types.{PhaseExecutionResult, success, cancelled}
use phase_golem.PgItem.{Item}
use phase_golem.PgError.{PgError}
use phase_golem.Config.{PhaseGolemConfig}
use phase_golem.Scheduler.{SchedulerState, RunningTasks, remove_task, HaltReason, RunSummary}
use phase_golem.Scheduler.Items.{has_id}
use phase_golem.Scheduler.Completion.{
  Progress, ask, write_entry, own_phase, handle_phase_success, handle_subphase_complete,
  handle_phase_failed, handle_phase_blocked,
}
use phase_golem.Scheduler.Triage.{handle_triage_success}
use phase_golem.Coordinator.Handle.{CoordinatorHandle}

module _ {C : Type 0} (show : PgError → String) (handle : CoordinatorHandle C)
    (config : PhaseGolemConfig) where
  unfoldable pub complete_with :
      (item_id : String) → List Item → PhaseExecutionResult → Action String (Progress C) (Unit {0})
  complete_with id snapshot (success r) =
      if r.phase == "triage"
      then handle_triage_success show handle config id snapshot r
      else handle_phase_success show handle config id r
  complete_with id snapshot (PhaseExecutionResult.subphase_complete r) =
      handle_subphase_complete show handle snapshot id r
  complete_with id snapshot (PhaseExecutionResult.failed reason) =
      handle_phase_failed show handle snapshot id reason
  complete_with id snapshot (PhaseExecutionResult.blocked reason) =
      handle_phase_blocked show handle snapshot id reason
  complete_with id snapshot cancelled =
      write_entry show handle (find (has_id id) snapshot) (own_phase show handle) "Cancelled"
        "Shutdown requested"

  unfoldable pub handle_task_completion :
      (item_id : String) → PhaseExecutionResult → Action String (Progress C) (Unit {0})
  unfolding complete_with
  handle_task_completion id result =
      ask show handle handle.get_snapshot >>= λ snapshot. complete_with id snapshot result

  -- The tasks in the order in which they end, `none` for one that could not be joined; an error of the
  -- completion is dropped.
  unfoldable pub drain_join_set :
      List (Option (String × PhaseExecutionResult))
      → RunningTasks × Progress C
      → RunningTasks × Progress C
  unfolding handle_task_completion
  drain_join_set [] s = s
  drain_join_set (none ∷ ended) s = drain_join_set ended s
  drain_join_set (some (id, result) ∷ ended) (running, p) =
      drain_join_set ended (remove_task running id, (handle_task_completion id result p).1)

-- `Vec::dedup`: of equal neighbours the first is kept.
unfoldable pub dedup_after : String → List String → List String
dedup_after x [] = []
dedup_after x (y ∷ ys) = let rest = dedup_after y ys in if y == x then rest else y ∷ rest

unfoldable pub dedup : List String → List String
unfolding dedup_after
dedup [] = []
dedup (x ∷ xs) = x ∷ dedup_after x xs

-- The order on texts by which `sort` sorts is a parameter.
module _ (before : String → String → Bool) where
  unfoldable pub build_summary : SchedulerState → HaltReason → RunSummary
  unfolding dedup
  build_summary state halt_reason = record {
    phases_executed = state.phases_executed;
    items_completed = state.items_completed;
    items_blocked = dedup (sort_by before state.items_blocked);
    follow_ups_created = state.follow_ups_created;
    items_merged = state.items_merged;
    halt_reason = halt_reason;
  }
