-- ===== src/Scheduler/Spawn.antt =====
-- The loop of `run_scheduler` (src/scheduler.rs) that carries out the chosen actions. What a
-- promotion does to the store is a parameter here.
use phase_golem.Prelude.{suc, String, Bool, false, List, [], ◌∷◌, if◌then◌else◌, Result, ok, err}
use phase_golem.Types.{PhasePool, pre, SchedulerAction, triage, promote, run_phase}
use phase_golem.Scheduler.{
  RunningTaskInfo, RunningTasks, insert_task, SchedulerState, is_cap_reached,
}

abbrev counted : SchedulerState → SchedulerState
counted state = record state { phases_executed = suc state.phases_executed }

abbrev task : String → PhasePool → Bool → RunningTaskInfo
task name pool is_destructive = record {
  phase = name;
  phase_pool = pool;
  is_destructive = is_destructive;
}

module _ {ℓ} {S : Type ℓ} (promote_item : S → String → Result String S) where
  -- At the cap the loop is left. A failed promotion ends the run.
  unfoldable pub process_actions :
      S
      → SchedulerState
      → RunningTasks
      → List SchedulerAction
      → Result String (S × SchedulerState × RunningTasks)
  process_actions store state running [] = ok (store, state, running)
  process_actions store state running (promote id ∷ rest) = elim (promote_item store id) [
    | err e ↦ err e
    | ok after ↦ process_actions after state running rest
  ]
  process_actions store state running (triage id ∷ rest) =
      let more =
        process_actions store (counted state) (insert_task running id (task "triage" pre false))
          rest in
      if is_cap_reached state then ok (store, state, running) else more
  process_actions store state running (run_phase id name pool d ∷ rest) =
      let more =
        process_actions store (counted state) (insert_task running id (task name pool d)) rest in
      if is_cap_reached state then ok (store, state, running) else more
