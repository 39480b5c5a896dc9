-- ===== src/Scheduler/Loop.antt =====
-- The main loop of `run_scheduler` (src/scheduler.rs).
use phase_golem.Prelude.{
  ℕ, ◌+◌, ◌-◌, String, Bool, ◌&&◌, Option, none, some, List, [], ◌∷◌, if◌then◌else◌, string_eq, eqb,
  find, first, is_empty, lookup, concat, Result, ok, err,
}
use phase_golem.Prelude.Actions.{Action, ◌>>=◌, ◌>>◌, or_fail, attempt}
use phase_golem.Types.{
  ItemStatus, status_eq, ItemUpdate, transition_status, main, SchedulerAction, PhaseExecutionResult,
}
use phase_golem.PgItem.{Item}
use phase_golem.PgError.{PgError}
use phase_golem.Config.{PhaseGolemConfig}
use phase_golem.Scheduler.{
  SchedulerState, RunningTasks, remove_task, is_cap_reached, is_circuit_breaker_tripped, RunSummary,
  HaltReason, all_done_or_blocked, cap_reached, circuit_breaker_tripped, shutdown_requested,
}
use phase_golem.Scheduler.Items.{has_id, item_pipeline_type}
use phase_golem.Scheduler.Spawn.{process_actions}
use phase_golem.Scheduler.Completion.{Progress, ask}
use phase_golem.Scheduler.Drain.{handle_task_completion, drain_join_set, build_summary}
use phase_golem.Scheduler.Halting.{
  RunParams, TargetCheck, stop, pass_blocked, go_on, check_targets, check_filter, choose_actions,
}
use phase_golem.Coordinator.Handle.{CoordinatorHandle}

-- What one turn of the loop meets: whether the run is cancelled at its head, how the tasks end if the
-- turn waits for them all, and what it gets when it waits for one: a task, one that could not be
-- joined, or, as `none`, the cancellation.
pub record Turn : Type 0 where
  pub is_cancelled : Bool
  pub drained : List (Option (String × PhaseExecutionResult))
  pub next : Option (Option (String × PhaseExecutionResult))

-- The loop's variables; of the join set only the number of tasks counts.
pub record Run (C : Type 0) : Type 0 where
  pub progress : Progress C
  pub running : RunningTasks
  pub in_flight : ℕ

pub data Outcome (C : Type 0) : Type 0 where
  halted : RunSummary → Progress C → Outcome C
  going : Run C → Outcome C

module _ {C : Type 0} (show : PgError → String) (before : String → String → Bool)
    (handle : CoordinatorHandle C) (config : PhaseGolemConfig) where
  -- `handle_promote` through the handle.
  unfoldable pub promote : List Item → String → Action String (Progress C) (Unit {0})
  promote snapshot id = do
    item ←
        or_fail (concat ("Item " ∷ id ∷ " not found for promotion" ∷ []))
          (find (has_id id) snapshot)
    pipeline ←
        or_fail (concat ("Pipeline '" ∷ item_pipeline_type item ∷ "' not found for promotion" ∷ []))
          (lookup (item_pipeline_type item) config.pipelines)
    first_phase ←
        or_fail (concat ("Pipeline '" ∷ item_pipeline_type item ∷ "' has no main phases" ∷ []))
          (first pipeline.phases)
    ask show handle (handle.update_item id (transition_status ItemStatus.in_progress))
    ask show handle (handle.update_item id (ItemUpdate.set_phase first_phase.name))
    ask show handle (handle.update_item id (ItemUpdate.set_phase_pool main))

  abbrev pub settled : Result String (Unit {0}) × Progress C → Result String (Progress C)
  settled (ok a, p) = ok p
  settled (err e, p) = err e

  abbrev pub promote_item : List Item → Progress C → String → Result String (Progress C)
  promote_item snapshot p id = settled (promote snapshot id p)

  -- A failed batch commit is only logged.
  unfoldable pub commit_batch : Progress C → Progress C
  commit_batch p = (attempt {F = String} (ask show handle handle.batch_commit) p).1

  abbrev pub drain : Turn → Run C → RunningTasks × Progress C
  drain turn run = drain_join_set show handle config turn.drained (run.running, run.progress)

  unfoldable pub halt : Turn → HaltReason → Run C → Result String (Outcome C)
  unfolding drain_join_set commit_batch build_summary
  halt turn reason run =
      let p = commit_batch (drain turn run).1 in ok (halted (build_summary before p.state reason) p)

  -- Past a target that was blocked in this run.
  unfoldable pub pass_target : Turn → Run C → Result String (Outcome C)
  unfolding drain_join_set commit_batch
  pass_target turn run =
      let out = drain turn run in
      let p = commit_batch out.1 in
      ok (
        going (record {
          progress = record p {
            state = record p.state {
              consecutive_exhaustions = 0;
              current_target_index = p.state.current_target_index + 1;
            };
          };
          running = out.0;
          in_flight = 0;
        }))

  abbrev pub completed_turn :
      Run C → Result String (Unit {0}) × Progress C → Result String (Outcome C)
  completed_turn run (ok a, p) = ok (going (record run { progress = commit_batch p }))
  completed_turn run (err e, p) = err e

  -- What `select!` gives.
  unfoldable pub join_next :
      Turn → Run C → Option (Option (String × PhaseExecutionResult)) → Result String (Outcome C)
  unfolding halt commit_batch handle_task_completion
  join_next turn run none = halt turn shutdown_requested run
  join_next turn run (some none) =
      ok
        (going (record run { progress = commit_batch run.progress; in_flight = run.in_flight - 1 }))
  join_next turn run (some (some (id, result))) =
      completed_turn
        (record run { running = remove_task run.running id; in_flight = run.in_flight - 1 })
        (handle_task_completion show handle config id result run.progress)

  unfoldable pub wait_for_one : Turn → Run C → Result String (Outcome C)
  unfolding join_next commit_batch build_summary
  wait_for_one turn run =
      let p = commit_batch run.progress in
      if is_cap_reached run.progress.state && eqb run.in_flight 0
      then ok (halted (build_summary before p.state cap_reached) p)
      else if eqb run.in_flight 0
      then ok (going (record run { progress = p }))
      else join_next turn run turn.next

  -- Each phase that was counted is a task in the join set.
  abbrev pub started :
      Turn
      → Run C
      → Result String (Progress C × SchedulerState × RunningTasks)
      → Result String (Outcome C)
  started turn run (err e) = err e
  started turn run (ok (p, state, running)) = wait_for_one turn (record {
    progress = record p { state = state };
    running = running;
    in_flight = run.in_flight + (state.phases_executed - run.progress.state.phases_executed);
  })

  unfoldable pub schedule :
      Turn → List Item → List SchedulerAction → Run C → Result String (Outcome C)
  unfolding wait_for_one promote process_actions build_summary
  schedule turn snapshot actions run =
      let after =
        process_actions (promote_item snapshot) run.progress run.progress.state run.running
          actions in
      if is_empty actions && is_empty run.running
      then ok (halted (build_summary before run.progress.state all_done_or_blocked) run.progress)
      else started turn run after

  module _ (params : RunParams) where
    abbrev pub after_filter :
        Turn → List Item → Run C → Option HaltReason → Result String (Outcome C)
    after_filter turn snapshot run (some reason) = halt turn reason run
    after_filter turn snapshot run none =
        schedule turn snapshot
          (choose_actions config params run.progress.state snapshot run.running) run

    abbrev pub at_target : ℕ → Run C → Run C
    at_target index run = record run {
      progress = record (run.progress) {
        state = record (run.progress.state) { current_target_index = index };
      };
    }

    abbrev pub after_targets : Turn → List Item → Run C → TargetCheck → Result String (Outcome C)
    after_targets turn snapshot run (stop reason) = halt turn reason run
    after_targets turn snapshot run pass_blocked = pass_target turn run
    after_targets turn snapshot run (go_on index) =
        after_filter turn snapshot (at_target index run)
          (check_filter params (at_target index run).progress.state snapshot)

    abbrev pub with_snapshot :
        Turn → Run C → Result String (List Item) × Progress C → Result String (Outcome C)
    with_snapshot turn run (err e, p) = err e
    with_snapshot turn run (ok snapshot, p) =
        after_targets turn snapshot (record run { progress = p })
          (check_targets params p.state snapshot)

    -- One turn of the loop.
    unfoldable pub take_turn : Turn → Run C → Result String (Outcome C)
    unfolding halt is_circuit_breaker_tripped
    take_turn turn run =
        if turn.is_cancelled
        then halt turn shutdown_requested run
        else if is_circuit_breaker_tripped run.progress.state
        then halt turn circuit_breaker_tripped run
        else with_snapshot turn run (ask show handle handle.get_snapshot run.progress)

    abbrev pub next_turn :
        Result String (Outcome C) → (Run C → Result String (Outcome C)) → Result String (Outcome C)
    next_turn (ok (going run)) rest = rest run
    next_turn (ok (halted summary p)) rest = ok (halted summary p)
    next_turn (err e) rest = err e

    -- The turns of a run, which goes on where they end before it halts.
    unfoldable pub run_turns : List Turn → Run C → Result String (Outcome C)
    unfolding take_turn
    run_turns [] run = ok (going run)
    run_turns (turn ∷ turns) run = next_turn (take_turn turn run) (λ later. run_turns turns later)

    unfoldable pub run_scheduler : List Turn → C → Result String (Outcome C)
    unfolding run_turns
    run_scheduler turns coordinator = run_turns turns (record {
      progress = record {
        coordinator = coordinator;
        state = record {
          phases_executed = 0;
          cap = params.cap;
          consecutive_exhaustions = 0;
          items_completed = [];
          items_blocked = [];
          follow_ups_created = 0;
          items_merged = 0;
          current_target_index = 0;
        };
        previous_summaries = λ id. none;
      };
      running = [];
      in_flight = 0;
    })
