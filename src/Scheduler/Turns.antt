-- ===== src/Scheduler/Turns.antt =====
-- What every turn of the main loop (src/scheduler.rs) keeps, and so a run.
use phase_golem.Prelude.{
  String, ◌≡◌, ◌≢◌, refl, sym, Bool, Option, none, some, List, [], ◌∷◌, Result, ok, err, arith,
}
use mathlib.Core.List.{append-nil}
use phase_golem.PgItem.{Item}
use phase_golem.PgError.{PgError}
use phase_golem.Config.{PhaseGolemConfig}
use phase_golem.Scheduler.{
  SchedulerState, is_circuit_breaker_tripped, HaltReason, cap_reached, circuit_breaker_tripped,
  shutdown_requested,
}
use phase_golem.Scheduler.Completion.{Progress}
use phase_golem.Scheduler.Advanced.{HandleLaws}
use phase_golem.Scheduler.Loop.{
  Turn, Run, Outcome, halted, going, after_filter, at_target, after_targets, with_snapshot,
  take_turn, next_turn, run_turns,
}
use phase_golem.Scheduler.Halting.{
  RunParams, TargetCheck, stop, pass_blocked, go_on, check_targets, check_filter,
}
use phase_golem.Scheduler.Kept.{
  Kept, Leads, run_order, Leads-join, Leads-if, asks, halt-Leads, pass_target-Leads,
}
use phase_golem.Scheduler.Carried.{schedule-Leads}
use phase_golem.Coordinator.Handle.{CoordinatorHandle}

module _ {C : Type 0} (handle : CoordinatorHandle C) (R : C → C → Type 0)
    (archived : String → C → Type 0) (laws : HandleLaws handle R archived) (show : PgError → String)
    (before : String → String → Bool) (config : PhaseGolemConfig) where
  module _ (params : RunParams) where
    -- The checks before the choice of actions never halt for the cap.
    check_targets-not_for_cap :
        (state : SchedulerState) (snapshot : List Item) (reason : HaltReason)
        → check_targets params state snapshot ≡ stop reason
        → reason ≢ cap_reached
    unfolding check_targets
    check_targets-not_for_cap state snapshot reason h = ground (arith, h)

    check_filter-not_for_cap :
        (state : SchedulerState) (snapshot : List Item) (reason : HaltReason)
        → check_filter params state snapshot ≡ some reason
        → reason ≢ cap_reached
    unfolding check_filter
    check_filter-not_for_cap state snapshot reason h = ground (arith, h)

    after_filter-Leads :
        (turn : Turn) (snapshot : List Item) (run : Run C) (check : Option HaltReason)
        → ((reason : HaltReason) → check ≡ some reason → reason ≢ cap_reached)
        → Leads R archived run.progress
            (after_filter show before handle config params turn snapshot run check)
    after_filter-Leads turn snapshot run (some reason) h =
        halt-Leads handle R archived laws show before config turn reason run (h reason refl)
    after_filter-Leads turn snapshot run none h =
        schedule-Leads handle R archived laws show before config turn snapshot _ run

    after_targets-Leads :
        (turn : Turn) (snapshot : List Item) (run : Run C) (check : TargetCheck)
        → ((reason : HaltReason) → check ≡ stop reason → reason ≢ cap_reached)
        → Leads R archived run.progress
            (after_targets show before handle config params turn snapshot run check)
    after_targets-Leads turn snapshot run (stop reason) h =
        halt-Leads handle R archived laws show before config turn reason run (h reason refl)
    after_targets-Leads turn snapshot run pass_blocked h =
        pass_target-Leads handle R archived laws show before config turn run
    after_targets-Leads turn snapshot run (go_on index) h =
        let at = at_target show before handle config params index run in
        Leads-join handle R archived laws run.progress at.progress _
          (record {
            followed = laws.order.stays _;
            cap = refl;
            capped = λ k. k;
            completed = ([], sym (append-nil _), tt);
          })
          (after_filter-Leads turn snapshot at _
            (check_filter-not_for_cap at.progress.state snapshot))

    with_snapshot-Leads :
        (turn : Turn) (run : Run C) (out : Result String (List Item) × Progress C)
        → Kept R archived run.progress out.1
        → Leads R archived run.progress
            (with_snapshot show before handle config params turn run out)
    with_snapshot-Leads turn run (err e, p) h = tt
    with_snapshot-Leads turn run (ok snapshot, p) h =
        Leads-join handle R archived laws run.progress p _ h (
          after_targets-Leads turn snapshot (record run { progress = p }) _
            (check_targets-not_for_cap p.state snapshot))

    take_turn-Leads :
        (turn : Turn) (run : Run C)
        → Leads R archived run.progress (take_turn show before handle config params turn run)
    unfolding take_turn
    take_turn-Leads turn run =
        Leads-if handle R archived laws run.progress turn.is_cancelled _ _
          (halt-Leads handle R archived laws show before config turn shutdown_requested run
            (λ h. cc h))
          (Leads-if handle R archived laws run.progress
            (is_circuit_breaker_tripped run.progress.state) _ _
            (halt-Leads handle R archived laws show before config turn circuit_breaker_tripped run
              (λ h. cc h))
            (with_snapshot-Leads turn run _ (
              (asks handle R archived laws show before config handle.get_snapshot
                  laws.snapshot_law).at
                run.progress)))

    next_turn-Leads :
        (a : Progress C) (r : Result String (Outcome C)) (rest : Run C → Result String (Outcome C))
        → Leads R archived a r
        → ((run : Run C) → Leads R archived run.progress (rest run))
        → Leads R archived a (next_turn show before handle config params r rest)
    next_turn-Leads a (ok (going run)) rest h k =
        Leads-join handle R archived laws a run.progress (rest run) h (k run)
    next_turn-Leads a (ok (halted summary p)) rest h k = h
    next_turn-Leads a (err e) rest h k = tt

    pub run_turns-Leads :
        (turns : List Turn) (run : Run C)
        → Leads R archived run.progress (run_turns show before handle config params turns run)
    unfolding run_turns
    run_turns-Leads [] run = (run_order handle R archived laws).stays _
    run_turns-Leads (turn ∷ turns) run =
        next_turn-Leads run.progress _ _ (take_turn-Leads turn run)
          (λ later. run_turns-Leads turns later)
