-- ===== src/Scheduler/Finished.antt =====
-- Whole runs of `run_scheduler` (src/scheduler.rs) with the actor of src/coordinator.rs.
use phase_golem.Prelude.{
  ℕ, ◌≤◌, String, ◌≡◌, refl, sym, ◌∙◌, ap, subst, Bool, true, Option, List, [], ◌∷◌, ◌++◌, All,
  Result, ok, err, arith,
}
use phase_golem.Types.{StructuredDescription}
use phase_golem.PgItem.{Value}
use phase_golem.PgError.{PgError}
use phase_golem.Config.{PhaseGolemConfig}
use phase_golem.Coordinator.{World}
use phase_golem.Coordinator.Laws.{View, WorldLaws}
use phase_golem.Coordinator.Handle.{Actor, CoordinatorHandle, handle_of}
use phase_golem.Scheduler.{RunSummary, cap_reached}
use phase_golem.Scheduler.Completion.{Progress}
use phase_golem.Scheduler.Served.{SafeActor, IsArchived, handle_of-HandleLaws}
use phase_golem.Scheduler.Loop.{
  Turn, Run, Outcome, halted, going, halt, take_turn, next_turn, run_turns, run_scheduler,
}
use phase_golem.Scheduler.Halting.{RunParams}
use phase_golem.Scheduler.Kept.{Leads}
use phase_golem.Scheduler.Turns.{run_turns-Leads}

-- What the summary of a run says, where the run did not fail. A run that goes on is not finished.
pub record Finished {W : Type 0} (v : View W) (cap : ℕ) (a : Actor W) (summary : RunSummary)
    (b : Actor W) : Type 0 where
  pub safe : SafeActor v a b
  pub completed : All (λ id. IsArchived v id b) summary.items_completed
  pub within_cap : summary.phases_executed ≤ cap
  pub at_cap : summary.halt_reason ≡ cap_reached → summary.phases_executed ≡ cap

abbrev pub Finishes :
    {W : Type 0} → View W → ℕ → Actor W → Result String (Outcome (Actor W)) → Type 0
Finishes v cap a (err e) = Unit
Finishes v cap a (ok (halted summary p)) = Finished v cap a summary p.coordinator
Finishes v cap a (ok (going run)) = ⊥

module _ {C : Type 0} (show : PgError → String) (before : String → String → Bool)
    (handle : CoordinatorHandle C) (config : PhaseGolemConfig) (params : RunParams) where
  IsOver : Result String (Outcome C) → Type 0
  IsOver (err e) = Unit
  IsOver (ok (halted summary p)) = Unit
  IsOver (ok (going run)) = ⊥

  next_turn-IsOver :
      (r : Result String (Outcome C)) (rest : Run C → Result String (Outcome C))
      → ((run : Run C) → IsOver (rest run))
      → IsOver (next_turn show before handle config params r rest)
  unfolding IsOver
  next_turn-IsOver (ok (going run)) rest h = h run
  next_turn-IsOver (ok (halted summary p)) rest h = tt
  next_turn-IsOver (err e) rest h = tt

  run_turns-IsOver :
      (turns : List Turn) (last : Turn)
      → last.is_cancelled ≡ true
      → (run : Run C) → IsOver (run_turns show before handle config params (turns ++ last ∷ []) run)
  unfolding run_turns take_turn halt IsOver
  run_turns-IsOver [] last c run = rw c tt
  run_turns-IsOver (turn ∷ turns) last c run =
      next_turn-IsOver (take_turn show before handle config params turn run) _
        (λ later. run_turns-IsOver turns last c later)

module _ {W : Type 0} (world : World W) (v : View W) (laws : WorldLaws world v)
    (to_value : StructuredDescription → Value)
    (from_value : Value → Option StructuredDescription) where
  summed :
      (show : PgError → String) (before : String → String → Bool) (config : PhaseGolemConfig)
      (params : RunParams) (start : Progress (Actor W)) (r : Result String (Outcome (Actor W)))
      → start.state.items_completed ≡ []
      → start.state.phases_executed ≡ 0
      → Leads (SafeActor v) (IsArchived v) start r
      → IsOver show before (handle_of world to_value from_value) config params r
      → Finishes v start.state.cap start.coordinator r
  unfolding IsOver
  summed show before config params start (err e) none_yet zero_yet h over = tt
  summed show before config params start (ok (going run)) none_yet zero_yet h over = over
  summed show before config params start (ok (halted summary p)) none_yet zero_yet h over =
      let within = h.kept.capped (omega (arith, zero_yet)) in
      record {
        safe = h.kept.followed;
        completed =
            subst (λ z. All (λ id. IsArchived v id p.coordinator) z)
              (sym (h.completed ∙ h.kept.completed.1 ∙ ap (λ z. z ++ h.kept.completed.0) none_yet))
              h.kept.completed.2;
        within_cap = omega (arith, within, h.executed, h.kept.cap);
        at_cap = λ k. omega (arith, within, h.executed, h.kept.cap, h.at_cap k);
      }

  -- A run of the scheduler over any turns, up to one in which it is cancelled, has ended by then,
  -- whatever fails in the store, in git and in the tasks. Unless it ends with an error, no item of the
  -- store is lost, active ids stay distinct and the archive only grows; every item that the summary
  -- gives as completed is archived; the phases executed are not more than the cap, and exactly the cap
  -- where that is the reason to halt.
  pub run_scheduler-Finishes :
      (show : PgError → String) (before : String → String → Bool) (config : PhaseGolemConfig)
      (params : RunParams) (turns : List Turn) (last : Turn)
      → last.is_cancelled ≡ true
      → (a : Actor W)
      → Finishes v params.cap a (
          run_scheduler show before
            (handle_of world to_value from_value)
            config
            params
            (turns ++ last ∷ [])
            a)
  unfolding run_scheduler
  run_scheduler-Finishes show before config params turns last cancelled a =
      summed show before config params _ _ refl refl
        (run_turns-Leads (handle_of world to_value from_value) (SafeActor v) (IsArchived v)
          (handle_of-HandleLaws world v laws to_value from_value) show before config params
          (turns ++ last ∷ []) _)
        (run_turns-IsOver show before (handle_of world to_value from_value) config params turns last
          cancelled _)
