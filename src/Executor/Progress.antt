-- ===== src/Executor/Progress.antt =====
-- A pipeline run seen from the item alone: the results of its main phases, one after another, and the
-- updates that `resolve_transition` of src/executor.rs asks for after each. What src/scheduler.rs does
-- besides (Scheduler/Completion) has no part in it.
use phase_golem.Prelude.{
  ℕ, String, ◌≡◌, sym, ◌∙◌, subst, true, false, Option, none, some, List, [], ◌∷◌, ◌++◌, arith,
  string_eq, unwrap_or,
}
use mathlib.Core.List.{append_assoc}
use phase_golem.Types.{
  ItemStatus, ItemUpdate, transition_status, phase_complete, main, PhaseResult,
  StructuredDescription, is_valid_transition,
}
use phase_golem.PgItem.{Value, Item}
use phase_golem.PgItem.Getters.{pg_status, phase_pool}
use phase_golem.PgItem.Update.{apply_update, apply_transition}
use phase_golem.PgItem.Setters.{set_phase, set_last_phase_commit}
use phase_golem.PgItem.Lifecycle.{pg_status-set_pg_status}
use phase_golem.Config.{PhaseConfig, PipelineConfig, GuardrailsConfig}
use phase_golem.Config.Valid.{IsValidPipeline, IsDistinct}
use phase_golem.Executor.Phases.{
  next_phase_in_list-split, is_last_phase-end, is_last_phase-middle, IsDistinct-after,
  IsDistinct-before, IsDistinct-drop,
}
use phase_golem.Executor.{is_last_phase, next_phase_in_list, commit_update, resolve_transition}

-- One completing result for each of the phases, in their order.
abbrev pub Completes : List PhaseConfig → List PhaseResult → Type 0
Completes [] [] = Unit
Completes [] (r ∷ rs) = ⊥
Completes (p ∷ ps) [] = ⊥
Completes (p ∷ ps) (r ∷ rs) = (r.result ≡ phase_complete) × (r.phase ≡ p.name) × Completes ps rs

module _ (now : ℕ) (to_value : StructuredDescription → Value) where
  -- The updates of a transition, one after another.
  unfoldable pub settle : Item → List ItemUpdate → Item
  settle item [] = item
  settle item (u ∷ us) = settle (apply_update now to_value item u) us

  module _ (pipeline : PipelineConfig) (g : GuardrailsConfig) where
    unfoldable pub run_results : Item → List PhaseResult → Item
    run_results item [] = item
    run_results item (r ∷ rs) = run_results (settle item (resolve_transition item r pipeline g)) rs

    record Middle (item : Item) : Type 0 where
      running : pg_status item ≡ ItemStatus.in_progress
      in_main : unwrap_or main (phase_pool item) ≡ main

    resolve-Middle :
        (item : Item) (r : PhaseResult) (n : String)
        → Middle item
        → r.result ≡ phase_complete
        → is_last_phase pipeline.phases r.phase ≡ false
        → next_phase_in_list pipeline.phases r.phase ≡ some n
        → resolve_transition item r pipeline g
          ≡ ItemUpdate.set_phase n ∷ commit_update r.based_on_commit
    unfolding resolve_transition
    resolve-Middle item r n m c l e = ground (arith, m.in_main)

    resolve-last :
        (item : Item) (r : PhaseResult)
        → Middle item
        → r.result ≡ phase_complete
        → is_last_phase pipeline.phases r.phase ≡ true
        → resolve_transition item r pipeline g ≡ transition_status ItemStatus.done ∷ []
    unfolding resolve_transition
    resolve-last item r m c l = ground (arith, m.in_main)

    -- A result in the middle of the main phases: the item goes to the next phase and stays in progress.
    step-Middle :
        (item : Item) (r : PhaseResult) (n : String)
        → Middle item
        → r.result ≡ phase_complete
        → is_last_phase pipeline.phases r.phase ≡ false
        → next_phase_in_list pipeline.phases r.phase ≡ some n
        → Middle (settle item (resolve_transition item r pipeline g))
    step-Middle item r n m c l e = rw (resolve-Middle item r n m c l e) (settled r.based_on_commit)
      where
        settled :
            (sha : Option String)
            → Middle (settle item (ItemUpdate.set_phase n ∷ commit_update sha))
        settled none =
            unfold settle apply_update set_phase pg_status phase_pool in
            record { running = m.running; in_main = m.in_main }
        settled (some sha) =
            unfold settle apply_update set_phase set_last_phase_commit pg_status phase_pool in
            record { running = m.running; in_main = m.in_main }

    step_last :
        (item : Item) (r : PhaseResult)
        → Middle item
        → r.result ≡ phase_complete
        → is_last_phase pipeline.phases r.phase ≡ true
        → pg_status (settle item (resolve_transition item r pipeline g)) ≡ ItemStatus.done
    step_last item r m c l = rw (resolve-last item r m c l) (settled m.running)
      where
        settled :
            pg_status item ≡ ItemStatus.in_progress
            → pg_status (settle item (transition_status ItemStatus.done ∷ [])) ≡ ItemStatus.done
        settled h =
            unfold settle apply_update apply_transition is_valid_transition in
            rw h (pg_status-set_pg_status now item ItemStatus.done)

    run_results-done :
        (seen : List String) (before : List PhaseConfig) (p : PhaseConfig)
        (after : List PhaseConfig) (item : Item) (rs : List PhaseResult)
        → pipeline.phases ≡ before ++ p ∷ after
        → IsDistinct seen (before ++ p ∷ after)
        → Middle item
        → Completes (p ∷ after) rs
        → pg_status (run_results item rs) ≡ ItemStatus.done
    unfolding run_results
    run_results-done seen before p after item [] e d m a = absurd a
    run_results-done seen before p [] item (r ∷ []) e d m a =
        step_last item r m a.0 (rw (e, a.1) (is_last_phase-end before p))
    run_results-done seen before p [] item (r ∷ s ∷ rs) e d m a = absurd a.2
    run_results-done seen before p (q ∷ after) item (r ∷ rs) e d m a =
        let regroup = append_assoc before (p ∷ []) (q ∷ after) in
        run_results-done seen (before ++ p ∷ []) q after
          (settle item (resolve_transition item r pipeline g)) rs (e ∙ sym regroup)
          (subst (IsDistinct seen) (sym regroup) d)
          (step-Middle item r q.name m a.0
            (rw (e, a.1)
              (is_last_phase-middle before p q after
                (IsDistinct-after seen before p (q ∷ after) d)))
            (rw (e, a.1)
              (next_phase_in_list-split before p q after
                (IsDistinct-before seen before p (q ∷ after) d))))
          a.2

-- An item in progress in the main phases of a valid pipeline is done after one completing result
-- for each phase that is left, from the current one on, in their order.
pub main_phases_complete :
    (now : ℕ) (to_value : StructuredDescription → Value) (pipeline : PipelineConfig)
    (g : GuardrailsConfig) (max_wip : ℕ) (before : List PhaseConfig) (p : PhaseConfig)
    (after : List PhaseConfig) (item : Item) (rs : List PhaseResult)
    → IsValidPipeline max_wip pipeline
    → pipeline.phases ≡ before ++ p ∷ after
    → pg_status item ≡ ItemStatus.in_progress
    → unwrap_or main (phase_pool item) ≡ main
    → Completes (p ∷ after) rs
    → pg_status (run_results now to_value pipeline g item rs) ≡ ItemStatus.done
main_phases_complete now to_value pipeline g max_wip before p after item rs v e running in_main a =
    let (seen, d) = IsDistinct-drop [] pipeline.pre_phases pipeline.phases v.distinct in
    run_results-done now to_value pipeline g seen before p after item rs e
      (subst (IsDistinct seen) e d) (record { running = running; in_main = in_main }) a
