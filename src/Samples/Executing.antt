-- ===== src/Samples/Executing.antt =====
-- Phases on the small inputs.
use phase_golem.Prelude.{
  ℕ, String, ◌≡◌, refl, ◌↔◌, true, false, Option, none, some, [], ◌∷◌, any, arith, ok, err,
  unwrap_or,
}
use phase_golem.Types.{phase_complete, pre, main, done, success}
use phase_golem.PgItem.Getters.{get_string_ext, pg_status, phase_pool, last_phase_commit}
use phase_golem.Config.{
  PipelineConfig, new_phase, default_config, default_guardrails, default_feature_pipeline,
}
use phase_golem.Config.Valid.{IsValidPipeline}
use phase_golem.Executor.{
  validate_result_identity, is_last_phase, resolve_transition, proceed, check_staleness,
}
use phase_golem.Executor.Transition.{
  validate_result_identity_iff, MayEnter, readies, finishes, resolve_transition-ready_iff,
  resolve_transition-done_iff,
}
use phase_golem.Executor.Progress.{run_results, main_phases_complete}
use phase_golem.Executor.Run.{
  Environment, AgentRun, finished, attempt_once, retry_loop, staleness_before, execute_phase,
}
use phase_golem.Executor.Retry.{Settled, execute_phase-Settled}
use phase_golem.Samples.{building, reviewing, fresh, completing, to_null}

validate_result_identity_iff_example :
    (validate_result_identity (completing "WRK-2" "build") "WRK-2" "build" ≡ ok tt) ↔ (
      ((completing "WRK-2" "build").item_id ≡ "WRK-2")
      × ((completing "WRK-2" "build").phase ≡ "build"))
validate_result_identity_iff_example =
    validate_result_identity_iff (completing "WRK-2" "build") "WRK-2" "build"

resolve_transition-ready_example :
    (any readies (
        resolve_transition fresh
          (completing "WRK-4" "research")
          default_feature_pipeline
          default_guardrails)
      ≡ true)
    ↔ (((completing "WRK-4" "research").result ≡ phase_complete)
        × (phase_pool fresh ≡ some pre)
        × (is_last_phase default_feature_pipeline.pre_phases (completing "WRK-4" "research").phase
            ≡ true)
        × MayEnter fresh default_guardrails)
resolve_transition-ready_example =
    resolve_transition-ready_iff fresh (completing "WRK-4" "research") default_feature_pipeline
      default_guardrails

resolve_transition-done_example :
    (any finishes (
        resolve_transition reviewing
          (completing "WRK-1" "review")
          default_feature_pipeline
          default_guardrails)
      ≡ true)
    ↔ (((completing "WRK-1" "review").result ≡ phase_complete)
        × (unwrap_or main (phase_pool reviewing) ≡ main)
        × (is_last_phase default_feature_pipeline.phases (completing "WRK-1" "review").phase
            ≡ true))
resolve_transition-done_example =
    resolve_transition-done_iff reviewing (completing "WRK-1" "review") default_feature_pipeline
      default_guardrails

-- Two main phases, of which the item is in the first.
abbrev short_pipeline : PipelineConfig
short_pipeline = record {
  pre_phases = new_phase "research" false ∷ [];
  phases = new_phase "build" true ∷ new_phase "review" false ∷ [];
}

short_pipeline-IsValid : IsValidPipeline 1 short_pipeline
short_pipeline-IsValid = ground arith

main_phases_complete_example :
    pg_status (
      run_results 50 to_null short_pipeline default_guardrails building
        (completing "WRK-2" "build" ∷ completing "WRK-2" "review" ∷ []))
    ≡ done
main_phases_complete_example =
    main_phases_complete 50 to_null short_pipeline default_guardrails 1 [] (new_phase "build" true)
      (new_phase "review" false ∷ []) building
      (completing "WRK-2" "build" ∷ completing "WRK-2" "review" ∷ []) short_pipeline-IsValid refl
      (unfold pg_status in refl) (unfold phase_pool get_string_ext in refl)
      (refl, refl, (refl, refl, tt))

-- The agent fails once, and then completes the phase.
abbrev second_time : ℕ → Option String → AgentRun
second_time n none = finished (err "timeout")
second_time n (some text) = finished (ok (completing "WRK-2" "build"))

abbrev environment : Environment
environment = record {
  is_ancestor = λ sha. ok true;
  head_sha = ok "abc";
  record_phase_start = λ id sha. ok tt;
  change_folder = λ id title. ok "changes/WRK-2_add-search";
  is_cancelled = λ n. false;
  run_agent = second_time;
}

execute_phase-building :
    execute_phase environment building (new_phase "build" true) default_config
    ≡ success (completing "WRK-2" "build")
unfolding execute_phase staleness_before check_staleness last_phase_commit get_string_ext retry_loop
    attempt_once validate_result_identity
execute_phase-building = refl

building-proceeds : staleness_before environment building (new_phase "build" true) ≡ proceed
unfolding staleness_before check_staleness last_phase_commit get_string_ext
building-proceeds = refl

execute_phase-Settled_example :
    Settled environment "WRK-2" "build" 3
      (execute_phase environment building (new_phase "build" true) default_config)
execute_phase-Settled_example =
    execute_phase-Settled environment building (new_phase "build" true) default_config "abc"
      "changes/WRK-2_add-search" (omega arith) (λ reason e. cc (building-proceeds)) refl refl refl
