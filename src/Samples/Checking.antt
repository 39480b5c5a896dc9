-- ===== src/Samples/Checking.antt =====
-- The preflight checks on the small inputs.
use mathlib.Core.List.{Memᴰ}
use phase_golem.Prelude.{ok, Bool, ◌≡◌, refl, ◌↔◌, some, [], unwrap_or}
use phase_golem.Types.{main, run_phase}
use phase_golem.PgItem.Getters.{phase, phase_pool, pg_status, pipeline_type}
use phase_golem.Scheduler.Items.{build_run_phase_action}
use phase_golem.Preflight.{validate_items, item_errors, validate_duplicate_ids}
use phase_golem.Preflight.Placed.{validate_items-build_run_phase_action}
use phase_golem.Config.{PhaseGolemConfig, default_config, populate_default_pipelines}
use phase_golem.Config.Checks.{validate, model_errors}
use phase_golem.Preflight.Structure.{validate_structure}
use phase_golem.Preflight.Agreement.{validate-validate_structure_iff}
use phase_golem.Preflight.Unique.{AreUnique, validate_duplicate_ids_iff}
use phase_golem.Samples.{backlog, building, pipelines}

placed : validate_items pipelines backlog ≡ []
unfolding validate_items item_errors pg_status pipeline_type phase phase_pool
placed = refl

validate_items-build_run_phase_action_example :
    (d : Bool) × (build_run_phase_action pipelines building
      ≡ some (run_phase building.id "build" (unwrap_or main (phase_pool building)) d))
unfolding pg_status phase
validate_items-build_run_phase_action_example =
    validate_items-build_run_phase_action pipelines backlog building "build" placed
      (Memᴰ.tail (Memᴰ.tail (Memᴰ.head refl))) refl refl

validate_duplicate_ids_iff_example : (validate_duplicate_ids backlog ≡ []) ↔ AreUnique backlog
validate_duplicate_ids_iff_example = validate_duplicate_ids_iff backlog

abbrev settings : PhaseGolemConfig
settings = populate_default_pipelines default_config

validate-validate_structure_iff_example :
    (validate settings ≡ ok tt)
    ↔ ((validate_structure settings ≡ []) × (model_errors settings.agent.model ≡ []))
validate-validate_structure_iff_example = validate-validate_structure_iff settings
