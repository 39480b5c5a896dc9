-- ===== src/Samples/Promoting.antt =====
-- A promotion through the actor on the small world.
use phase_golem.Prelude.{String, ◌≡◌, refl, Bool, true, none, [], ok}
use phase_golem.Types.{is_valid_transition}
use phase_golem.PgItem.Update.{apply_update, apply_transition}
use phase_golem.PgItem.Setters.{set_phase}
use phase_golem.PgError.{PgError, is_retryable, from_tg}
use phase_golem.PgItem.Getters.{pg_status, pipeline_type, get_string_ext}
use phase_golem.Config.{PhaseGolemConfig, default_config, populate_default_pipelines}
use phase_golem.Coordinator.{with_store_retry, attempts}
use phase_golem.Coordinator.Edits.{modify_first}
use phase_golem.Coordinator.Store.{handle_update_item, update_body}
use phase_golem.Coordinator.Handle.{Actor, send_command, handle_of}
use phase_golem.Scheduler.Completion.{Progress}
use phase_golem.Scheduler.Loop.{promote}
use phase_golem.Scheduler.Promoted.{Promotes, promote-Promotes}
use phase_golem.Samples.{backlog, to_null, started}
use phase_golem.Samples.Coordinating.{Disk, on_disk, world, world-WorldLaws, from_nothing, serving}

abbrev refused : PgError → String
refused e = "refused"

abbrev in_turn : String → String → Bool
in_turn a b = true

abbrev settings : PhaseGolemConfig
settings = populate_default_pipelines default_config

abbrev disk : Disk
disk = record { active = backlog; archive = []; held = 1; locks = 0 }

abbrev progress : Progress (Actor Disk)
progress = record {
  coordinator = record { state = record serving { world = disk }; is_running = true };
  state = started;
  previous_summaries = λ id. none;
}

promote-waiting :
    (promote refused in_turn
      (handle_of world to_null from_nothing)
      settings
      backlog
      "WRK-3"
      progress).0
    ≡ ok tt
unfolding promote handle_of send_command handle_update_item update_body with_store_retry attempts
    is_retryable from_tg modify_first pipeline_type get_string_ext populate_default_pipelines
    apply_update apply_transition is_valid_transition pg_status set_phase
promote-waiting = refl

promote-Promotes_example :
    Promotes world on_disk to_null from_nothing refused "WRK-3" in_turn settings backlog progress (
      promote refused in_turn
        (handle_of world to_null from_nothing)
        settings
        backlog
        "WRK-3"
        progress)
promote-Promotes_example =
    promote-Promotes world on_disk to_null from_nothing refused "WRK-3" in_turn settings backlog
      world-WorldLaws progress
