-- ===== src/Samples/Completing.antt =====
-- The scheduler's completion of tasks, with the coordinator on the small world behind its handle.
use phase_golem.Prelude.{Bool, false, refl, String, true, Option, none, some, List, [], ◌∷◌}
use phase_golem.Types.{PhaseExecutionResult, success}
use phase_golem.PgError.{PgError}
use phase_golem.Config.{PhaseGolemConfig, default_config, populate_default_pipelines}
use phase_golem.Coordinator.Handle.{Actor, handle_of}
use phase_golem.Scheduler.Completion.{Progress}
use phase_golem.Scheduler.Drain.{handle_task_completion, drain_join_set}
use phase_golem.Scheduler.Advanced.{Advanced}
use phase_golem.Scheduler.Drained.{Counts, Drained, failures, handle_task_completion-Advanced}
use phase_golem.Scheduler.Served.{
  SafeActor, IsArchived, handle_of-HandleLaws, drain_join_set-Served,
}
use phase_golem.Scheduler.Halting.{RunParams}
use phase_golem.Scheduler.Loop.{Turn, run_scheduler}
use phase_golem.Scheduler.Finished.{Finishes, run_scheduler-Finishes}
use phase_golem.Samples.{completing, to_null, idle, started}
use phase_golem.Samples.Coordinating.{Disk, on_disk, world, world-WorldLaws, from_nothing, serving}

abbrev show : PgError → String
show e = "refused"

abbrev settings : PhaseGolemConfig
settings = populate_default_pipelines default_config

abbrev progress : Progress (Actor Disk)
progress = record {
  coordinator = record { state = serving; is_running = true };
  state = started;
  previous_summaries = λ id. none;
}

abbrev reviewed : PhaseExecutionResult
reviewed = success (completing "WRK-1" "review")

handle_task_completion-Advanced_example :
    Advanced
      (SafeActor on_disk)
      (IsArchived on_disk)
      (Counts reviewed)
      "WRK-1"
      progress
      (handle_task_completion show
        (handle_of world to_null from_nothing)
        settings
        "WRK-1"
        reviewed
        progress).1
handle_task_completion-Advanced_example =
    handle_task_completion-Advanced (handle_of world to_null from_nothing) (SafeActor on_disk)
      (IsArchived on_disk) (handle_of-HandleLaws world on_disk world-WorldLaws to_null from_nothing)
      show settings "WRK-1" reviewed progress

abbrev ended : List (Option (String × PhaseExecutionResult))
ended =
    some ("WRK-2", PhaseExecutionResult.failed "no result") ∷ none ∷ some ("WRK-1", reviewed) ∷ []

drain_join_set-Served_example :
    Drained
      (SafeActor on_disk)
      (IsArchived on_disk)
      (failures ended)
      progress
      (drain_join_set show (handle_of world to_null from_nothing) settings ended (idle, progress)).1
drain_join_set-Served_example =
    drain_join_set-Served world on_disk world-WorldLaws to_null from_nothing show settings ended
      idle progress

abbrev turn : Turn
turn = record { is_cancelled = false; drained = []; next = some (some ("WRK-1", reviewed)) }

abbrev cancelled_turn : Turn
cancelled_turn = record { is_cancelled = true; drained = ended; next = none }

abbrev unrestricted : RunParams
unrestricted = record { targets = []; filter = []; cap = 5; auto_advance = false }

abbrev first_of_two : String → String → Bool
first_of_two a b = true

run_scheduler-Finishes_example :
    Finishes on_disk 5
      (record { state = serving; is_running = true })
      (run_scheduler show first_of_two
        (handle_of world to_null from_nothing)
        settings
        unrestricted
        (turn ∷ cancelled_turn ∷ [])
        (record { state = serving; is_running = true }))
run_scheduler-Finishes_example =
    run_scheduler-Finishes world on_disk world-WorldLaws to_null from_nothing show first_of_two
      settings unrestricted (turn ∷ []) cancelled_turn refl
      (record { state = serving; is_running = true })
