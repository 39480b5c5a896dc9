-- ===== src/Scheduler/Served.antt =====
-- The scheduler's completion of tasks (src/scheduler.rs) with the actor of src/coordinator.rs behind its
-- handle.
use phase_golem.Prelude.{
  String, ◌≡◌, true, Option, List, any-append, ok, Bool-cases, arith, inl, inr,
}
use phase_golem.Prelude.Actions.{Action, reads, Follows, Follows-bind}
use phase_golem.Types.{StructuredDescription, PhaseExecutionResult}
use phase_golem.PgItem.{Value}
use phase_golem.PgError.{PgError, git}
use phase_golem.Config.{PhaseGolemConfig}
use phase_golem.Coordinator.{World, CoordinatorState}
use phase_golem.Coordinator.Ids.{has}
use phase_golem.Coordinator.Laws.{View, WorldLaws}
use phase_golem.Coordinator.Sound.{Sound}
use phase_golem.Coordinator.Store.{handle_archive_item}
use phase_golem.Coordinator.Commands.{in_world}
use phase_golem.Coordinator.Moves.{handle_archive_item-Moved}
use phase_golem.Coordinator.Handled.{
  handle_archive_item-Sound, handle_update_item-Sound, handle_ingest_follow_ups-Sound,
  handle_merge_item-Sound,
}
use phase_golem.Coordinator.Served.{
  Safe, actor_order, in_world-Safe, calls, handle_get_snapshot-Sound, handle_complete_phase-Safe,
  handle_batch_commit-Safe,
}
use phase_golem.Coordinator.Handle.{Actor, send_command, handle_of}
use phase_golem.Scheduler.{RunningTasks}
use phase_golem.Scheduler.Items.{has_id}
use phase_golem.Scheduler.Completion.{Progress}
use phase_golem.Scheduler.Drain.{drain_join_set}
use phase_golem.Scheduler.Advanced.{HandleLaws}
use phase_golem.Scheduler.Drained.{Drained, failures, drain_join_set-Drained}

abbrev pub SafeActor : {W : Type 0} → View W → Actor W → Actor W → Type 0
SafeActor v a b = Safe v a.state b.state

abbrev pub IsArchived : {W : Type 0} → View W → String → Actor W → Type 0
IsArchived v id a = has id (v.archive a.state.world) ≡ true

module _ {W : Type 0} (world : World W) (v : View W) (laws : WorldLaws world v) where
  sent :
      {A : Type 0} (m : Action PgError (CoordinatorState W) A)
      → Follows (Safe v) m
      → Follows (SafeActor v) (send_command m)
  unfolding send_command
  sent m h = record {
    at = λ a. elim (Bool-cases a.is_running) [
      | inl e ↦ rw e (h.at a.state)
      | inr e ↦ rw e ((actor_order world v laws).stays a.state)
    ];
  }

  sent_to_world :
      {A : Type 0} (m : Action PgError W A)
      → Follows (Sound v) m
      → Follows (SafeActor v) (send_command (in_world world m))
  sent_to_world m h = sent (in_world world m) (in_world-Safe world v laws m h)

  archival :
      (id : String) (a : Actor W)
      → (send_command (in_world world (handle_archive_item world id)) a).0 ≡ ok tt
      → IsArchived v id (send_command (in_world world (handle_archive_item world id)) a).1
  unfolding send_command
  archival id a = elim (Bool-cases a.is_running) [
    | inl e ↦ rw e (λ q. (handle_archive_item-Moved world v laws id a.state.world q).archived)
    | inr e ↦ rw e (λ q. cc q)
  ]

  module _ (to_value : StructuredDescription → Value)
      (from_value : Value → Option StructuredDescription) where
    pub handle_of-HandleLaws :
        HandleLaws (handle_of world to_value from_value) (SafeActor v) (IsArchived v)
    unfolding handle_of
    handle_of-HandleLaws = record {
      order = record {
        stays = λ a. (actor_order world v laws).stays a.state;
        joins = λ a b c f g. (actor_order world v laws).joins a.state b.state c.state f g;
      };
      stays_archived = λ a b f id h.
          rw f.grown.1
            (ground (arith, h, any-append (has_id id) (v.archive a.state.world) f.grown.0));
      archives = archival;
      batch_law = sent _ (handle_batch_commit-Safe world v laws);
      snapshot_law = sent_to_world _ (handle_get_snapshot-Sound world v laws);
      update_law = λ id u. sent_to_world _ (handle_update_item-Sound world v laws to_value id u);
      complete_law = λ id r d. sent _ (handle_complete_phase-Safe world v laws id r d);
      worklog_law = λ id title phase outcome summary. sent_to_world _ (
          calls world v laws git (world.write_entry id title phase outcome summary)
            (laws.worklog_law id title phase outcome summary));
      archive_law = λ id. sent_to_world _ (handle_archive_item-Sound world v laws id);
      ingest_law = λ fus origin. sent _ (
          Follows-bind (actor_order world v laws) (reads (λ s. s.prefix)) _
            (record { at = λ s. (actor_order world v laws).stays s })
            (λ prefix.
              in_world-Safe world v laws _
                (handle_ingest_follow_ups-Sound world v laws to_value origin prefix fus)));
      merge_law = λ source target.
          sent_to_world _ (handle_merge_item-Sound world v laws to_value from_value source target);
    }

    -- The scheduler waits for the tasks that still run, and the actor serves what their ends ask for,
    -- with any failures of the store, of git and of threads, and with the shutdown that a fatal one
    -- leads to. Then no item of the store is lost, active ids stay distinct, and the archive only
    -- grows; the items entered as completed are archived; the phases counted, the cap and the target
    -- are as before; and the items in a row that exhausted their retries grow by the failed tasks at
    -- most, so that the circuit breaker trips on failures only.
    pub drain_join_set-Served :
        (show : PgError → String) (config : PhaseGolemConfig)
        (ended : List (Option (String × PhaseExecutionResult))) (running : RunningTasks)
        (p : Progress (Actor W))
        → Drained
            (SafeActor v)
            (IsArchived v)
            (failures ended)
            p
            (drain_join_set show (handle_of world to_value from_value) config ended (running, p)).1
    drain_join_set-Served show config ended running p =
        drain_join_set-Drained (handle_of world to_value from_value) (SafeActor v) (IsArchived v)
          handle_of-HandleLaws show config ended running p
