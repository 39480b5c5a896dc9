-- ===== src/Coordinator/Handle.antt =====
-- `CoordinatorHandle` of src/coordinator.rs: what the other parts ask of the actor. The record is the
-- interface; `handle_of` fills it with the actor's own handlers, of which none is served after a fatal
-- error.
use phase_golem.Prelude.{String, Bool, false, not, Option, List, if◌then◌else◌, Result, ok, err}
use phase_golem.Prelude.Actions.{Action, ◌>>◌, reads, recast, ◌>>=◌}
use phase_golem.Types.{PhaseResult, StructuredDescription, ItemUpdate, FollowUp}
use phase_golem.PgItem.{Value, Item}
use phase_golem.PgError.{PgError, git, internal_panic, is_fatal}
use phase_golem.Coordinator.{World, CoordinatorState}
use phase_golem.Coordinator.Store.{
  handle_update_item, handle_record_phase_start, handle_archive_item, handle_ingest_follow_ups,
  handle_unblock_item, handle_merge_item,
}
use phase_golem.Coordinator.Commands.{
  spawned, handle_get_snapshot, in_world, handle_complete_phase, handle_batch_commit,
}

pub record CoordinatorHandle (C : Type 0) : Type 0 where
  pub get_snapshot : Action PgError C (List Item)
  pub update_item : (id : String) → ItemUpdate → Action PgError C (Unit {0})
  pub complete_phase :
      (item_id : String) → PhaseResult → (is_destructive : Bool) → Action PgError C (Unit {0})
  pub batch_commit : Action PgError C (Unit {0})
  pub get_head_sha : Action PgError C String
  pub is_ancestor : (sha : String) → Action PgError C Bool
  pub record_phase_start : (item_id commit_sha : String) → Action PgError C (Unit {0})
  pub write_worklog : (id title phase outcome summary : String) → Action PgError C (Unit {0})
  pub archive_item : (item_id : String) → Action PgError C (Unit {0})
  pub ingest_follow_ups : List FollowUp → (origin : String) → Action PgError C (List String)
  pub unblock_item : (item_id : String) → Option String → Action PgError C (Unit {0})
  pub merge_item : (source_id target_id : String) → Action PgError C (Unit {0})

-- The actor's task, with whether it still runs.
pub record Actor (W : Type 0) : Type 0 where
  pub state : CoordinatorState W
  pub is_running : Bool

abbrev pub ends_actor : {A : Type 0} → Result PgError A → Bool
unfolding is_fatal
ends_actor (ok a) = false
ends_actor (err e) = is_fatal e

-- `send_command`: the reply of the actor, or an error where it has shut down.
unfoldable pub send_command :
    {W A : Type 0} → Action PgError (CoordinatorState W) A → Action PgError (Actor W) A
unfolding ends_actor
send_command m a =
    let out = m a.state in
    if a.is_running
    then (out.0, record { state = out.1; is_running = not (ends_actor out.0) })
    else (err (internal_panic "coordinator shut down"), a)

module _ {W : Type 0} (world : World W) (to_value : StructuredDescription → Value)
    (from_value : Value → Option StructuredDescription) where
  unfoldable pub handle_of : CoordinatorHandle (Actor W)
  unfolding send_command
  handle_of = record {
    get_snapshot = send_command (in_world world (handle_get_snapshot world));
    update_item = λ id u. send_command (in_world world (handle_update_item world to_value id u));
    complete_phase = λ id r d. send_command (handle_complete_phase world id r d);
    batch_commit = send_command (handle_batch_commit world);
    get_head_sha = send_command (in_world world (spawned world >> recast git world.get_head_sha));
    is_ancestor =
        λ sha. send_command (in_world world (spawned world >> recast git (world.is_ancestor sha)));
    record_phase_start =
        λ id sha. send_command (in_world world (handle_record_phase_start world id sha));
    write_worklog = λ id title phase outcome summary.
        send_command
          (in_world world (recast git (world.write_entry id title phase outcome summary)));
    archive_item = λ id. send_command (in_world world (handle_archive_item world id));
    ingest_follow_ups = λ fus origin. send_command (
        reads (λ s. s.prefix) >>= λ prefix.
        in_world world (handle_ingest_follow_ups world to_value origin prefix fus));
    unblock_item =
        λ id context. send_command (in_world world (handle_unblock_item world id context));
    merge_item = λ source target.
        send_command (in_world world (handle_merge_item world to_value from_value source target));
  }
