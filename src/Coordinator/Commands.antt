-- ===== src/Coordinator/Commands.antt =====
-- The commands of src/coordinator.rs and the loop of `run_coordinator` that serves them. A command's
-- answer goes to its sender; that a sender is gone changes nothing.
use phase_golem.Prelude.{
  String, Bool, true, false, Option, List, [], ◌∷◌, ◌++◌, if◌then◌else◌, is_empty, map, concat,
  Result, ok, err,
}
use phase_golem.Prelude.Actions.{
  Action, ◌>>=◌, ◌>>◌, done, skip, modify, reads, attempt, recast, zoom,
}
use phase_golem.Types.{PhaseResult, StructuredDescription, ItemUpdate, FollowUp}
use phase_golem.PgItem.{Value, Item}
use phase_golem.PgError.{TgError, PgError, git, internal_panic, is_fatal}
use phase_golem.Coordinator.{World, CoordinatorState, StatusEntry, with_store_retry}
use phase_golem.Coordinator.Messages.{
  has_staged_changes, build_phase_commit_message, build_batch_commit_message,
}
use phase_golem.Coordinator.Store.{
  handle_update_item, handle_record_phase_start, handle_archive_item, handle_ingest_follow_ups,
  handle_unblock_item, handle_merge_item,
}

pub data CoordinatorCommand : Type 0 where
  get_snapshot batch_commit get_head_sha : CoordinatorCommand
  update_item : (id : String) → ItemUpdate → CoordinatorCommand
  complete_phase : (item_id : String) → PhaseResult → (is_destructive : Bool) → CoordinatorCommand
  is_ancestor : (sha : String) → CoordinatorCommand
  record_phase_start : (item_id commit_sha : String) → CoordinatorCommand
  write_worklog : (id title phase outcome summary : String) → CoordinatorCommand
  archive_item : (item_id : String) → CoordinatorCommand
  ingest_follow_ups : List FollowUp → (origin : String) → CoordinatorCommand
  unblock_item : (item_id : String) → Option String → CoordinatorCommand
  merge_item : (source_id target_id : String) → CoordinatorCommand

-- What a reply carries.
pub data Answer : Type 0 where
  nothing : Answer
  snapshot : List Item → Answer
  text : String → Answer
  flag : Bool → Answer
  new_ids : List String → Answer

module _ {W : Type 0} (world : World W) where
  abbrev pub spawned : Action PgError W (Unit {0})
  spawned = recast internal_panic world.spawn_blocking

  abbrev pub failed_step : String → String → PgError
  failed_step step e = git (concat (step ∷ " failed: " ∷ e ∷ []))

  abbrev pub handle_get_snapshot : Action PgError W (List Item)
  handle_get_snapshot = do spawned; recast phase_golem.PgError.from_tg world.load_active

  abbrev pub stage_dirty : List String → Action PgError W (Unit {0})
  stage_dirty paths = if is_empty paths then skip else recast git (world.stage_paths paths)

  -- Step 1 of `CompletePhase`: what the agent left in the tree is staged.
  unfoldable pub stage_artifacts : Action PgError W (Unit {0})
  stage_artifacts = do
    spawned
    status ← recast git world.get_status
    stage_dirty (map (λ e. world.in_root e.path) status)

  abbrev pub resave : Action TgError W (Unit {0})
  resave = do world.lock; items ← world.load_active; world.save_active items

  -- Step 2.
  unfoldable pub touch_store : Action PgError W (Unit {0})
  unfolding with_store_retry
  touch_store = with_store_retry world resave

  abbrev pub commit_if_staged : String → List StatusEntry → Action PgError W (Unit {0})
  commit_if_staged message status =
      if has_staged_changes status
      then recast (failed_step "commit") (world.commit message)
      else skip

  -- The items' file is staged, and what is staged is committed.
  unfoldable pub commit_staged : String → Action PgError W (Unit {0})
  commit_staged message = do
    spawned
    recast (failed_step "stage_self") world.stage_self
    status ← recast git world.get_status
    commit_if_staged message status

  unfoldable pub stage_store : Action PgError W (Unit {0})
  stage_store = do spawned; recast (failed_step "stage_self") world.stage_self

  abbrev pub in_world : {A : Type 0} → Action PgError W A → Action PgError (CoordinatorState W) A
  in_world m = zoom (λ s. s.world) (λ w s. record s { world = w }) m

  abbrev pub push_pending : String → PhaseResult → CoordinatorState W → CoordinatorState W
  push_pending id r s = record s {
    pending_batch_phases = s.pending_batch_phases ++ (id, r.phase, r.commit_summary) ∷ [];
  }

  -- Step 3: a failed commit is only logged.
  unfoldable pub finish_phase :
      String → PhaseResult → Bool → Action PgError (CoordinatorState W) (Unit {0})
  unfolding build_phase_commit_message commit_staged stage_store
  finish_phase id r true =
      attempt (in_world (commit_staged (build_phase_commit_message id r.phase r.commit_summary)))
  finish_phase id r false = do
    attempt {F = PgError} (in_world stage_store)
    modify (push_pending id r)

  unfoldable pub handle_complete_phase :
      String → PhaseResult → Bool → Action PgError (CoordinatorState W) (Unit {0})
  unfolding finish_phase stage_artifacts touch_store
  handle_complete_phase id r is_destructive = do
    in_world stage_artifacts
    in_world touch_store
    finish_phase id r is_destructive

  abbrev pub clear_pending : CoordinatorState W → CoordinatorState W
  clear_pending s = record s { pending_batch_phases = [] }

  -- The phases stay pending where the commit fails.
  unfoldable pub handle_batch_commit : Action PgError (CoordinatorState W) (Unit {0})
  unfolding commit_staged build_batch_commit_message
  handle_batch_commit = do
    pending ← reads (λ s. s.pending_batch_phases)
    if is_empty pending
        then skip
        else (in_world (commit_staged (build_batch_commit_message pending)) >> modify clear_pending)

  abbrev pub answer : {A S : Type 0} → (A → Answer) → Action PgError S A → Action PgError S Answer
  answer f m = m >>= λ a. done (f a)

  module _ (to_value : StructuredDescription → Value)
      (from_value : Value → Option StructuredDescription) where
    unfoldable pub perform : CoordinatorCommand → Action PgError (CoordinatorState W) Answer
    perform get_snapshot = answer snapshot (in_world handle_get_snapshot)
    perform (update_item id u) =
        answer (λ _. nothing) (in_world (handle_update_item world to_value id u))
    perform (complete_phase id r d) = answer (λ _. nothing) (handle_complete_phase id r d)
    perform batch_commit = answer (λ _. nothing) handle_batch_commit
    perform get_head_sha = answer text (in_world (spawned >> recast git world.get_head_sha))
    perform (is_ancestor sha) =
        answer flag (in_world (spawned >> recast git (world.is_ancestor sha)))
    perform (record_phase_start id sha) =
        answer (λ _. nothing) (in_world (handle_record_phase_start world id sha))
    perform (write_worklog id title phase outcome summary) =
        answer (λ _. nothing)
          (in_world (recast git (world.write_entry id title phase outcome summary)))
    perform (archive_item id) = answer (λ _. nothing) (in_world (handle_archive_item world id))
    perform (ingest_follow_ups fus origin) = reads (λ s. s.prefix) >>= λ prefix.
        answer new_ids (in_world (handle_ingest_follow_ups world to_value origin prefix fus))
    perform (unblock_item id context) =
        answer (λ _. nothing) (in_world (handle_unblock_item world id context))
    perform (merge_item source target) =
        answer (λ _. nothing) (in_world (handle_merge_item world to_value from_value source target))

    abbrev pub is_fatal_result : Result PgError Answer → Bool
    unfolding is_fatal
    is_fatal_result (ok a) = false
    is_fatal_result (err e) = is_fatal e

    -- The loop of `run_coordinator`, with the replies it sends: a fatal error ends it.
    unfoldable pub run_coordinator :
        List CoordinatorCommand
        → CoordinatorState W
        → List (Result PgError Answer) × CoordinatorState W
    unfolding perform is_fatal_result
    run_coordinator [] s = ([], s)
    run_coordinator (c ∷ cs) s =
        let r = perform c s in
        let rest = run_coordinator cs r.1 in
        if is_fatal_result r.0 then (r.0 ∷ [], r.1) else (r.0 ∷ rest.0, rest.1)
