-- ===== src/Coordinator/Served.antt =====
-- Every command of src/coordinator.rs, and so every run of its loop, is sound for the store of items.
use phase_golem.Prelude.{
  String, ◌≡◌, refl, ap, Bool, true, false, Option, List, [], ◌∷◌, is_empty, Bool-cases, inl, inr,
}
use phase_golem.Prelude.Actions.{
  Action, skip, modify, reads, attempt, recast, Follows, IsOrder, Follows-done, Follows-bind,
  Follows-seq, Follows-recast, Follows-if, Follows-attempt,
}
use phase_golem.Types.{PhaseResult, StructuredDescription}
use phase_golem.PgItem.{Value}
use phase_golem.PgError.{PgError, git, internal_panic}
use phase_golem.Coordinator.{World, CoordinatorState, StatusEntry}
use phase_golem.Coordinator.Messages.{has_staged_changes, build_batch_commit_message}
use phase_golem.Coordinator.Laws.{View, Same, WorldLaws}
use phase_golem.Coordinator.Sound.{Sound, same-Sound, order, lift, loaded, saved}
use phase_golem.Coordinator.Handled.{
  with_store_retry-Sound, handle_record_phase_start-Sound, handle_unblock_item-Sound,
  handle_archive_item-Sound, handle_update_item-Sound, handle_ingest_follow_ups-Sound,
  handle_merge_item-Sound,
}
use phase_golem.Coordinator.Commands.{
  CoordinatorCommand, get_snapshot, batch_commit, get_head_sha, update_item, complete_phase,
  is_ancestor, record_phase_start, write_worklog, archive_item, ingest_follow_ups, unblock_item,
  merge_item, Answer, spawned, failed_step, handle_get_snapshot, stage_dirty, stage_artifacts,
  resave, touch_store, commit_if_staged, commit_staged, stage_store, in_world, push_pending,
  finish_phase, handle_complete_phase, clear_pending, handle_batch_commit, answer, perform,
  is_fatal_result, run_coordinator,
}

-- The same for the actor's own state.
abbrev pub Safe : {W : Type 0} → View W → CoordinatorState W → CoordinatorState W → Type 0
Safe v a b = Sound v a.world b.world

module _ {W : Type 0} (world : World W) (v : View W) (laws : WorldLaws world v) where
  o : IsOrder (Sound v)
  o = order world v laws

  pub actor_order : IsOrder (Safe v)
  actor_order = record {
    stays = λ s. o.stays s.world;
    joins = λ a b c f g. o.joins a.world b.world c.world f g;
  }

  pub in_world-Safe :
      {A : Type 0} (m : Action PgError W A)
      → Follows (Sound v) m
      → Follows (Safe v) (in_world world m)
  in_world-Safe m h = record { at = λ s. h.at s.world }

  pub calls :
      {E F A : Type 0} (f : E → F) (m : Action E W A)
      → Follows (Same v) m
      → Follows (Sound v) (recast f m)
  calls f m h = Follows-recast f m (lift world v laws m h)

  pub spawned-Sound : Follows (Sound v) (spawned world)
  spawned-Sound = calls internal_panic world.spawn_blocking laws.spawn_law

  pub handle_get_snapshot-Sound : Follows (Sound v) (handle_get_snapshot world)
  handle_get_snapshot-Sound =
      Follows-seq o (spawned world) _ spawned-Sound (calls _ world.load_active laws.load_law)

  stage_dirty-Sound : (paths : List String) → Follows (Sound v) (stage_dirty world paths)
  stage_dirty-Sound paths =
      Follows-if (is_empty paths) skip _ (Follows-done o tt)
        (calls git (world.stage_paths paths) (laws.stage_law paths))

  stage_artifacts-Sound : Follows (Sound v) (stage_artifacts world)
  unfolding stage_artifacts
  stage_artifacts-Sound = Follows-seq o (spawned world) _ spawned-Sound (
      Follows-bind o (recast git world.get_status) _ (calls git world.get_status laws.status_law)
        (λ status. stage_dirty-Sound _))

  touch_store-Sound : Follows (Sound v) (touch_store world)
  unfolding touch_store
  touch_store-Sound = with_store_retry-Sound world v laws (resave world) (
      loaded world v laws world.save_active
        (λ s. saved world v laws (v.active s) s (λ id h. rw h refl) (λ d. d)))

  commit_if_staged-Sound :
      (message : String) (status : List StatusEntry)
      → Follows (Sound v) (commit_if_staged world message status)
  commit_if_staged-Sound message status =
      Follows-if (has_staged_changes status) _ skip
        (calls (failed_step world "commit") (world.commit message) (laws.commit_law message))
        (Follows-done o tt)

  commit_staged-Sound : (message : String) → Follows (Sound v) (commit_staged world message)
  unfolding commit_staged
  commit_staged-Sound message = Follows-seq o (spawned world) _ spawned-Sound (
      Follows-seq o (recast (failed_step world "stage_self") world.stage_self) _
        (calls (failed_step world "stage_self") world.stage_self laws.stage_self_law)
        (Follows-bind o (recast git world.get_status) _ (calls git world.get_status laws.status_law)
          (λ status. commit_if_staged-Sound message status)))

  stage_store-Sound : Follows (Sound v) (stage_store world)
  unfolding stage_store
  stage_store-Sound =
      Follows-seq o (spawned world) _ spawned-Sound
        (calls (failed_step world "stage_self") world.stage_self laws.stage_self_law)

  changes :
      (f : CoordinatorState W → CoordinatorState W)
      → ((s : CoordinatorState W) → (f s).world ≡ s.world)
      → Follows (Safe v) (modify {E = PgError} f)
  changes f h = record {
    at = λ s. same-Sound world v laws s.world (f s).world (ap v.active (h s), ap v.archive (h s));
  }

  finish_phase-Safe :
      (id : String) (r : PhaseResult) (d : Bool) → Follows (Safe v) (finish_phase world id r d)
  unfolding finish_phase
  finish_phase-Safe id r true = Follows-attempt _ (in_world-Safe _ (commit_staged-Sound _))
  finish_phase-Safe id r false =
      Follows-seq actor_order (attempt (in_world world (stage_store world))) _
        (Follows-attempt _ (in_world-Safe _ stage_store-Sound))
        (changes (push_pending world id r) (λ s. refl))

  pub handle_complete_phase-Safe :
      (id : String) (r : PhaseResult) (d : Bool)
      → Follows (Safe v) (handle_complete_phase world id r d)
  unfolding handle_complete_phase
  handle_complete_phase-Safe id r d =
      Follows-seq actor_order (in_world world (stage_artifacts world)) _
        (in_world-Safe _ stage_artifacts-Sound)
        (Follows-seq actor_order (in_world world (touch_store world)) _
          (in_world-Safe _ touch_store-Sound) (finish_phase-Safe id r d))

  pub handle_batch_commit-Safe : Follows (Safe v) (handle_batch_commit world)
  unfolding handle_batch_commit
  handle_batch_commit-Safe =
      Follows-bind actor_order (reads (λ s. s.pending_batch_phases)) _
        (record { at = λ s. o.stays s.world })
        (λ pending.
          Follows-if (is_empty pending) skip _ (record { at = λ s. o.stays s.world })
            (Follows-seq actor_order
              (in_world world (commit_staged world (build_batch_commit_message pending))) _
              (in_world-Safe _ (commit_staged-Sound _))
              (changes (clear_pending world) (λ s. refl))))

  answer-Safe :
      {A : Type 0} (f : A → Answer) (m : Action PgError (CoordinatorState W) A)
      → Follows (Safe v) m
      → Follows (Safe v) (answer world f m)
  answer-Safe f m h = Follows-bind actor_order m _ h (λ a. Follows-done actor_order (f a))

  module _ (to_value : StructuredDescription → Value)
      (from_value : Value → Option StructuredDescription) where
    perform-Safe : (c : CoordinatorCommand) → Follows (Safe v) (perform world to_value from_value c)
    unfolding perform
    perform-Safe get_snapshot = answer-Safe _ _ (in_world-Safe _ handle_get_snapshot-Sound)
    perform-Safe (update_item id u) =
        answer-Safe _ _ (in_world-Safe _ (handle_update_item-Sound world v laws to_value id u))
    perform-Safe (complete_phase id r d) = answer-Safe _ _ (handle_complete_phase-Safe id r d)
    perform-Safe batch_commit = answer-Safe _ _ handle_batch_commit-Safe
    perform-Safe get_head_sha = answer-Safe _ _ (
        in_world-Safe _ (
          Follows-seq o (spawned world) _ spawned-Sound
            (calls git world.get_head_sha laws.head_law)))
    perform-Safe (is_ancestor sha) = answer-Safe _ _ (
        in_world-Safe _ (
          Follows-seq o (spawned world) _ spawned-Sound
            (calls git (world.is_ancestor sha) (laws.ancestor_law sha))))
    perform-Safe (record_phase_start id sha) =
        answer-Safe _ _ (in_world-Safe _ (handle_record_phase_start-Sound world v laws id sha))
    perform-Safe (write_worklog id title phase outcome summary) = answer-Safe _ _ (
        in_world-Safe _ (
          calls git (world.write_entry id title phase outcome summary)
            (laws.worklog_law id title phase outcome summary)))
    perform-Safe (archive_item id) =
        answer-Safe _ _ (in_world-Safe _ (handle_archive_item-Sound world v laws id))
    perform-Safe (ingest_follow_ups fus origin) =
        Follows-bind actor_order (reads (λ s. s.prefix)) _ (record { at = λ s. o.stays s.world })
          (λ prefix. answer-Safe _ _ (
            in_world-Safe _
              (handle_ingest_follow_ups-Sound world v laws to_value origin prefix fus)))
    perform-Safe (unblock_item id context) =
        answer-Safe _ _ (in_world-Safe _ (handle_unblock_item-Sound world v laws id context))
    perform-Safe (merge_item source target) =
        answer-Safe _ _
          (in_world-Safe _ (handle_merge_item-Sound world v laws to_value from_value source target))

    -- Whatever commands the actor serves, and wherever the store, git or a thread fails on the way: an
    -- item that is active or archived before the run is so after it, active items with distinct ids
    -- still have distinct ids, and the archive has only grown at its end.
    pub run_coordinator-Safe :
        (cs : List CoordinatorCommand) (s : CoordinatorState W)
        → Safe v s (run_coordinator world to_value from_value cs s).1
    unfolding run_coordinator
    run_coordinator-Safe [] s = o.stays s.world
    run_coordinator-Safe (c ∷ cs) s =
        let first = (perform-Safe c).at s in
        let later = run_coordinator-Safe cs (perform world to_value from_value c s).1 in
        elim (Bool-cases
          (is_fatal_result world to_value from_value (perform world to_value from_value c s).0)) [
            | inl e ↦ rw e first
            | inr e ↦ rw e (o.joins _ _ _ first later)
          ]
