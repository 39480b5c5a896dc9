-- ===== src/Coordinator/Replies.antt =====
-- The loop of `run_coordinator` in src/coordinator.rs as its senders see it: which commands are
-- answered, and which completed phases wait for a commit.
use phase_golem.Prelude.{
  String, ◌≡◌, refl, ◌∙◌, ap, Bool, true, false, Option, List, [], ◌∷◌, ◌++◌, any, Result, ok, err,
  Result-cases, Bool-cases, arith, inl, inr, if◌then◌else◌,
}
use phase_golem.Prelude.Actions.{Action, ◌>>◌, recast}
use phase_golem.Types.{PhaseResult, StructuredDescription}
use phase_golem.PgItem.{Value}
use phase_golem.PgError.{PgError, git}
use phase_golem.Coordinator.{World, CoordinatorState}
use phase_golem.Coordinator.Messages.{build_batch_commit_message}
use phase_golem.Coordinator.Store.{
  handle_update_item, handle_record_phase_start, handle_archive_item, handle_ingest_follow_ups,
  handle_unblock_item, handle_merge_item,
}
use phase_golem.Coordinator.Commands.{
  spawned, handle_get_snapshot, CoordinatorCommand, get_snapshot, batch_commit, get_head_sha,
  update_item, complete_phase, is_ancestor, record_phase_start, write_worklog, archive_item,
  ingest_follow_ups, unblock_item, merge_item, Answer, commit_staged, stage_artifacts, touch_store,
  in_world, finish_phase, handle_complete_phase, handle_batch_commit, answer, perform,
  is_fatal_result, run_coordinator,
}

-- The phases that wait for a commit after a command and its reply.
abbrev pub owed :
    CoordinatorCommand
    → Result PgError Answer
    → List (String × String × Option String)
    → List (String × String × Option String)
owed (complete_phase id r false) (ok a) pending = pending ++ (id, r.phase, r.commit_summary) ∷ []
owed batch_commit (ok a) pending = []
owed _ _ pending = pending

-- The same after several; a command without a reply was not served.
abbrev pub owed_after :
    List CoordinatorCommand
    → List (Result PgError Answer)
    → List (String × String × Option String)
    → List (String × String × Option String)
owed_after (c ∷ cs) (r ∷ rs) pending = owed_after cs rs (owed c r pending)
owed_after _ _ pending = pending

module _ {W : Type 0} (world : World W) where
  -- What an action on the world leaves of the rest.
  asked :
      {A : Type 0} (c : CoordinatorCommand) (f : A → Answer) (m : Action PgError W A)
      (s : CoordinatorState W)
      → ((r : Result PgError Answer) → owed c r s.pending_batch_phases ≡ s.pending_batch_phases)
      → (answer world f (in_world world m) s).1.pending_batch_phases
        ≡ owed c (answer world f (in_world world m) s).0 s.pending_batch_phases
  asked c f m s h = elim (Result-cases (m s.world).0) [
    | inl (e, q) ↦ rw (q, h (err e)) refl
    | inr (a, q) ↦ rw (q, h (ok (f a))) refl
  ]

  completed :
      (id : String) (r : PhaseResult) (d : Bool) (s : CoordinatorState W)
      → (answer world
          (λ _. Answer.nothing)
          (handle_complete_phase world id r d)
          s).1.pending_batch_phases
        ≡ owed
            (complete_phase id r d)
            (answer world (λ _. Answer.nothing) (handle_complete_phase world id r d) s).0
            s.pending_batch_phases
  unfolding handle_complete_phase finish_phase
  completed id r true s = elim (Result-cases (stage_artifacts world s.world).0) [
    | inl (e, q) ↦ rw q refl
    | inr (a, q) ↦
        rw q (elim (Result-cases (touch_store world (stage_artifacts world s.world).1).0) [
          | inl (e, p) ↦ rw p refl
          | inr (b, p) ↦ rw p refl
        ])
  ]
  completed id r false s = elim (Result-cases (stage_artifacts world s.world).0) [
    | inl (e, q) ↦ rw q refl
    | inr (a, q) ↦
        rw q (elim (Result-cases (touch_store world (stage_artifacts world s.world).1).0) [
          | inl (e, p) ↦ rw p refl
          | inr (b, p) ↦ rw p refl
        ])
  ]

  committed :
      (s : CoordinatorState W)
      → (answer world (λ _. Answer.nothing) (handle_batch_commit world) s).1.pending_batch_phases
        ≡ owed batch_commit
            (answer world (λ _. Answer.nothing) (handle_batch_commit world) s).0
            s.pending_batch_phases
  unfolding handle_batch_commit
  committed s = go s s.pending_batch_phases refl
    where
      go :
          (s : CoordinatorState W) (pending : List (String × String × Option String))
          → s.pending_batch_phases ≡ pending
          → (answer world
              (λ _. Answer.nothing)
              (handle_batch_commit world)
              s).1.pending_batch_phases
            ≡ owed batch_commit
                (answer world (λ _. Answer.nothing) (handle_batch_commit world) s).0
                s.pending_batch_phases
      go s [] h = rw h refl
      go s (p ∷ ps) h =
          rw h
            (elim (Result-cases
              (commit_staged world (build_batch_commit_message (p ∷ ps)) s.world).0) [
                | inl (e, q) ↦ rw q refl
                | inr (a, q) ↦ rw q refl
              ])

  module _ (to_value : StructuredDescription → Value)
      (from_value : Value → Option StructuredDescription) where
    performed :
        (c : CoordinatorCommand) (s : CoordinatorState W)
        → (perform world to_value from_value c s).1.pending_batch_phases
          ≡ owed c (perform world to_value from_value c s).0 s.pending_batch_phases
    unfolding perform
    performed get_snapshot s =
        asked get_snapshot Answer.snapshot (handle_get_snapshot world) s (λ r. refl)
    performed (update_item id u) s =
        asked (update_item id u) (λ _. Answer.nothing) (handle_update_item world to_value id u) s
          (λ r. refl)
    performed (complete_phase id r d) s = completed id r d s
    performed batch_commit s = committed s
    performed get_head_sha s =
        asked get_head_sha Answer.text (spawned world >> recast git world.get_head_sha) s
          (λ r. refl)
    performed (is_ancestor sha) s =
        asked (is_ancestor sha) Answer.flag (spawned world >> recast git (world.is_ancestor sha)) s
          (λ r. refl)
    performed (record_phase_start id sha) s =
        asked (record_phase_start id sha) (λ _. Answer.nothing)
          (handle_record_phase_start world id sha) s (λ r. refl)
    performed (write_worklog id title phase outcome summary) s =
        asked (write_worklog id title phase outcome summary) (λ _. Answer.nothing)
          (recast git (world.write_entry id title phase outcome summary)) s (λ r. refl)
    performed (archive_item id) s =
        asked (archive_item id) (λ _. Answer.nothing) (handle_archive_item world id) s (λ r. refl)
    performed (ingest_follow_ups fus origin) s =
        asked (ingest_follow_ups fus origin) Answer.new_ids
          (handle_ingest_follow_ups world to_value origin s.prefix fus) s (λ r. refl)
    performed (unblock_item id context) s =
        asked (unblock_item id context) (λ _. Answer.nothing) (handle_unblock_item world id context)
          s (λ r. refl)
    performed (merge_item source target) s =
        asked (merge_item source target) (λ _. Answer.nothing)
          (handle_merge_item world to_value from_value source target) s (λ r. refl)

    -- The phases that wait for a commit are a function of the commands and their replies alone: each
    -- phase that was completed without a commit of its own and with success, in that order, since the
    -- last batch commit that succeeded. No failure forgets a phase.
    pub run_coordinator-owed :
        (cs : List CoordinatorCommand) (s : CoordinatorState W)
        → (run_coordinator world to_value from_value cs s).1.pending_batch_phases
          ≡ owed_after cs (run_coordinator world to_value from_value cs s).0 s.pending_batch_phases
    unfolding run_coordinator
    run_coordinator-owed [] s = refl
    run_coordinator-owed (c ∷ cs) s =
        let out = perform world to_value from_value c s in
        let later = run_coordinator-owed cs out.1 in
        elim (Bool-cases (is_fatal_result world to_value from_value out.0)) [
          | inl e ↦ rw e (performed c s ∙ over cs _)
          | inr e ↦ rw e (
              later
              ∙ ap (owed_after cs (run_coordinator world to_value from_value cs out.1).0)
                  (performed c s))
        ]
      where
        over :
            (cs : List CoordinatorCommand) (p : List (String × String × Option String))
            → p ≡ owed_after cs [] p
        over [] p = refl
        over (c ∷ cs) p = refl

    -- A fatal reply is the last one: once a command was answered with a fatal error, no later command is
    -- answered or changes anything; until then, the later commands are served in the state that the
    -- earlier ones left.
    pub run_coordinator-append :
        (cs ds : List CoordinatorCommand) (s : CoordinatorState W)
        → let first = run_coordinator world to_value from_value cs s in
          let second = run_coordinator world to_value from_value ds first.1 in
          run_coordinator world to_value from_value (cs ++ ds) s ≡ (
            if any (is_fatal_result world to_value from_value) first.0
            then first
            else (first.0 ++ second.0, second.1))
    unfolding run_coordinator
    run_coordinator-append [] ds s = refl
    run_coordinator-append (c ∷ cs) ds s =
        let out = perform world to_value from_value c s in
        elim (Bool-cases (is_fatal_result world to_value from_value out.0)) [
          | inl e ↦ rw (e, e) refl
          | inr e ↦ rw (e, e, run_coordinator-append cs ds out.1) (ground arith)
        ]
