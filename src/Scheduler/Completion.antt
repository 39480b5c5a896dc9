-- ===== src/Scheduler/Completion.antt =====
-- What src/scheduler.rs does with the result of a phase: the handlers of a success, a finished
-- subphase, a failure and a block.
use phase_golem.Prelude.{
  ℕ, ◌+◌, ◌%◌, ◌^◌, String, Bool, true, false, ◌||◌, Option, none, some, List, [], ◌∷◌, ◌++◌,
  if◌then◌else◌, string_eq, find, length, is_empty, lookup, unwrap_or, concat, insert, remove,
  Result, ok, err,
}
use phase_golem.Prelude.Actions.{
  Action, ◌>>=◌, ◌>>◌, done, skip, modify, or_fail, attempt, recast, zoom,
}
use phase_golem.Types.{
  ItemUpdate, UpdatedAssessments, transition_status, update_assessments, PhaseResult,
}
use phase_golem.PgItem.{Item}
use phase_golem.PgItem.Getters.{phase}
use phase_golem.PgError.{PgError}
use phase_golem.Config.{PhaseConfig, PhaseGolemConfig}
use phase_golem.Executor.{is_named, resolve_transition}
use phase_golem.Scheduler.{SchedulerState}
use phase_golem.Scheduler.Items.{has_id, item_pipeline_type}
use phase_golem.Coordinator.Handle.{CoordinatorHandle}

-- What the handlers change: the coordinator's state, the scheduler's, and `previous_summaries`.
pub record Progress (C : Type 0) : Type 0 where
  pub coordinator : C
  pub state : SchedulerState
  pub previous_summaries : String → Option String

-- A sum of `u32`.
abbrev pub add_u32 : ℕ → ℕ → ℕ
add_u32 a b = (a + b) % 2 ^ 32

abbrev pub add_follow_ups : ℕ → SchedulerState → SchedulerState
add_follow_ups n state = record state { follow_ups_created = add_u32 state.follow_ups_created n }

abbrev pub add_completed : String → SchedulerState → SchedulerState
add_completed id state = record state {
  items_completed = state.items_completed ++ id ∷ [];
  consecutive_exhaustions = 0;
}

abbrev pub add_blocked : String → SchedulerState → SchedulerState
add_blocked id state = record state { items_blocked = state.items_blocked ++ id ∷ [] }

abbrev pub one_more_exhausted : SchedulerState → SchedulerState
one_more_exhausted state = record state {
  consecutive_exhaustions = add_u32 state.consecutive_exhaustions 1;
}

abbrev pub none_exhausted : SchedulerState → SchedulerState
none_exhausted state = record state { consecutive_exhaustions = 0 }

module _ {C : Type 0} where
  abbrev pub with_state : (SchedulerState → SchedulerState) → Action String (Progress C) (Unit {0})
  with_state f = modify (λ p. record p { state = f p.state })

  unfoldable pub cleanup_terminal_summary : String → Action String (Progress C) (Unit {0})
  cleanup_terminal_summary id =
      modify (λ p. record p { previous_summaries = remove id p.previous_summaries })

  abbrev pub keep_summary : String → String → Action String (Progress C) (Unit {0})
  keep_summary id summary =
      modify (λ p. record p { previous_summaries = insert id summary p.previous_summaries })

-- How an error of the coordinator becomes text is a parameter, by which `?` converts it.
module _ {C : Type 0} (show : PgError → String) (handle : CoordinatorHandle C) where
  abbrev pub ask : {A : Type 0} → Action PgError C A → Action String (Progress C) A
  ask m = recast show (zoom (λ p. p.coordinator) (λ c p. record p { coordinator = c }) m)

  -- The worklog entry of an item, where there is one: its failure changes nothing.
  unfoldable pub write_entry :
      Option Item
      → (Item → String)
      → (outcome text : String) → Action String (Progress C) (Unit {0})
  write_entry none name outcome text = skip
  write_entry (some item) name outcome text =
      attempt {F = String} (ask (handle.write_worklog item.id item.title (name item) outcome text))

  abbrev pub own_phase : Item → String
  own_phase item = unwrap_or "unknown" (phase item)

  abbrev pub assess : String → Option UpdatedAssessments → Action String (Progress C) (Unit {0})
  assess id none = skip
  assess id (some a) = ask (handle.update_item id (update_assessments a))

  -- An error of the coordinator counts as no new item.
  abbrev count_ids : Result String (List String) → ℕ
  count_ids (ok ids) = length ids % 2 ^ 32
  count_ids (err e) = 0

  unfoldable pub ingest_follow_ups : PhaseResult → Action String (Progress C) ℕ
  ingest_follow_ups r p =
      let out =
        ask (handle.ingest_follow_ups r.follow_ups (concat (r.item_id ∷ "/" ∷ r.phase ∷ []))) p in
      if is_empty r.follow_ups then (ok 0, p) else (ok (count_ids out.0), out.1)

  -- One update of a transition, and whether it ends the item's way through the pipeline.
  unfoldable pub apply_transition_update : String → ItemUpdate → Action String (Progress C) Bool
  apply_transition_update id (transition_status phase_golem.Types.ItemStatus.done) = do
    ask (handle.update_item id (transition_status phase_golem.Types.ItemStatus.done))
    ask (handle.archive_item id)
    with_state (add_completed id)
    done true
  apply_transition_update id (ItemUpdate.set_blocked reason) = do
    ask (handle.update_item id (ItemUpdate.set_blocked reason))
    with_state (add_blocked id)
    done true
  apply_transition_update id u = do ask (handle.update_item id u); done false

  unfoldable pub apply_transition_updates :
      String → (is_terminal : Bool) → List ItemUpdate → Action String (Progress C) Bool
  unfolding apply_transition_update
  apply_transition_updates id is_terminal [] = done is_terminal
  apply_transition_updates id is_terminal (u ∷ us) = do
    ends ← apply_transition_update id u
    apply_transition_updates id (is_terminal || ends) us

  abbrev destructive : Option PhaseConfig → Bool
  destructive none = false
  destructive (some p) = p.is_destructive

  unfoldable pub handle_phase_success :
      PhaseGolemConfig → String → PhaseResult → Action String (Progress C) (Unit {0})
  unfolding ingest_follow_ups write_entry apply_transition_updates cleanup_terminal_summary
  handle_phase_success config id r = do
    assess id r.updated_assessments
    count ← ingest_follow_ups r
    with_state (add_follow_ups count)
    snapshot ← ask handle.get_snapshot
    item ←
        or_fail (concat ("Item " ∷ id ∷ " not found after phase completion" ∷ []))
          (find (has_id id) snapshot)
    pipeline ←
        or_fail (concat ("Pipeline '" ∷ item_pipeline_type item ∷ "' not found" ∷ []))
          (lookup (item_pipeline_type item) config.pipelines)
    write_entry (some item) (λ _. r.phase) "Complete" r.summary
    ask (
        handle.complete_phase id r
          (destructive (find (is_named r.phase) (pipeline.pre_phases ++ pipeline.phases))))
    is_terminal ←
        apply_transition_updates id false (resolve_transition item r pipeline config.guardrails)
    if is_terminal then cleanup_terminal_summary id else keep_summary id r.summary

  unfoldable pub handle_subphase_complete :
      List Item → String → PhaseResult → Action String (Progress C) (Unit {0})
  unfolding ingest_follow_ups write_entry
  handle_subphase_complete snapshot id r = do
    write_entry (find (has_id id) snapshot) (λ _. r.phase) "Subphase Complete" r.summary
    assess id r.updated_assessments
    count ← ingest_follow_ups r
    with_state (add_follow_ups count)
    ask (handle.complete_phase id r true)
    keep_summary id r.summary

  unfoldable pub handle_phase_failed :
      List Item → (item_id reason : String) → Action String (Progress C) (Unit {0})
  unfolding write_entry cleanup_terminal_summary
  handle_phase_failed snapshot id reason = do
    write_entry (find (has_id id) snapshot) own_phase "Failed" reason
    ask (handle.update_item id (ItemUpdate.set_blocked reason))
    with_state (add_blocked id)
    with_state one_more_exhausted
    cleanup_terminal_summary id

  unfoldable pub handle_phase_blocked :
      List Item → (item_id reason : String) → Action String (Progress C) (Unit {0})
  unfolding write_entry cleanup_terminal_summary
  handle_phase_blocked snapshot id reason = do
    write_entry (find (has_id id) snapshot) own_phase "Blocked" reason
    ask (handle.update_item id (ItemUpdate.set_blocked reason))
    with_state (add_blocked id)
    with_state none_exhausted
    cleanup_terminal_summary id
