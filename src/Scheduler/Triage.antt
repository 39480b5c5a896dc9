-- ===== src/Scheduler/Triage.antt =====
-- What src/scheduler.rs does with the result of a triage.
use phase_golem.Prelude.{
  String, Bool, true, false, ◌||◌, Option, none, some, List, [], ◌∷◌, if◌then◌else◌, ◌==◌,
  string_eq, find, first, is_empty, is_some, lookup, map, unwrap_or, concat, join,
}
use phase_golem.Prelude.Actions.{Action, ◌>>=◌, ◌>>◌, done, skip, or_fail, attempt}
use phase_golem.Types.{
  ItemStatus, status_eq, ResultCode, small, low, pre, ItemUpdate, transition_status,
  set_description, set_pipeline_type, StructuredDescription, description_is_empty, PhaseResult,
}
use phase_golem.PgItem.{Item}
use phase_golem.PgItem.Getters.{pg_status, size, risk}
use phase_golem.PgError.{PgError}
use phase_golem.Config.{PhaseConfig, PipelineConfig, PhaseGolemConfig}
use phase_golem.Scheduler.Items.{has_id, item_pipeline_type}
use phase_golem.Scheduler.Completion.{
  Progress, ask, write_entry, assess, ingest_follow_ups, with_state, add_follow_ups, add_blocked,
}
use phase_golem.Scheduler.Duplicates.{process_merges}
use phase_golem.Coordinator.Handle.{CoordinatorHandle}

unfoldable pub is_small_low_risk : Item → Bool
is_small_low_risk item = elim (size item) [
  | some small ↦ elim (risk item) [ none ↦ true | some low ↦ true | _ ↦ false ]
  | _ ↦ false
]

abbrev outcome_text : ResultCode → String
outcome_text ResultCode.phase_complete = "Complete"
outcome_text ResultCode.failed = "Failed"
outcome_text ResultCode.blocked = "Blocked"
outcome_text ResultCode.subphase_complete = "Subphase Complete"

abbrev pub pre_phases_of : Option PipelineConfig → List PhaseConfig
pre_phases_of none = []
pre_phases_of (some p) = p.pre_phases

module _ {C : Type 0} (show : PgError → String) (handle : CoordinatorHandle C)
    (config : PhaseGolemConfig) (item_id : String) where
  abbrev pub update : ItemUpdate → Action String (Progress C) (Unit {0})
  update u = ask show handle (handle.update_item item_id u)

  unfoldable pub describe : Option StructuredDescription → Action String (Progress C) (Unit {0})
  unfolding description_is_empty
  describe none = skip
  describe (some d) = if description_is_empty d then skip else update (set_description d)

  abbrev pub invalid_type : String → String
  invalid_type type = concat (
      "Triage assigned invalid pipeline type '"
      ∷ type
      ∷ "'. Available: "
      ∷ join ", " (map (λ p. p.0) config.pipelines)
      ∷ [])

  -- Whether the item goes on after its pipeline type was set; an unknown one blocks it.
  unfoldable pub assign_type : Option String → Action String (Progress C) Bool
  assign_type none = done true
  assign_type (some type) =
      if is_some (lookup type config.pipelines)
      then (update (set_pipeline_type type) >> done true)
      else (update (ItemUpdate.set_blocked (invalid_type type)) >> done false)

  abbrev pub enter_pre : Option PhaseConfig → Action String (Progress C) (Unit {0})
  enter_pre none = skip
  enter_pre (some p) = do
    update (ItemUpdate.set_phase p.name)
    update (ItemUpdate.set_phase_pool pre)

  unfoldable pub route_item : Item → Action String (Progress C) (Unit {0})
  unfolding is_small_low_risk
  route_item item =
      let pre_phases = pre_phases_of (lookup (item_pipeline_type item) config.pipelines) in
      if is_small_low_risk item || is_empty pre_phases
      then (update (transition_status ItemStatus.scoping)
          >> update (transition_status ItemStatus.ready))
      else (update (transition_status ItemStatus.scoping) >> enter_pre (first pre_phases))

  unfoldable pub route_result : PhaseResult → ResultCode → Action String (Progress C) (Unit {0})
  unfolding route_item
  route_result r ResultCode.phase_complete = do
    snap ← ask show handle handle.get_snapshot
    item ←
        or_fail (concat ("Item " ∷ item_id ∷ " not found after triage" ∷ []))
          (find (has_id item_id) snap)
    route_item item
  route_result r ResultCode.blocked =
      update (ItemUpdate.set_blocked (unwrap_or r.summary r.context))
  route_result r _ = skip

  unfoldable pub apply_triage_result : PhaseResult → Action String (Progress C) (Unit {0})
  unfolding assign_type route_result describe
  apply_triage_result r = do
    assess show handle item_id r.updated_assessments
    describe r.description
    goes_on ← assign_type r.pipeline_type
    if goes_on then route_result r r.result else skip

  abbrev pub record_blocked : Option Item → Action String (Progress C) (Unit {0})
  record_blocked none = skip
  record_blocked (some item) =
      if pg_status item == ItemStatus.blocked then with_state (add_blocked item_id) else skip

  unfoldable pub finish_triage : PhaseResult → Action String (Progress C) (Unit {0})
  unfolding apply_triage_result
  finish_triage r = do
    ask show handle (handle.complete_phase item_id r true)
    apply_triage_result r
    snap ← ask show handle handle.get_snapshot
    record_blocked (find (has_id item_id) snap)

  unfoldable pub handle_triage_success :
      List Item → PhaseResult → Action String (Progress C) (Unit {0})
  unfolding write_entry ingest_follow_ups process_merges finish_triage
  handle_triage_success snapshot r = do
    write_entry show handle (find (has_id item_id) snapshot) (λ _. "triage") (outcome_text r.result)
        r.summary
    count ← ingest_follow_ups show handle r
    with_state (add_follow_ups count)
    is_merged ← process_merges show handle item_id r.duplicates
    if is_merged
        then attempt {F = String} (ask show handle (handle.complete_phase item_id r true))
        else finish_triage r
