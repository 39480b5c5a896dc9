-- ===== src/PgItem/Update.antt =====
-- `apply_update` of src/pg_item.rs, the dispatch of every mutation of an item. `Utc::now()` is the
-- argument `now`; the reads of the clock within one mutation are taken at the same tick.
use phase_golem.Prelude.{ℕ, String, not, none, some, if◌then◌else◌, ◌==◌, unwrap_or}
use phase_golem.PgItem.Setters.{
  set_phase, set_phase_pool, set_pipeline_type, set_last_phase_commit, set_blocked_type,
  set_blocked_from_status, set_unblock_context, set_pg_status, apply_assessments,
  set_structured_description,
}
use phase_golem.Types.{
  ItemStatus, StructuredDescription, ItemUpdate, status_eq, is_valid_transition, transition_status,
  clear_phase, unblock, update_assessments, set_description,
}
use phase_golem.PgItem.{Value, Item}
use phase_golem.PgItem.Getters.{pg_status, pg_blocked_from_status}

module _ (now : ℕ) where
  -- The part of `TransitionStatus` that runs when the item leaves Blocked.
  unfoldable pub clear_blocked : Item → Item
  unfolding set_blocked_from_status set_blocked_type set_unblock_context
  clear_blocked item =
      let i1 = set_blocked_from_status now item none in
      let i2 = record i1 { blocked_reason = none } in
      set_unblock_context now (set_blocked_type now i2 none) none

  unfoldable pub apply_transition : Item → ItemStatus → Item
  unfolding set_blocked_from_status clear_blocked set_pg_status
  apply_transition item new_status =
      let current = pg_status item in
      if not (is_valid_transition current new_status)
      then item
      else (let saved =
            if new_status == ItemStatus.blocked
            then set_blocked_from_status now item (some current)
            else item in
          let cleared = if current == ItemStatus.blocked then clear_blocked saved else saved in
          set_pg_status now cleared new_status)

  unfoldable pub apply_set_blocked : Item → String → Item
  unfolding set_blocked_from_status set_pg_status
  apply_set_blocked item reason =
      let current = pg_status item in
      if not (is_valid_transition current ItemStatus.blocked)
      then item
      else record (set_pg_status now (set_blocked_from_status now item (some current))
          ItemStatus.blocked) { blocked_reason = some reason }

  unfoldable pub apply_unblock : Item → Item
  unfolding set_blocked_from_status set_blocked_type set_unblock_context set_pg_status
  apply_unblock item =
      if not (pg_status item == ItemStatus.blocked)
      then item
      else (let restore_to = unwrap_or ItemStatus.new (pg_blocked_from_status item) in
          let i1 = set_blocked_from_status now item none in
          let i2 = record i1 { blocked_reason = none; blocked_from_status = none } in
          let i3 = set_unblock_context now (set_blocked_type now i2 none) none in
          set_pg_status now i3 restore_to)

  -- `serde_json::to_value` at `StructuredDescription` is a parameter.
  module _ (to_value : StructuredDescription → Value) where
    unfoldable pub apply_update : Item → ItemUpdate → Item
    apply_update item (transition_status s) = apply_transition item s
    apply_update item (ItemUpdate.set_phase p) = set_phase now item (some p)
    apply_update item (ItemUpdate.set_phase_pool p) = set_phase_pool now item (some p)
    apply_update item clear_phase = set_phase_pool now (set_phase now item none) none
    apply_update item (ItemUpdate.set_blocked reason) = apply_set_blocked item reason
    apply_update item unblock = apply_unblock item
    apply_update item (update_assessments a) = apply_assessments now item a
    apply_update item (ItemUpdate.set_pipeline_type t) = set_pipeline_type now item (some t)
    apply_update item (ItemUpdate.set_last_phase_commit sha) =
        set_last_phase_commit now item (some sha)
    apply_update item (set_description d) = set_structured_description now to_value item (some d)
