-- ===== src/PgItem/Blocking.antt =====
-- Blocking and unblocking an item (src/pg_item.rs).
use phase_golem.Prelude.{
  ℕ, String, ◌≡◌, ◌≢◌, true, none, some, arith, is_some, List, [], ◌∷◌, unwrap_or, ap, ◌∙◌,
}
use phase_golem.Types.{
  ItemStatus, StructuredDescription, UpdatedAssessments, ItemUpdate, PhasePool, status_eq,
  is_valid_transition, transition_status, clear_phase, unblock, update_assessments, set_description,
}
use phase_golem.PgItem.{
  Value, Item, x_pg_blocked_from_status, x_pg_blocked_type, x_pg_unblock_context,
}
use phase_golem.PgItem.Getters.{pg_status, pg_blocked_from_status, blocked_type, unblock_context}
use phase_golem.PgItem.Update.{apply_transition, apply_set_blocked, apply_unblock, apply_update}
use phase_golem.PgItem.Setters.{
  set_pg_status, set_phase, set_phase_pool, set_pipeline_type, set_last_phase_commit,
  set_structured_description, apply_assessments, new_from_parts,
}
use phase_golem.PgItem.Lifecycle.{
  apply_updates, pg_status-apply_set_blocked, pg_status-apply_unblock,
}

-- The status that an item is blocked from is the one that it had.
pg_blocked_from_status-apply_set_blocked :
    (now : ℕ) (item : Item) (reason : String)
    → is_valid_transition (pg_status item) ItemStatus.blocked ≡ true
    → pg_blocked_from_status (apply_set_blocked now item reason) ≡ some (pg_status item)
unfolding apply_set_blocked pg_blocked_from_status is_valid_transition set_pg_status
pg_blocked_from_status-apply_set_blocked now item reason h = ground arith

apply_unblock_cleared :
    (now : ℕ) (item : Item)
    → pg_status item ≡ ItemStatus.blocked
    → let after = apply_unblock now item in
      (after.blocked_reason ≡ none)
      × (after.blocked_from_status ≡ none)
      × (pg_blocked_from_status after ≡ none)
      × (blocked_type after ≡ none)
      × (unblock_context after ≡ none)
      × (after.extensions x_pg_blocked_from_status ≡ none)
      × (after.extensions x_pg_blocked_type ≡ none)
      × (after.extensions x_pg_unblock_context ≡ none)
unfolding apply_unblock pg_blocked_from_status blocked_type unblock_context
apply_unblock_cleared now item h = ground arith

module _ (to_value : StructuredDescription → Value) (item : Item) (reason : String)
    (now later : ℕ) where
  -- Blocking an item that is neither done nor blocked stores the reason and the status; unblocking
  -- it then gives that status back, and leaves no trace of the block: not in the native fields, not
  -- under the extension keys of the status blocked from, the kind of block and the unblock context.
  pub unblock-set_blocked :
      pg_status item ≢ ItemStatus.done
      → pg_status item ≢ ItemStatus.blocked
      → let held = apply_update now to_value item (ItemUpdate.set_blocked reason) in
        let freed = apply_update later to_value held unblock in
        (pg_status held ≡ ItemStatus.blocked)
        × (held.blocked_reason ≡ some reason)
        × (pg_status freed ≡ pg_status item)
        × (freed.blocked_reason ≡ none)
        × (freed.blocked_from_status ≡ none)
        × (pg_blocked_from_status freed ≡ none)
        × (blocked_type freed ≡ none)
        × (unblock_context freed ≡ none)
        × (freed.extensions x_pg_blocked_from_status ≡ none)
        × (freed.extensions x_pg_blocked_type ≡ none)
        × (freed.extensions x_pg_unblock_context ≡ none)
  unfolding apply_update
  unblock-set_blocked nd nb =
      let ok = may_block in
      let is_blocked = pg_status-apply_set_blocked now item reason ok in
      let saved = pg_blocked_from_status-apply_set_blocked now item reason ok in
      let held = apply_set_blocked now item reason in
      let cleared = apply_unblock_cleared later held is_blocked in
      (
        is_blocked,
        reason_kept,
        pg_status-apply_unblock later held is_blocked ∙ ap (unwrap_or ItemStatus.new) saved,
        cleared.0,
        cleared.1,
        cleared.2,
        cleared.3,
        cleared.4,
        cleared.5,
        cleared.6,
        cleared.7,
      )
    where
      may_block : is_valid_transition (pg_status item) ItemStatus.blocked ≡ true
      may_block = unfold is_valid_transition in ground arith

      reason_kept : (apply_set_blocked now item reason).blocked_reason ≡ some reason
      reason_kept = unfold apply_set_blocked in ground (arith, may_block)

-- Items that carry a block's data exactly while they are blocked.
pub record IsConsistent (item : Item) : Type 0 where
  pub free :
      pg_status item ≢ ItemStatus.blocked
      → (item.blocked_from_status ≡ none)
        × (item.extensions x_pg_blocked_from_status ≡ none)
        × (item.blocked_reason ≡ none)
  pub held : pg_status item ≡ ItemStatus.blocked → is_some (pg_blocked_from_status item) ≡ true

new_from_parts-IsConsistent :
    (now : ℕ) (id title : String) (s : ItemStatus) (deps tags : List String)
    → s ≢ ItemStatus.blocked
    → IsConsistent (new_from_parts now id title s deps tags)
unfolding new_from_parts pg_status
new_from_parts-IsConsistent now id title s deps tags h = ground arith

apply_transition-IsConsistent :
    (now : ℕ) (item : Item) (s : ItemStatus)
    → IsConsistent item
    → IsConsistent (apply_transition now item s)
unfolding apply_transition pg_status pg_blocked_from_status is_valid_transition
apply_transition-IsConsistent now item s h = ground arith

apply_set_blocked-IsConsistent :
    (now : ℕ) (item : Item) (reason : String)
    → IsConsistent item
    → IsConsistent (apply_set_blocked now item reason)
unfolding apply_set_blocked pg_status pg_blocked_from_status is_valid_transition
apply_set_blocked-IsConsistent now item reason h = ground arith

apply_unblock-IsConsistent :
    (now : ℕ) (item : Item) → IsConsistent item → IsConsistent (apply_unblock now item)
unfolding apply_unblock pg_status pg_blocked_from_status
apply_unblock-IsConsistent now item h = ground arith

apply_assessments-IsConsistent :
    (now : ℕ) (item : Item) (a : UpdatedAssessments)
    → IsConsistent item
    → IsConsistent (apply_assessments now item a)
unfolding apply_assessments pg_status pg_blocked_from_status
apply_assessments-IsConsistent now item a h = ground arith

set_structured_description-IsConsistent :
    (now : ℕ) (to_value : StructuredDescription → Value) (item : Item) (d : StructuredDescription)
    → IsConsistent item
    → IsConsistent (set_structured_description now to_value item (some d))
unfolding set_structured_description pg_status pg_blocked_from_status
set_structured_description-IsConsistent now to_value item d h = record {
  free = h.free;
  held = h.held;
}

pub apply_update-IsConsistent :
    (now : ℕ) (to_value : StructuredDescription → Value) (item : Item) (u : ItemUpdate)
    → IsConsistent item
    → IsConsistent (apply_update now to_value item u)
unfolding apply_update
apply_update-IsConsistent now tv item (transition_status s) h =
    apply_transition-IsConsistent now item s h
apply_update-IsConsistent now tv item (ItemUpdate.set_phase p) h =
    unfold set_phase pg_status pg_blocked_from_status in record { free = h.free; held = h.held }
apply_update-IsConsistent now tv item (ItemUpdate.set_phase_pool PhasePool.pre) h =
    unfold set_phase_pool pg_status pg_blocked_from_status in
    record { free = h.free; held = h.held }
apply_update-IsConsistent now tv item (ItemUpdate.set_phase_pool PhasePool.main) h =
    unfold set_phase_pool pg_status pg_blocked_from_status in
    record { free = h.free; held = h.held }
apply_update-IsConsistent now tv item clear_phase h =
    unfold set_phase set_phase_pool pg_status pg_blocked_from_status in
    record { free = h.free; held = h.held }
apply_update-IsConsistent now tv item (ItemUpdate.set_blocked reason) h =
    apply_set_blocked-IsConsistent now item reason h
apply_update-IsConsistent now tv item unblock h = apply_unblock-IsConsistent now item h
apply_update-IsConsistent now tv item (update_assessments a) h =
    apply_assessments-IsConsistent now item a h
apply_update-IsConsistent now tv item (ItemUpdate.set_pipeline_type t) h =
    unfold set_pipeline_type pg_status pg_blocked_from_status in
    record { free = h.free; held = h.held }
apply_update-IsConsistent now tv item (ItemUpdate.set_last_phase_commit sha) h =
    unfold set_last_phase_commit pg_status pg_blocked_from_status in
    record { free = h.free; held = h.held }
apply_update-IsConsistent now tv item (set_description d) h =
    set_structured_description-IsConsistent now tv item d h

apply_updates-IsConsistent :
    (to_value : StructuredDescription → Value) (item : Item) (us : List (ℕ × ItemUpdate))
    → IsConsistent item
    → IsConsistent (apply_updates to_value item us)
unfolding apply_updates
apply_updates-IsConsistent to_value item [] h = h
apply_updates-IsConsistent to_value item ((now, u) ∷ us) h =
    apply_updates-IsConsistent to_value (apply_update now to_value item u) us
      (apply_update-IsConsistent now to_value item u h)

-- After any updates, an item that was created in a status other than blocked holds the native and
-- the extension record of a block and its reason only while it is blocked, and a blocked one knows
-- the status to go back to.
pub created-IsConsistent :
    (to_value : StructuredDescription → Value) (now : ℕ) (id title : String) (s : ItemStatus)
    (deps tags : List String) (us : List (ℕ × ItemUpdate))
    → s ≢ ItemStatus.blocked
    → IsConsistent (apply_updates to_value (new_from_parts now id title s deps tags) us)
created-IsConsistent to_value now id title s deps tags us h =
    apply_updates-IsConsistent to_value (new_from_parts now id title s deps tags) us
      (new_from_parts-IsConsistent now id title s deps tags h)
