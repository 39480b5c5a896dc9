-- ===== src/PgItem/Lifecycle.antt =====
-- How the mutations of src/pg_item.rs move an item's status.
use phase_golem.Prelude.{
  ℕ, String, ◌≡◌, refl, ◌∙◌, ◌⊎◌, inl, inr, true, false, arith, List, [], ◌∷◌, Bool-cases, ◌==◌,
  unwrap_or,
}
use phase_golem.Types.{
  ItemStatus, StructuredDescription, UpdatedAssessments, ItemUpdate, status_eq, status_beq_iff,
  is_valid_transition, transition_status, clear_phase, unblock, update_assessments, set_description,
  pre, main,
}
use phase_golem.PgItem.{Value, Item}
use phase_golem.PgItem.Getters.{pg_status, pg_blocked_from_status}
use phase_golem.PgItem.Update.{apply_transition, apply_set_blocked, apply_unblock, apply_update}
use phase_golem.PgItem.Setters.{
  set_pg_status, set_phase, set_phase_pool, set_pipeline_type, set_last_phase_commit,
  set_structured_description, apply_assessments,
}

pub pg_status-set_pg_status :
    (now : ℕ) (item : Item) (s : ItemStatus) → pg_status (set_pg_status now item s) ≡ s
unfolding pg_status set_pg_status
pg_status-set_pg_status now item ItemStatus.new = refl
pg_status-set_pg_status now item ItemStatus.scoping = refl
pg_status-set_pg_status now item ItemStatus.ready = refl
pg_status-set_pg_status now item ItemStatus.in_progress = refl
pg_status-set_pg_status now item ItemStatus.done = refl
pg_status-set_pg_status now item ItemStatus.blocked = refl

pg_status-apply_assessments :
    (now : ℕ) (item : Item) (a : UpdatedAssessments)
    → pg_status (apply_assessments now item a) ≡ pg_status item
unfolding pg_status apply_assessments
pg_status-apply_assessments now item a = ground arith

abbrev Moves : ItemStatus → ItemStatus → Type 0
Moves before after = (after ≡ before) ⊎ (is_valid_transition before after ≡ true)

apply_transition-Moves :
    (now : ℕ) (item : Item) (s : ItemStatus)
    → Moves (pg_status item) (pg_status (apply_transition now item s))
unfolding apply_transition
apply_transition-Moves now item s = elim (Bool-cases (is_valid_transition (pg_status item) s)) [
  | inl e ↦ rw (e, pg_status-set_pg_status) (inr e)
  | inr e ↦ rw e (inl refl)
]

pub pg_status-apply_set_blocked :
    (now : ℕ) (item : Item) (reason : String)
    → is_valid_transition (pg_status item) ItemStatus.blocked ≡ true
    → pg_status (apply_set_blocked now item reason) ≡ ItemStatus.blocked
unfolding apply_set_blocked
pg_status-apply_set_blocked now item reason h = rw h (unfold pg_status in refl)

pub apply_set_blocked_skipped :
    (now : ℕ) (item : Item) (reason : String)
    → is_valid_transition (pg_status item) ItemStatus.blocked ≡ false
    → apply_set_blocked now item reason ≡ item
unfolding apply_set_blocked
apply_set_blocked_skipped now item reason h = rw h

apply_set_blocked-Moves :
    (now : ℕ) (item : Item) (reason : String)
    → Moves (pg_status item) (pg_status (apply_set_blocked now item reason))
apply_set_blocked-Moves now item reason =
    elim (Bool-cases (is_valid_transition (pg_status item) ItemStatus.blocked)) [
      | inl e ↦ rw (pg_status-apply_set_blocked now item reason e) (inr e)
      | inr e ↦ rw (apply_set_blocked_skipped now item reason e) (inl refl)
    ]

restored_valid :
    (item : Item)
    → is_valid_transition ItemStatus.blocked
        (unwrap_or ItemStatus.new (pg_blocked_from_status item))
      ≡ true
unfolding pg_blocked_from_status is_valid_transition
restored_valid item = ground arith

pub pg_status-apply_unblock :
    (now : ℕ) (item : Item)
    → pg_status item ≡ ItemStatus.blocked
    → pg_status (apply_unblock now item) ≡ unwrap_or ItemStatus.new (pg_blocked_from_status item)
unfolding apply_unblock
pg_status-apply_unblock now item e = rw (e, pg_status-set_pg_status)

apply_unblock_skipped :
    (now : ℕ) (item : Item)
    → (pg_status item == ItemStatus.blocked) ≡ false
    → apply_unblock now item ≡ item
unfolding apply_unblock
apply_unblock_skipped now item h = rw h

apply_unblock-Moves :
    (now : ℕ) (item : Item) → Moves (pg_status item) (pg_status (apply_unblock now item))
apply_unblock-Moves now item = elim (Bool-cases (pg_status item == ItemStatus.blocked)) [
  | inl e ↦
      let b = (status_beq_iff _ _).0 e in
      rw (pg_status-apply_unblock now item b, b) (inr (restored_valid item))
  | inr e ↦ rw (apply_unblock_skipped now item e) (inl refl)
]

module _ (now : ℕ) (to_value : StructuredDescription → Value) where
  -- Every update leaves an item's status as it was, or moves it along an allowed transition.
  pub apply_update-Moves :
      (item : Item) (u : ItemUpdate)
      → (pg_status (apply_update now to_value item u) ≡ pg_status item)
        ⊎ (is_valid_transition (pg_status item) (pg_status (apply_update now to_value item u))
            ≡ true)
  unfolding apply_update
  apply_update-Moves item (transition_status s) = apply_transition-Moves now item s
  apply_update-Moves item (ItemUpdate.set_phase p) = inl (unfold set_phase pg_status in refl)
  apply_update-Moves item (ItemUpdate.set_phase_pool pre) =
      inl (unfold set_phase_pool pg_status in refl)
  apply_update-Moves item (ItemUpdate.set_phase_pool main) =
      inl (unfold set_phase_pool pg_status in refl)
  apply_update-Moves item clear_phase = inl (unfold set_phase set_phase_pool pg_status in refl)
  apply_update-Moves item (ItemUpdate.set_blocked reason) = apply_set_blocked-Moves now item reason
  apply_update-Moves item unblock = apply_unblock-Moves now item
  apply_update-Moves item (update_assessments a) = inl (pg_status-apply_assessments now item a)
  apply_update-Moves item (ItemUpdate.set_pipeline_type t) =
      inl (unfold set_pipeline_type pg_status in refl)
  apply_update-Moves item (ItemUpdate.set_last_phase_commit sha) =
      inl (unfold set_last_phase_commit pg_status in refl)
  apply_update-Moves item (set_description d) =
      inl (unfold set_structured_description pg_status in refl)

-- Updates, each at the time of its mutation.
unfoldable pub apply_updates :
    (to_value : StructuredDescription → Value) → Item → List (ℕ × ItemUpdate) → Item
apply_updates to_value item [] = item
apply_updates to_value item ((now, u) ∷ us) =
    apply_updates to_value (apply_update now to_value item u) us

-- A done item stays done, whatever updates are applied to it.
pub done_absorbs :
    (to_value : StructuredDescription → Value) (item : Item) (us : List (ℕ × ItemUpdate))
    → pg_status item ≡ ItemStatus.done
    → pg_status (apply_updates to_value item us) ≡ ItemStatus.done
unfolding apply_updates
done_absorbs to_value item [] h = h
done_absorbs to_value item ((now, u) ∷ us) h =
    done_absorbs to_value (apply_update now to_value item u) us
      (elim (apply_update-Moves now to_value item u) [
        | inl e ↦ e ∙ h
        | inr v ↦ unfold is_valid_transition in ground arith
      ])
