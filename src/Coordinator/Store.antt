-- ===== src/Coordinator/Store.antt =====
-- The handlers of src/coordinator.rs that change the store of items.
use phase_golem.Prelude.{
  ℕ, String, not, Option, some, List, [], ◌∷◌, ◌++◌, if◌then◌else◌, ◌==◌, string_eq, find, map,
  is_empty, concat,
}
use phase_golem.Prelude.Actions.{Action, ◌>>=◌, ◌>>◌, done, fail, reads, or_fail, recast}
use phase_golem.Types.{ItemStatus, status_eq, StructuredDescription, ItemUpdate, FollowUp}
use phase_golem.PgItem.{Value, Item}
use phase_golem.PgItem.Getters.{pg_status}
use phase_golem.PgItem.Setters.{set_last_phase_commit}
use phase_golem.PgItem.Update.{apply_update}
use phase_golem.PgError.{TgError, PgError, cycle_detected, git}
use phase_golem.Scheduler.Items.{has_id}
use phase_golem.Coordinator.{World, with_store_retry}
use phase_golem.Coordinator.Edits.{
  modify_first, remove_first, restore, strip_dep, absorb, follow_up_item,
}

module _ {W : Type 0} (world : World W) where
  -- `position` and `ok_or_else`.
  abbrev locate : TgError → String → List Item → Action TgError W Item
  locate e id items = or_fail e (find (has_id id) items)

  -- The closure that loads the items, changes the one with the id, and saves them.
  unfoldable pub update_body : String → (ℕ → Item → Item) → Action TgError W (Unit {0})
  update_body id f = do
    world.lock
    items ← world.load_active
    found ← locate (TgError.item_not_found id) id items
    now ← reads world.now
    world.save_active (modify_first (f now) id items)

  unfoldable pub handle_record_phase_start : String → String → Action PgError W (Unit {0})
  handle_record_phase_start id sha =
      with_store_retry world (update_body id (λ now i. set_last_phase_commit now i (some sha)))

  unfoldable pub archive_body : String → Action TgError W Item
  archive_body id = do
    world.lock
    items ← world.load_active
    item ← locate (TgError.item_not_found id) id items
    world.append_to_archive item
    world.save_active (remove_first id items)
    done item

  abbrev pub worklog_error : String → PgError
  worklog_error e = git (concat ("Worklog write failed: " ∷ e ∷ []))

  unfoldable pub handle_archive_item : String → Action PgError W (Unit {0})
  handle_archive_item id = do
    item ← with_store_retry world (archive_body id)
    recast worklog_error (world.write_archive_entry item)

  unfoldable pub unblock_body : String → Option String → Action TgError W (Unit {0})
  unblock_body id context = do
    world.lock
    items ← world.load_active
    item ← locate (TgError.item_not_found id) id items
    now ← reads world.now
    if not (pg_status item == ItemStatus.blocked)
        then fail TgError.invalid_transition
        else world.save_active (modify_first (restore now context) id items)

  unfoldable pub handle_unblock_item : String → Option String → Action PgError W (Unit {0})
  handle_unblock_item id context = with_store_retry world (unblock_body id context)

  module _ (to_value : StructuredDescription → Value) where
    unfoldable pub handle_update_item : String → ItemUpdate → Action PgError W (Unit {0})
    handle_update_item id u =
        with_store_retry world (update_body id (λ now i. apply_update now to_value i u))

    -- The loop over the follow-ups, with the ids known, the items and the new ids so far.
    unfoldable pub ingest_loop :
        (origin prefix : String) (known : List String) (items : List Item) (new_ids : List String)
        → List FollowUp
        → Action TgError W (List Item × List String)
    ingest_loop origin prefix known items new_ids [] = done (items, new_ids)
    ingest_loop origin prefix known items new_ids (fu ∷ fus) = do
      id ← world.generate_id_with_prefix known prefix
      now ← reads world.now
      ingest_loop origin prefix (id ∷ known)
          (items ++ follow_up_item to_value now origin id fu ∷ []) (new_ids ++ id ∷ []) fus

    unfoldable pub ingest_body :
        (origin prefix : String) → List FollowUp → Action TgError W (List String)
    ingest_body origin prefix fus = do
      world.lock
      items ← world.load_active
      known ← world.all_known_ids
      grown ← ingest_loop origin prefix known items [] fus
      world.save_active grown.0
      done grown.1

    unfoldable pub handle_ingest_follow_ups :
        (origin prefix : String) → List FollowUp → Action PgError W (List String)
    handle_ingest_follow_ups origin prefix fus =
        if is_empty fus then done [] else with_store_retry world (ingest_body origin prefix fus)

  module _ (to_value : StructuredDescription → Value)
      (from_value : Value → Option StructuredDescription) where
    abbrev merged : ℕ → Item → String → List Item → List Item
    merged now source target_id items = map (strip_dep source.id) (
        modify_first (absorb to_value from_value now source) target_id
          (remove_first source.id items))

    abbrev source_missing : String → TgError
    source_missing id = TgError.item_not_found (concat ("Source item " ∷ id ∷ " not found" ∷ []))

    abbrev target_missing : String → TgError
    target_missing id = TgError.item_not_found (concat ("Target item " ∷ id ∷ " not found" ∷ []))

    unfoldable pub merge_body : String → String → Action TgError W (Unit {0})
    merge_body source_id target_id = do
      world.lock
      items ← world.load_active
      source ← locate (source_missing source_id) source_id items
      target ← locate (target_missing target_id) target_id items
      now ← reads world.now
      world.append_to_archive source
      world.save_active (merged now source target_id items)

    abbrev self_merge : String → PgError
    self_merge id = cycle_detected (concat ("Cannot merge item " ∷ id ∷ " into itself" ∷ []))

    unfoldable pub handle_merge_item : String → String → Action PgError W (Unit {0})
    handle_merge_item source_id target_id =
        if source_id == target_id
        then fail (self_merge source_id)
        else with_store_retry world (merge_body source_id target_id)
