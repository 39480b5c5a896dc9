-- ===== src/Coordinator/Handled.antt =====
-- Every handler of src/coordinator.rs that changes the store is sound, however its attempts end.
use phase_golem.Prelude.{
  ℕ, zero, suc, String, ◌≡◌, refl, Option, none, some, List, [], ◌==◌, string_eq, Result, ok, err,
  ltb, is_empty,
}
use phase_golem.Prelude.Actions.{
  Action, fail, recast, modify, skip, Follows-bind, Follows, Follows-seq, Follows-done,
  Follows-fail, Follows-recast, Follows-if,
}
use phase_golem.Types.{status_eq, StructuredDescription, FollowUp, ItemUpdate}
use phase_golem.PgItem.{Value, Item}
use phase_golem.PgItem.Setters.{set_last_phase_commit}
use phase_golem.PgError.{TgError, PgError, internal_panic, is_retryable}
use phase_golem.Coordinator.{World, pause, run_once, decide, attempts, with_store_retry}
use phase_golem.Coordinator.Ids.{id-apply_update}
use phase_golem.Coordinator.Laws.{View, WorldLaws}
use phase_golem.Coordinator.Store.{
  archive_body, handle_record_phase_start, handle_unblock_item, handle_archive_item,
  handle_update_item, handle_ingest_follow_ups, handle_merge_item,
}
use phase_golem.Coordinator.Sound.{
  Sound, same-Sound, order, lift, update_body-Sound, unblock_body-Sound, archive_body-Sound,
  merge_body-Sound,
}
use phase_golem.Coordinator.Ingested.{ingest_body-Sound}

module _ {W : Type 0} (world : World W) (v : View W) (laws : WorldLaws world v) where
  pause-Sound : (n : ℕ) → Follows (Sound v) (pause world n)
  pause-Sound n =
      Follows-if (ltb 0 n) (modify world.sleep) skip
        (record { at = λ s. same-Sound world v laws s (world.sleep s) (laws.sleep_law s) })
        (Follows-done (order world v laws) tt)

  run_once-Sound :
      {A : Type 0} (op : Action TgError W A)
      → Follows (Sound v) op
      → Follows (Sound v) (run_once world op)
  run_once-Sound op h = record { at = h.at }

  decide-Sound :
      {A : Type 0} (again : PgError → Action PgError W A) (r : Result PgError A)
      → ((e : PgError) → Follows (Sound v) (again e))
      → Follows (Sound v) (decide world again r)
  decide-Sound again (ok a) h = Follows-done (order world v laws) a
  decide-Sound again (err e) h =
      Follows-if (is_retryable e) (again e) (fail e) (h e) (Follows-fail (order world v laws) e)

  attempts-Sound :
      {A : Type 0} (op : Action TgError W A) (left n : ℕ) (last : Option PgError)
      → Follows (Sound v) op
      → Follows (Sound v) (attempts world op left n last)
  unfolding attempts
  attempts-Sound op zero n last h = Follows-fail (order world v laws) _
  attempts-Sound op (suc left) n last h =
      Follows-seq (order world v laws) (pause world n) _ (pause-Sound n) (
        Follows-seq (order world v laws) (recast internal_panic world.spawn_blocking) _
          (Follows-recast internal_panic world.spawn_blocking
            (lift world v laws world.spawn_blocking laws.spawn_law))
          (Follows-bind (order world v laws) (run_once world op) _ (run_once-Sound op h) (λ r.
            decide-Sound (λ e. attempts world op left (suc n) (some e)) r
              (λ e. attempts-Sound op left (suc n) (some e) h))))

  pub with_store_retry-Sound :
      {A : Type 0} (op : Action TgError W A)
      → Follows (Sound v) op
      → Follows (Sound v) (with_store_retry world op)
  unfolding with_store_retry
  with_store_retry-Sound op h = attempts-Sound op 3 0 none h

  pub handle_record_phase_start-Sound :
      (id sha : String) → Follows (Sound v) (handle_record_phase_start world id sha)
  unfolding handle_record_phase_start
  handle_record_phase_start-Sound id sha = with_store_retry-Sound _ (
      update_body-Sound world v laws id (λ now i. set_last_phase_commit now i (some sha))
        id-recorded)
    where
      id-recorded : (now : ℕ) (i : Item) → (set_last_phase_commit now i (some sha)).id ≡ i.id
      id-recorded now i = unfold set_last_phase_commit in refl

  pub handle_unblock_item-Sound :
      (id : String) (context : Option String)
      → Follows (Sound v) (handle_unblock_item world id context)
  unfolding handle_unblock_item
  handle_unblock_item-Sound id context =
      with_store_retry-Sound _ (unblock_body-Sound world v laws id context)

  pub handle_archive_item-Sound : (id : String) → Follows (Sound v) (handle_archive_item world id)
  unfolding handle_archive_item
  handle_archive_item-Sound id =
      Follows-bind (order world v laws) (with_store_retry world (archive_body world id)) _
        (with_store_retry-Sound _ (archive_body-Sound world v laws id))
        (λ item.
          Follows-recast _ (world.write_archive_entry item)
            (lift world v laws _ (laws.entry_law item)))

  module _ (to_value : StructuredDescription → Value) where
    pub handle_update_item-Sound :
        (id : String) (u : ItemUpdate) → Follows (Sound v) (handle_update_item world to_value id u)
    unfolding handle_update_item
    handle_update_item-Sound id u =
        with_store_retry-Sound _
          (update_body-Sound world v laws id _ (λ now i. id-apply_update now to_value i u))

    pub handle_ingest_follow_ups-Sound :
        (origin prefix : String) (fus : List FollowUp)
        → Follows (Sound v) (handle_ingest_follow_ups world to_value origin prefix fus)
    unfolding handle_ingest_follow_ups
    handle_ingest_follow_ups-Sound origin prefix fus =
        Follows-if (is_empty fus) _ _ (Follows-done (order world v laws) [])
          (with_store_retry-Sound _ (ingest_body-Sound world v laws to_value origin prefix fus))

  pub handle_merge_item-Sound :
      (to_value : StructuredDescription → Value) (from_value : Value → Option StructuredDescription)
      (source_id target_id : String)
      → Follows (Sound v) (handle_merge_item world to_value from_value source_id target_id)
  unfolding handle_merge_item
  handle_merge_item-Sound to_value from_value source_id target_id =
      Follows-if (source_id == target_id) _ _ (Follows-fail (order world v laws) _) (
        with_store_retry-Sound _
          (merge_body-Sound world v laws to_value from_value source_id target_id))
