-- ===== src/Coordinator/Laws.antt =====
-- What src/coordinator.rs relies on in the code it calls: loading gives the active items, saving
-- replaces them or fails, appending adds to the archive or fails, new ids are new, and no other call
-- touches the items.
use phase_golem.Prelude.{
  String, ◌≡◌, ◌⊎◌, true, false, List, [], ◌∷◌, ◌++◌, any, ◌==◌, string_eq, ok, err,
}
use phase_golem.Prelude.Actions.{Follows}
use phase_golem.PgItem.{Item}
use phase_golem.PgError.{TgError}
use phase_golem.Coordinator.{World}
use phase_golem.Coordinator.Ids.{has}

-- The items in the store of a world.
pub record View (W : Type 0) : Type 0 where
  pub active : W → List Item
  pub archive : W → List Item

abbrev pub Same : {W : Type 0} → View W → W → W → Type 0
Same v a b = (v.active b ≡ v.active a) × (v.archive b ≡ v.archive a)

pub record WorldLaws {W : Type 0} (world : World W) (v : View W) : Type 0 where
  pub sleep_law : (s : W) → Same v s (world.sleep s)
  pub spawn_law : Follows (Same v) world.spawn_blocking
  pub lock_law : Follows (Same v) world.lock
  pub load_law : Follows (Same v) world.load_active
  pub load_reads : (s : W) (xs : List Item) → (world.load_active s).0 ≡ ok xs → xs ≡ v.active s
  pub known_law : Follows (Same v) world.all_known_ids
  pub known_all :
      (s : W) (ids : List String) (id : String)
      → (world.all_known_ids s).0 ≡ ok ids
      → has id (v.active s) ≡ true
      → any (λ x. x == id) ids ≡ true
  pub generate_law :
      (known : List String) (p : String) → Follows (Same v) (world.generate_id_with_prefix known p)
  pub generate_fresh :
      (s : W) (known : List String) (p id : String)
      → (world.generate_id_with_prefix known p s).0 ≡ ok id
      → any (λ x. x == id) known ≡ false
  pub append_law :
      (item : Item) (s : W)
      → (((world.append_to_archive item s).0 ≡ ok tt)
          × (v.active (world.append_to_archive item s).1 ≡ v.active s)
          × (v.archive (world.append_to_archive item s).1 ≡ v.archive s ++ item ∷ []))
        ⊎ ((e : TgError) × ((world.append_to_archive item s).0 ≡ err e)
            × Same v s (world.append_to_archive item s).1)
  pub save_law :
      (items : List Item) (s : W)
      → (((world.save_active items s).0 ≡ ok tt)
          × (v.active (world.save_active items s).1 ≡ items)
          × (v.archive (world.save_active items s).1 ≡ v.archive s))
        ⊎ ((e : TgError) × ((world.save_active items s).0 ≡ err e)
            × Same v s (world.save_active items s).1)
  pub entry_law : (item : Item) → Follows (Same v) (world.write_archive_entry item)
  pub worklog_law :
      (id title phase outcome summary : String)
      → Follows (Same v) (world.write_entry id title phase outcome summary)
  pub status_law : Follows (Same v) world.get_status
  pub stage_law : (paths : List String) → Follows (Same v) (world.stage_paths paths)
  pub stage_self_law : Follows (Same v) world.stage_self
  pub commit_law : (message : String) → Follows (Same v) (world.commit message)
  pub head_law : Follows (Same v) world.get_head_sha
  pub ancestor_law : (sha : String) → Follows (Same v) (world.is_ancestor sha)
