-- ===== src/Coordinator/Edits.antt =====
-- What the handlers of src/coordinator.rs do to the items that they load.
use phase_golem.Prelude.{
  ℕ, String, not, ◌&&◌, Option, none, some, List, [], ◌∷◌, ◌++◌, if◌then◌else◌, ◌==◌, string_eq,
  str_is_empty, any, filter, concat, unwrap_or,
}
use phase_golem.Types.{
  ItemStatus, status_eq, SizeLevel, DimensionLevel, StructuredDescription, FollowUp,
}
use phase_golem.PgItem.{Value, Item}
use phase_golem.PgItem.Getters.{pg_blocked_from_status, structured_description}
use phase_golem.PgItem.Setters.{
  set_blocked_from_status, set_blocked_type, set_unblock_context, set_pg_status,
  set_last_phase_commit, set_origin, set_size, set_risk, set_structured_description, new_from_parts,
}
use phase_golem.Coordinator.Messages.{build_merge_context}

-- `items[idx]` at the first position with the id, changed or removed.
unfoldable pub modify_first : (Item → Item) → String → List Item → List Item
modify_first f id [] = []
modify_first f id (i ∷ items) =
    let rest = modify_first f id items in if i.id == id then f i ∷ items else i ∷ rest

unfoldable pub remove_first : String → List Item → List Item
remove_first id [] = []
remove_first id (i ∷ items) =
    let rest = remove_first id items in if i.id == id then items else i ∷ rest

abbrev with_context : ℕ → Option String → Item → Item
with_context now none item = item
with_context now (some c) item = set_unblock_context now item (some c)

-- What unblocking does to the item itself.
unfoldable pub restore : ℕ → Option String → Item → Item
unfolding set_blocked_from_status set_blocked_type set_unblock_context set_pg_status
    set_last_phase_commit
restore now context item =
    let restore_to = unwrap_or ItemStatus.new (pg_blocked_from_status item) in
    let i1 = set_blocked_from_status now item none in
    let i2 = record i1 { blocked_reason = none; blocked_from_status = none } in
    let i3 = set_unblock_context now (set_blocked_type now i2 none) none in
    let i4 = with_context now context i3 in
    set_last_phase_commit now (set_pg_status now i4 restore_to) none

-- The loop that unites the dependencies.
unfoldable pub union_deps :
    (target_id source_id : String) (source_deps deps : List String) → List String
union_deps target_id source_id [] deps = deps
union_deps target_id source_id (d ∷ ds) deps = union_deps target_id source_id ds (
    if not (d == target_id) && (not (d == source_id) && not (any (λ x. x == d) deps))
    then deps ++ d ∷ []
    else deps)

unfoldable pub strip_dep : String → Item → Item
strip_dep source_id item = record item {
  dependencies = filter (λ d. not (d == source_id)) item.dependencies;
}

abbrev no_description : StructuredDescription
no_description = record {
  context = "";
  problem = "";
  solution = "";
  impact = "";
  sizing_rationale = "";
}

abbrev add_context : String → StructuredDescription → StructuredDescription
add_context text desc = record desc {
  context = if str_is_empty desc.context then text else concat (desc.context ∷ "\n" ∷ text ∷ []);
}

module _ (to_value : StructuredDescription → Value)
    (from_value : Value → Option StructuredDescription) where
  unfoldable pub absorb : ℕ → Item → Item → Item
  unfolding set_structured_description build_merge_context union_deps
  absorb now source target =
      let desc = unwrap_or no_description (structured_description from_value target) in
      let t1 =
        set_structured_description now to_value target
          (some (add_context (build_merge_context from_value source) desc)) in
      record t1 {
        dependencies = union_deps t1.id source.id source.dependencies t1.dependencies;
        updated_at = now;
      }

module _ (to_value : StructuredDescription → Value) where
  abbrev suggested_size : ℕ → Option SizeLevel → Item → Item
  suggested_size now none item = item
  suggested_size now (some z) item = set_size now item (some z)

  abbrev suggested_risk : ℕ → Option DimensionLevel → Item → Item
  suggested_risk now none item = item
  suggested_risk now (some r) item = set_risk now item (some r)

  abbrev suggested_context : ℕ → Option String → Item → Item
  suggested_context now none item = item
  suggested_context now (some c) item =
      set_structured_description now to_value item (some (record no_description { context = c }))

  unfoldable pub follow_up_item : ℕ → (origin id : String) → FollowUp → Item
  unfolding set_origin set_size set_risk set_structured_description
  follow_up_item now origin id fu =
      let i1 = set_origin now (new_from_parts now id fu.title ItemStatus.new [] []) (some origin) in
      suggested_context now fu.context
        (suggested_risk now fu.suggested_risk (suggested_size now fu.suggested_size i1))
