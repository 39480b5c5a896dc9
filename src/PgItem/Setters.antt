-- ===== src/PgItem/Setters.antt =====
-- The setters of src/pg_item.rs. `Utc::now()` is the argument `now`; the reads of the clock within one
-- mutation are taken at the same tick.
use phase_golem.Prelude.{
  ℕ, String, Bool, true, Option, none, some, List, if◌then◌else◌, insert, remove, str_is_empty,
}
use phase_golem.Types.{
  ItemStatus, BlockType, SizeLevel, DimensionLevel, PhasePool, StructuredDescription,
  UpdatedAssessments, clarification, decision, small, large, low, high, pre, main, status_eq,
}
use phase_golem.PgItem.{
  Status, todo, doing, Value, string, bool, Extensions, Item, x_pg_status, x_pg_phase,
  x_pg_phase_pool, x_pg_size, x_pg_complexity, x_pg_risk, x_pg_impact, x_pg_requires_human_review,
  x_pg_pipeline_type, x_pg_origin, x_pg_blocked_type, x_pg_blocked_from_status,
  x_pg_unblock_context, x_pg_last_phase_commit, x_pg_description,
}

-- `item.extensions.insert(key, value)` or `.remove(key)`.
abbrev set_ext : String → Option Value → Extensions → Extensions
set_ext key (some v) m = insert key v m
set_ext key none m = remove key m

abbrev text_value : Option String → Option Value
text_value none = none
text_value (some s) = some (string s)

abbrev native_status : ItemStatus → Status
native_status ItemStatus.new = todo
native_status ItemStatus.scoping = todo
native_status ItemStatus.ready = todo
native_status ItemStatus.in_progress = doing
native_status ItemStatus.done = Status.done
native_status ItemStatus.blocked = Status.blocked

abbrev sub_status : ItemStatus → Option Value
sub_status ItemStatus.new = some (string "new")
sub_status ItemStatus.scoping = some (string "scoping")
sub_status ItemStatus.ready = some (string "ready")
sub_status ItemStatus.in_progress = none
sub_status ItemStatus.done = none
sub_status ItemStatus.blocked = none

abbrev pool_text : Option PhasePool → Option String
pool_text none = none
pool_text (some pre) = some "pre"
pool_text (some main) = some "main"

abbrev size_text : Option SizeLevel → Option String
size_text none = none
size_text (some small) = some "small"
size_text (some SizeLevel.medium) = some "medium"
size_text (some large) = some "large"

abbrev dimension_text : Option DimensionLevel → Option String
dimension_text none = none
dimension_text (some low) = some "low"
dimension_text (some DimensionLevel.medium) = some "medium"
dimension_text (some high) = some "high"

abbrev block_type_text : Option BlockType → Option String
block_type_text none = none
block_type_text (some clarification) = some "clarification"
block_type_text (some decision) = some "decision"

abbrev blocked_from_text : Option ItemStatus → Option String
blocked_from_text none = none
blocked_from_text (some ItemStatus.new) = some "new"
blocked_from_text (some ItemStatus.scoping) = some "scoping"
blocked_from_text (some ItemStatus.ready) = some "ready"
blocked_from_text (some ItemStatus.in_progress) = some "in_progress"
blocked_from_text (some ItemStatus.done) = some "done"
blocked_from_text (some ItemStatus.blocked) = some "blocked"

abbrev native_blocked_from : Option ItemStatus → Option Status
native_blocked_from none = none
native_blocked_from (some s) = some (native_status s)

abbrev native_description : Option StructuredDescription → Option String
native_description none = none
native_description (some d) = if str_is_empty d.context then none else some d.context

module _ (now : ℕ) where
  unfoldable pub set_enum_ext : Item → String → Option String → Item
  set_enum_ext item key value = record item {
    extensions = set_ext key (text_value value) item.extensions;
    updated_at = now;
  }

  unfoldable pub set_pg_status : Item → ItemStatus → Item
  set_pg_status item status = record item {
    status = native_status status;
    extensions = set_ext x_pg_status (sub_status status) item.extensions;
    updated_at = now;
  }

  unfoldable pub set_phase : Item → Option String → Item
  set_phase item p = record item {
    extensions = set_ext x_pg_phase (text_value p) item.extensions;
    updated_at = now;
  }

  unfoldable pub set_phase_pool : Item → Option PhasePool → Item
  set_phase_pool item pool = record item {
    extensions = set_ext x_pg_phase_pool (text_value (pool_text pool)) item.extensions;
    updated_at = now;
  }

  unfoldable pub set_size : Item → Option SizeLevel → Item
  unfolding set_enum_ext
  set_size item s = set_enum_ext item x_pg_size (size_text s)

  unfoldable pub set_dimension_ext : Item → String → Option DimensionLevel → Item
  unfolding set_enum_ext
  set_dimension_ext item key level = set_enum_ext item key (dimension_text level)

  unfoldable pub set_complexity : Item → Option DimensionLevel → Item
  unfolding set_dimension_ext
  set_complexity item level = set_dimension_ext item x_pg_complexity level

  unfoldable pub set_risk : Item → Option DimensionLevel → Item
  unfolding set_dimension_ext
  set_risk item level = set_dimension_ext item x_pg_risk level

  unfoldable pub set_impact : Item → Option DimensionLevel → Item
  unfolding set_dimension_ext
  set_impact item level = set_dimension_ext item x_pg_impact level

  unfoldable pub set_pipeline_type : Item → Option String → Item
  unfolding set_enum_ext
  set_pipeline_type item t = set_enum_ext item x_pg_pipeline_type t

  unfoldable pub set_last_phase_commit : Item → Option String → Item
  unfolding set_enum_ext
  set_last_phase_commit item sha = set_enum_ext item x_pg_last_phase_commit sha

  unfoldable pub set_blocked_type : Item → Option BlockType → Item
  unfolding set_enum_ext
  set_blocked_type item t = set_enum_ext item x_pg_blocked_type (block_type_text t)

  unfoldable pub set_blocked_from_status : Item → Option ItemStatus → Item
  unfolding set_enum_ext
  set_blocked_from_status item s =
      record (set_enum_ext item x_pg_blocked_from_status (blocked_from_text s)) {
        blocked_from_status = native_blocked_from s;
      }

  unfoldable pub set_unblock_context : Item → Option String → Item
  unfolding set_enum_ext
  set_unblock_context item context = set_enum_ext item x_pg_unblock_context context

  unfoldable pub set_requires_human_review : Item → Bool → Item
  set_requires_human_review item value = record item {
    extensions =
        if value
        then insert x_pg_requires_human_review (bool true) item.extensions
        else remove x_pg_requires_human_review item.extensions;
    updated_at = now;
  }

  unfoldable pub set_origin : Item → Option String → Item
  unfolding set_enum_ext
  set_origin item o = set_enum_ext item x_pg_origin o

  abbrev set_size_if : Option SizeLevel → Item → Item
  unfolding set_size
  set_size_if none item = item
  set_size_if (some s) item = set_size item (some s)

  abbrev set_dimension_if : String → Option DimensionLevel → Item → Item
  unfolding set_dimension_ext
  set_dimension_if key none item = item
  set_dimension_if key (some l) item = set_dimension_ext item key (some l)

  unfoldable pub apply_assessments : Item → UpdatedAssessments → Item
  unfolding set_size set_dimension_ext
  apply_assessments item a =
      let i1 = set_size_if a.size item in
      let i2 = set_dimension_if x_pg_complexity a.complexity i1 in
      let i3 = set_dimension_if x_pg_risk a.risk i2 in
      let i4 = set_dimension_if x_pg_impact a.impact i3 in record i4 { updated_at = now }

  -- `serde_json::to_value` at `StructuredDescription` is a parameter.
  module _ (to_value : StructuredDescription → Value) where
    abbrev description_value : Option StructuredDescription → Option Value
    description_value none = none
    description_value (some d) = some (to_value d)

    unfoldable pub set_structured_description : Item → Option StructuredDescription → Item
    set_structured_description item desc = record item {
      extensions = set_ext x_pg_description (description_value desc) item.extensions;
      description = native_description desc;
      updated_at = now;
    }

-- `new_from_parts`, at the time `now`.
abbrev initial_extensions : ItemStatus → Extensions
initial_extensions status = set_ext x_pg_status (sub_status status) (λ _. none)

unfoldable pub new_from_parts :
    (now : ℕ) → String → String → ItemStatus → List String → List String → Item
new_from_parts now id title status dependencies tags = record {
  id = id;
  title = title;
  status = native_status status;
  priority = 0;
  description = none;
  tags = tags;
  dependencies = dependencies;
  created_at = now;
  updated_at = now;
  blocked_reason = none;
  blocked_from_status = none;
  claimed_by = none;
  claimed_at = none;
  extensions = initial_extensions status;
}
