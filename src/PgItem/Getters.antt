-- ===== src/PgItem/Getters.antt =====
-- The typed getters of src/pg_item.rs over an item's native fields and `x-pg-*` extensions.
use phase_golem.Prelude.{
  String, Bool, true, false, Option, none, some, if◌then◌else◌, ◌==◌, string_eq, is_some,
}
use phase_golem.Types.{
  ItemStatus, BlockType, SizeLevel, DimensionLevel, PhasePool, StructuredDescription,
  description_is_empty, clarification, decision, small, large, low, high, pre, main,
}
use phase_golem.PgItem.{
  Status, todo, doing, done, blocked, Value, bool, string, Item, x_pg_status, x_pg_phase,
  x_pg_phase_pool, x_pg_size, x_pg_complexity, x_pg_risk, x_pg_impact, x_pg_requires_human_review,
  x_pg_pipeline_type, x_pg_origin, x_pg_blocked_type, x_pg_blocked_from_status,
  x_pg_unblock_context, x_pg_last_phase_commit, x_pg_description,
}

-- `Value::as_str` and `Value::as_bool`.
abbrev pub as_str : Value → Option String
as_str (string s) = some s
as_str _ = none

abbrev pub as_bool : Value → Option Bool
as_bool (bool b) = some b
as_bool _ = none

abbrev pub and_then {ℓ κ} : {A : Type ℓ} {B : Type κ} → Option A → (A → Option B) → Option B
and_then none f = none
and_then (some a) f = f a

unfoldable pub get_string_ext : Item → String → Option String
get_string_ext item key = and_then (item.extensions key) as_str

abbrev status_of_text : String → ItemStatus
status_of_text s =
    if s == "new"
    then ItemStatus.new
    else if s == "scoping"
    then ItemStatus.scoping
    else if s == "ready"
    then ItemStatus.ready
    else ItemStatus.new

abbrev todo_status : Option String → ItemStatus
todo_status (some s) = status_of_text s
todo_status none = ItemStatus.new

abbrev map_status : Status → Option String → ItemStatus
map_status todo ext = todo_status ext
map_status doing ext = ItemStatus.in_progress
map_status done ext = ItemStatus.done
map_status blocked ext = ItemStatus.blocked

unfoldable pub pg_status : Item → ItemStatus
unfolding get_string_ext
pg_status item = map_status item.status (get_string_ext item x_pg_status)

unfoldable pub phase : Item → Option String
unfolding get_string_ext
phase item = get_string_ext item x_pg_phase

abbrev pool_of_text : String → Option PhasePool
pool_of_text s = if s == "pre" then some pre else if s == "main" then some main else none

unfoldable pub phase_pool : Item → Option PhasePool
unfolding get_string_ext
phase_pool item = and_then (get_string_ext item x_pg_phase_pool) pool_of_text

abbrev size_of_text : String → Option SizeLevel
size_of_text s =
    if s == "small"
    then some small
    else if s == "medium"
    then some SizeLevel.medium
    else if s == "large"
    then some large
    else none

unfoldable pub size : Item → Option SizeLevel
unfolding get_string_ext
size item = and_then (get_string_ext item x_pg_size) size_of_text

abbrev dimension_of_text : String → Option DimensionLevel
dimension_of_text s =
    if s == "low"
    then some low
    else if s == "medium"
    then some DimensionLevel.medium
    else if s == "high"
    then some high
    else none

unfoldable pub get_dimension_ext : Item → String → Option DimensionLevel
unfolding get_string_ext
get_dimension_ext item key = and_then (get_string_ext item key) dimension_of_text

unfoldable pub complexity : Item → Option DimensionLevel
unfolding get_dimension_ext
complexity item = get_dimension_ext item x_pg_complexity

unfoldable pub risk : Item → Option DimensionLevel
unfolding get_dimension_ext
risk item = get_dimension_ext item x_pg_risk

unfoldable pub impact : Item → Option DimensionLevel
unfolding get_dimension_ext
impact item = get_dimension_ext item x_pg_impact

abbrev bool_or_false : Option Bool → Bool
bool_or_false none = false
bool_or_false (some b) = b

unfoldable pub requires_human_review : Item → Bool
requires_human_review item =
    bool_or_false (and_then (item.extensions x_pg_requires_human_review) as_bool)

unfoldable pub pipeline_type : Item → Option String
unfolding get_string_ext
pipeline_type item = get_string_ext item x_pg_pipeline_type

unfoldable pub origin : Item → Option String
unfolding get_string_ext
origin item = get_string_ext item x_pg_origin

abbrev block_type_of_text : String → Option BlockType
block_type_of_text s =
    if s == "clarification"
    then some clarification
    else if s == "decision"
    then some decision
    else none

unfoldable pub blocked_type : Item → Option BlockType
unfolding get_string_ext
blocked_type item = and_then (get_string_ext item x_pg_blocked_type) block_type_of_text

unfoldable pub parse_blocked_from_status : String → Option ItemStatus
parse_blocked_from_status s =
    if s == "new"
    then some ItemStatus.new
    else if s == "scoping"
    then some ItemStatus.scoping
    else if s == "ready"
    then some ItemStatus.ready
    else if s == "in_progress"
    then some ItemStatus.in_progress
    else none

abbrev blocked_from : Bool → Option String → Option ItemStatus
unfolding parse_blocked_from_status
blocked_from true (some s) = parse_blocked_from_status s
blocked_from false (some _) = none
blocked_from _ none = none

unfoldable pub pg_blocked_from_status : Item → Option ItemStatus
unfolding get_string_ext parse_blocked_from_status
pg_blocked_from_status item =
    blocked_from (is_some item.blocked_from_status) (get_string_ext item x_pg_blocked_from_status)

unfoldable pub unblock_context : Item → Option String
unfolding get_string_ext
unblock_context item = get_string_ext item x_pg_unblock_context

unfoldable pub last_phase_commit : Item → Option String
unfolding get_string_ext
last_phase_commit item = get_string_ext item x_pg_last_phase_commit

-- `serde_json::from_value` at `StructuredDescription` is a parameter; `none` is its error.
unfoldable pub structured_description :
    (from_value : Value → Option StructuredDescription) → Item → Option StructuredDescription
structured_description from_value item = and_then (item.extensions x_pg_description) λ value.
    and_then (from_value value) λ desc. if description_is_empty desc then none else some desc
