-- ===== src/Preflight.antt =====
-- The checks of src/preflight.rs on the items of the backlog, before a run.
pub mod Placed
pub mod Unique
pub mod Structure
pub mod Agreement
use phase_golem.Prelude.{
  ℕ, suc, ◌+◌, String, Bool, true, false, not, ◌&&◌, ◌||◌, Option, none, some, List, [], ◌∷◌, ◌++◌,
  if◌then◌else◌, leb, ltb, ◌==◌, string_eq, any, filter, length, lookup, concat, join, decimal,
  sort_by, map,
}
use phase_golem.Types.{ItemStatus, status_eq, PhasePool, pre, main, pool_eq}
use phase_golem.PgItem.{Item}
use phase_golem.PgItem.Getters.{pg_status, phase, phase_pool}
use phase_golem.Config.{PhaseConfig, PipelineConfig, Pipelines}
use phase_golem.Executor.{is_named}
use phase_golem.Scheduler.Items.{item_pipeline_type}

pub record PreflightError : Type 0 where
  pub condition : String
  pub config_location : String
  pub suggested_fix : String

-- `{:?}` of a pool.
abbrev debug_pool : PhasePool → String
debug_pool pre = "Pre"
debug_pool main = "Main"

abbrev unknown_pipeline : Item → PreflightError
unknown_pipeline item = record {
  condition = concat (
      "Item "
      ∷ item.id
      ∷ " references unknown pipeline type \""
      ∷ item_pipeline_type item
      ∷ "\""
      ∷ []);
  config_location = concat ("items → " ∷ item.id ∷ " → pipeline_type" ∷ []);
  suggested_fix = concat (
      "Add a [pipelines."
      ∷ item_pipeline_type item
      ∷ "] section to phase-golem.toml or update the item's pipeline_type"
      ∷ []);
}

abbrev unknown_phase : Item → String → PreflightError
unknown_phase item name = record {
  condition = concat (
      "Item "
      ∷ item.id
      ∷ " references unknown phase \""
      ∷ name
      ∷ "\" in pipeline \""
      ∷ item_pipeline_type item
      ∷ "\""
      ∷ []);
  config_location = concat ("items → " ∷ item.id ∷ " → phase" ∷ []);
  suggested_fix = concat (
      "Update the item's phase to a valid phase name in the \""
      ∷ item_pipeline_type item
      ∷ "\" pipeline"
      ∷ []);
}

abbrev wrong_pool : Item → String → PhasePool → PhasePool → PreflightError
wrong_pool item name pool expected = record {
  condition = concat (
      "Item "
      ∷ item.id
      ∷ " has phase_pool "
      ∷ debug_pool pool
      ∷ " but phase \""
      ∷ name
      ∷ "\" is in "
      ∷ debug_pool expected
      ∷ []);
  config_location = concat ("items → " ∷ item.id ∷ " → phase_pool" ∷ []);
  suggested_fix = concat (
      "Update phase_pool to "
      ∷ debug_pool expected
      ∷ " to match the phase's location in the pipeline"
      ∷ []);
}

abbrev pool_errors : Item → String → PhasePool → Option PhasePool → List PreflightError
pool_errors item name expected none = []
pool_errors item name expected (some pool) =
    if not (pool == expected) then wrong_pool item name pool expected ∷ [] else []

abbrev phase_errors : Item → PipelineConfig → Option String → List PreflightError
phase_errors item pipeline none = []
phase_errors item pipeline (some name) =
    let in_pre = any (is_named name) pipeline.pre_phases in
    if not in_pre && not (any (is_named name) pipeline.phases)
    then unknown_phase item name ∷ []
    else pool_errors item name (if in_pre then pre else main) (phase_pool item)

abbrev errors_in : Item → Option PipelineConfig → List PreflightError
errors_in item none = unknown_pipeline item ∷ []
errors_in item (some pipeline) = phase_errors item pipeline (phase item)

abbrev pub is_processed : Item → Bool
is_processed item = pg_status item == ItemStatus.in_progress || pg_status item == ItemStatus.scoping

unfoldable pub item_errors : Pipelines → Item → List PreflightError
item_errors pipelines item =
    if is_processed item then errors_in item (lookup (item_pipeline_type item) pipelines) else []

unfoldable pub validate_items : Pipelines → List Item → List PreflightError
validate_items pipelines [] = []
validate_items pipelines (item ∷ items) =
    item_errors pipelines item ++ validate_items pipelines items

-- `entry(id).or_default().push(index)`, on the map in the order of first entry.
unfoldable pub push_index : String → ℕ → List (String × List ℕ) → List (String × List ℕ)
push_index id index [] = (id, index ∷ []) ∷ []
push_index id index ((j, indices) ∷ m) =
    let rest = push_index id index m in
    if j == id then (j, indices ++ index ∷ []) ∷ m else (j, indices) ∷ rest

unfoldable pub id_indices : ℕ → List (String × List ℕ) → List Item → List (String × List ℕ)
id_indices index m [] = m
id_indices index m (item ∷ items) = id_indices (suc index) (push_index item.id index m) items

abbrev first_index : List ℕ → ℕ
first_index [] = 0
first_index (i ∷ is) = i

abbrev duplicate_error : String × List ℕ → PreflightError
duplicate_error (id, indices) = record {
  condition = concat (
      "Duplicate item ID \""
      ∷ id
      ∷ "\" found at indices ["
      ∷ join ", " (map decimal indices)
      ∷ "]"
      ∷ []);
  config_location = "BACKLOG.yaml → items";
  suggested_fix = "Remove or rename the duplicate item so each ID is unique";
}

abbrev is_duplicate : String × List ℕ → Bool
is_duplicate e = ltb 1 (length e.1)

abbrev by_first : String × List ℕ → String × List ℕ → Bool
by_first a b = leb (first_index a.1) (first_index b.1)

-- The keys of the sort differ, so the order in which a `HashMap` lists its entries does not matter.
unfoldable pub validate_duplicate_ids : List Item → List PreflightError
unfolding id_indices
validate_duplicate_ids items =
    map duplicate_error (sort_by by_first (filter is_duplicate (id_indices 0 [] items)))
