-- ===== src/Scheduler/Items.antt =====
-- The helpers of src/scheduler.rs on items: unmet dependencies, the sorted queues, and the action that
-- runs an item's phase.
use phase_golem.Prelude.{
  ℕ, ◌+◌, String, Bool, ◌&&◌, ◌||◌, Option, none, some, List, [], ◌∷◌, ◌++◌, if◌then◌else◌, ltb,
  leb, eqb, ◌==◌, string_eq, filter, find, position, length, is_empty, is_some, lookup, unwrap_or,
  concat, join, sort_by,
}
use phase_golem.Types.{
  ItemStatus, status_eq, DimensionLevel, low, high, PhasePool, pre, main, SchedulerAction,
  run_phase,
}
use phase_golem.PgItem.{Item}
use phase_golem.PgItem.Getters.{pg_status, phase, phase_pool, pipeline_type, impact}
use phase_golem.Config.{PhaseConfig, PipelineConfig, Pipelines}
use phase_golem.Executor.{is_named}

-- `{:?}` of a status.
abbrev debug_status : ItemStatus → String
debug_status ItemStatus.new = "New"
debug_status ItemStatus.scoping = "Scoping"
debug_status ItemStatus.ready = "Ready"
debug_status ItemStatus.in_progress = "InProgress"
debug_status ItemStatus.done = "Done"
debug_status ItemStatus.blocked = "Blocked"

abbrev pub has_id : String → Item → Bool
has_id id item = item.id == id

abbrev unmet : String → Option Item → Option String
unmet dep none = none
unmet dep (some item) =
    if pg_status item == ItemStatus.done
    then none
    else some (concat (dep ∷ " (" ∷ debug_status (pg_status item) ∷ ")" ∷ []))

unfoldable pub unmet_deps : List Item → List String → List String
unmet_deps all_items [] = []
unmet_deps all_items (d ∷ ds) =
    let rest = unmet_deps all_items ds in
    elim (unmet d (find (has_id d) all_items)) [ none ↦ rest | some s ↦ s ∷ rest ]

abbrev summary_of : List String → Option String
summary_of [] = none
summary_of (u ∷ us) = some (join ", " (u ∷ us))

unfoldable pub unmet_dep_summary : Item → List Item → Option String
unmet_dep_summary item all_items =
    if is_empty item.dependencies then none else summary_of (unmet_deps all_items item.dependencies)

unfoldable pub skip_for_unmet_deps : Item → List Item → Bool
skip_for_unmet_deps item all_items = is_some (unmet_dep_summary item all_items)

abbrev pub item_pipeline_type : Item → String
item_pipeline_type item = unwrap_or "feature" (pipeline_type item)

abbrev index_in : PipelineConfig → Option PhasePool → String → ℕ
index_in pipeline (some pre) name = unwrap_or 0 (position (is_named name) pipeline.pre_phases)
index_in pipeline _ name =
    length pipeline.pre_phases + unwrap_or 0 (position (is_named name) pipeline.phases)

abbrev pub index_of : Option PipelineConfig → Option String → Option PhasePool → ℕ
index_of none name pool = 0
index_of (some pipeline) none pool = 0
index_of (some pipeline) (some name) pool = index_in pipeline pool name

unfoldable pub phase_index : Pipelines → Item → ℕ
phase_index pipelines item =
    index_of (lookup (item_pipeline_type item) pipelines) (phase item) (phase_pool item)

abbrev pub impact_sort_value : Option DimensionLevel → ℕ
impact_sort_value none = 0
impact_sort_value (some low) = 1
impact_sort_value (some DimensionLevel.medium) = 2
impact_sort_value (some high) = 3

-- The comparison by a key, higher first, then by the time of creation, older first.
abbrev pub before_by : (Item → ℕ) → Item → Item → Bool
before_by key a b = ltb (key b) (key a) || (eqb (key a) (key b) && leb a.created_at b.created_at)

unfoldable pub sorted_ready_items : List Item → List Item
sorted_ready_items items =
    sort_by (before_by (λ i. impact_sort_value (impact i)))
      (filter (λ i. pg_status i == ItemStatus.ready) items)

unfoldable pub sorted_in_progress_items : Pipelines → List Item → List Item
sorted_in_progress_items pipelines items =
    sort_by (before_by (phase_index pipelines))
      (filter (λ i. pg_status i == ItemStatus.in_progress && is_some (phase i)) items)

unfoldable pub sorted_scoping_items : Pipelines → List Item → List Item
sorted_scoping_items pipelines items =
    sort_by (before_by (phase_index pipelines))
      (filter (λ i. pg_status i == ItemStatus.scoping && is_some (phase i)) items)

unfoldable pub sorted_new_items : List Item → List Item
sorted_new_items items =
    sort_by (λ a b. leb a.created_at b.created_at)
      (filter (λ i. pg_status i == ItemStatus.new) items)

abbrev run_action : Item → String → Option PhaseConfig → Option SchedulerAction
run_action item name none = none
run_action item name (some p) =
    some (run_phase item.id name (unwrap_or main (phase_pool item)) p.is_destructive)

abbrev run_action_in : Item → Option PipelineConfig → Option String → Option SchedulerAction
run_action_in item none name = none
run_action_in item (some pipeline) none = none
run_action_in item (some pipeline) (some name) =
    run_action item name (find (is_named name) (pipeline.pre_phases ++ pipeline.phases))

unfoldable pub build_run_phase_action : Pipelines → Item → Option SchedulerAction
build_run_phase_action pipelines item =
    run_action_in item (lookup (item_pipeline_type item) pipelines) (phase item)
