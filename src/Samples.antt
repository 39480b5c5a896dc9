-- ===== src/Samples.antt =====
-- Small inputs: items, pipelines and settings like those of the default configuration.
mod Storing
mod Executing
mod Scheduling
mod Filtering
mod Promoting
mod Checking
mod Coordinating
mod Completing
use phase_golem.Prelude.{ℕ, String, Bool, true, false, Option, none, some, List, [], ◌∷◌, insert}
use phase_golem.Types.{StructuredDescription, PhaseResult, ResultCode, phase_complete}
use phase_golem.PgItem.{
  Status, todo, doing, Value, string, null, Extensions, Item, x_pg_status, x_pg_phase,
  x_pg_phase_pool,
}
use phase_golem.Config.{PipelineConfig, Pipelines, ExecutionConfig, default_feature_pipeline}
use phase_golem.Scheduler.{RunningTasks, SchedulerState}

abbrev pub item_with : String → ℕ → Status → List String → Extensions → Item
item_with id created status deps extensions = record {
  id = id;
  title = "Add search";
  status = status;
  priority = 0;
  description = none;
  tags = [];
  dependencies = deps;
  created_at = created;
  updated_at = created;
  blocked_reason = none;
  blocked_from_status = none;
  claimed_by = none;
  claimed_at = none;
  extensions = extensions;
}

abbrev pub bare : Extensions
bare key = none

abbrev pub in_phase : String → Extensions
in_phase name = insert x_pg_phase (string name) bare

-- In progress, in its review phase.
abbrev pub reviewing : Item
reviewing = item_with "WRK-1" 10 doing [] (in_phase "review")

-- In progress, in its build phase, which is destructive.
abbrev pub building : Item
building = item_with "WRK-2" 20 doing [] (in_phase "build")

-- Ready, and waiting for the item that is being built.
abbrev pub waiting : Item
waiting = item_with "WRK-3" 30 todo ("WRK-2" ∷ []) (insert x_pg_status (string "ready") bare)

abbrev pub fresh : Item
fresh = item_with "WRK-4" 40 todo [] bare

abbrev pub backlog : List Item
backlog = fresh ∷ waiting ∷ building ∷ reviewing ∷ []

abbrev pub pipelines : Pipelines
pipelines = ("feature", default_feature_pipeline) ∷ []

abbrev pub two_at_once : ExecutionConfig
two_at_once = record {
  phase_timeout_minutes = 30;
  max_retries = 2;
  default_phase_cap = 100;
  max_wip = 3;
  max_concurrent = 2;
}

abbrev pub idle : RunningTasks
idle = []

abbrev pub started : SchedulerState
started = record {
  phases_executed = 0;
  cap = 5;
  consecutive_exhaustions = 0;
  items_completed = [];
  items_blocked = [];
  follow_ups_created = 0;
  items_merged = 0;
  current_target_index = 0;
}

-- Encodings that keep nothing, where no description is at stake.
abbrev pub to_null : StructuredDescription → Value
to_null d = null

abbrev pub completing : String → String → PhaseResult
completing id name = record {
  item_id = id;
  phase = name;
  result = phase_complete;
  summary = "done";
  context = none;
  updated_assessments = none;
  follow_ups = [];
  based_on_commit = some "abc";
  pipeline_type = none;
  commit_summary = none;
  duplicates = [];
  description = none;
}
