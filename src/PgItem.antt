-- ===== src/PgItem.antt =====
-- src/pg_item.rs: an item of the task-golem store, with phase-golem's typed view of its status, its
-- native fields and its `x-pg-*` extensions. `DateTime<Utc>` is a number of ticks.
pub mod Getters
pub mod Setters
pub mod Update
pub mod Lifecycle
pub mod Blocking
pub mod Fields
use phase_golem.Prelude.{
  ℕ, String, Bool, true, false, not, Option, none, some, List, if◌then◌else◌, ◌==◌, string_eq,
  is_some,
}
use phase_golem.Types.{
  ItemStatus, BlockType, SizeLevel, DimensionLevel, PhasePool, StructuredDescription,
  description_is_empty, clarification, decision, small, large, low, high, pre, main,
}
use mathlib.Core.Option

-- task-golem's four statuses.
pub data Status : Type 0 where
  todo doing done blocked : Status

-- A JSON value; a number is kept as its text.
mutual
  pub data Value : Type 0 where
    null : Value
    bool : Bool → Value
    number : String → Value
    string : String → Value
    array : Elements → Value
    object : Members → Value

  pub data Elements : Type 0 where
    nil : Elements
    cons : Value → Elements → Elements

  pub data Members : Type 0 where
    end : Members
    member : String → Value → Members → Members

abbrev pub Extensions : Type 0
Extensions = String → Option Value

pub record Item : Type 0 where
  pub id : String
  pub title : String
  pub status : Status
  pub priority : ℕ
  pub description : Option String
  pub tags : List String
  pub dependencies : List String
  pub created_at : ℕ
  pub updated_at : ℕ
  pub blocked_reason : Option String
  pub blocked_from_status : Option Status
  pub claimed_by : Option String
  pub claimed_at : Option ℕ
  pub extensions : Extensions

abbrev pub x_pg_status : String
x_pg_status = "x-pg-status"

abbrev pub x_pg_phase : String
x_pg_phase = "x-pg-phase"

abbrev pub x_pg_phase_pool : String
x_pg_phase_pool = "x-pg-phase-pool"

abbrev pub x_pg_size : String
x_pg_size = "x-pg-size"

abbrev pub x_pg_complexity : String
x_pg_complexity = "x-pg-complexity"

abbrev pub x_pg_risk : String
x_pg_risk = "x-pg-risk"

abbrev pub x_pg_impact : String
x_pg_impact = "x-pg-impact"

abbrev pub x_pg_requires_human_review : String
x_pg_requires_human_review = "x-pg-requires-human-review"

abbrev pub x_pg_pipeline_type : String
x_pg_pipeline_type = "x-pg-pipeline-type"

abbrev pub x_pg_origin : String
x_pg_origin = "x-pg-origin"

abbrev pub x_pg_blocked_type : String
x_pg_blocked_type = "x-pg-blocked-type"

abbrev pub x_pg_blocked_from_status : String
x_pg_blocked_from_status = "x-pg-blocked-from-status"

abbrev pub x_pg_unblock_context : String
x_pg_unblock_context = "x-pg-unblock-context"

abbrev pub x_pg_last_phase_commit : String
x_pg_last_phase_commit = "x-pg-last-phase-commit"

abbrev pub x_pg_description : String
x_pg_description = "x-pg-description"
