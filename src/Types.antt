-- ===== src/Types.antt =====
-- src/types.rs: the statuses, levels, updates and results that the other parts exchange.
pub mod Transitions
pub mod Parse
use phase_golem.Prelude.{
  ℕ, String, ◌≡◌, ◌↔◌, Bool, true, false, not, ◌&&◌, ◌||◌, Option, List, arith, eqb, Eq, ◌==◌,
  str_is_empty,
}

pub data ItemStatus : Type 0 where
  new scoping ready in_progress done blocked : ItemStatus

pub data ResultCode : Type 0 where
  subphase_complete phase_complete failed blocked : ResultCode

pub data BlockType : Type 0 where
  clarification decision : BlockType

pub data SizeLevel : Type 0 where
  small medium large : SizeLevel

pub data DimensionLevel : Type 0 where
  low medium high : DimensionLevel

pub data PhasePool : Type 0 where
  pre main : PhasePool

-- The derived `PartialEq` of the enums, by the position of the variant.
abbrev status_tag : ItemStatus → ℕ
status_tag new = 0
status_tag scoping = 1
status_tag ready = 2
status_tag in_progress = 3
status_tag done = 4
status_tag ItemStatus.blocked = 5

abbrev size_tag : SizeLevel → ℕ
size_tag small = 0
size_tag SizeLevel.medium = 1
size_tag large = 2

abbrev dimension_tag : DimensionLevel → ℕ
dimension_tag low = 0
dimension_tag DimensionLevel.medium = 1
dimension_tag high = 2

abbrev pool_tag : PhasePool → ℕ
pool_tag pre = 0
pool_tag main = 1

pub status_beq_iff : (a b : ItemStatus) → (eqb (status_tag a) (status_tag b) ≡ true) ↔ (a ≡ b)
status_beq_iff a b = ground arith

pub size_beq_iff : (a b : SizeLevel) → (eqb (size_tag a) (size_tag b) ≡ true) ↔ (a ≡ b)
size_beq_iff a b = ground arith

pub dimension_beq_iff :
    (a b : DimensionLevel) → (eqb (dimension_tag a) (dimension_tag b) ≡ true) ↔ (a ≡ b)
dimension_beq_iff a b = ground arith

pub pool_beq_iff : (a b : PhasePool) → (eqb (pool_tag a) (pool_tag b) ≡ true) ↔ (a ≡ b)
pool_beq_iff a b = ground arith

instance abbrev pub status_eq : Eq ItemStatus
status_eq = record { beq = λ a b. eqb (status_tag a) (status_tag b); beq_iff = status_beq_iff }

instance abbrev pub size_eq : Eq SizeLevel
size_eq = record { beq = λ a b. eqb (size_tag a) (size_tag b); beq_iff = size_beq_iff }

instance abbrev pub dimension_eq : Eq DimensionLevel
dimension_eq = record {
  beq = λ a b. eqb (dimension_tag a) (dimension_tag b);
  beq_iff = dimension_beq_iff;
}

instance abbrev pub pool_eq : Eq PhasePool
pool_eq = record { beq = λ a b. eqb (pool_tag a) (pool_tag b); beq_iff = pool_beq_iff }

-- The `matches!` of the forward transitions.
abbrev forward : ItemStatus → ItemStatus → Bool
forward new scoping = true
forward scoping ready = true
forward ready in_progress = true
forward in_progress done = true
forward _ _ = false

-- The two early returns come first, as in the source.
unfoldable pub is_valid_transition : ItemStatus → ItemStatus → Bool
is_valid_transition self to =
    (to == ItemStatus.blocked && not (self == done) && not (self == ItemStatus.blocked))
    || (self == ItemStatus.blocked && not (to == done) && not (to == ItemStatus.blocked))
    || forward self to

pub record StructuredDescription : Type 0 where
  pub context : String
  pub problem : String
  pub solution : String
  pub impact : String
  pub sizing_rationale : String

unfoldable pub description_is_empty : StructuredDescription → Bool
description_is_empty d =
    str_is_empty d.context
    && str_is_empty d.problem
    && str_is_empty d.solution
    && str_is_empty d.impact
    && str_is_empty d.sizing_rationale

pub record UpdatedAssessments : Type 0 where
  pub size : Option SizeLevel
  pub complexity : Option DimensionLevel
  pub risk : Option DimensionLevel
  pub impact : Option DimensionLevel

pub data ItemUpdate : Type 0 where
  transition_status : ItemStatus → ItemUpdate
  set_phase : String → ItemUpdate
  set_phase_pool : PhasePool → ItemUpdate
  clear_phase : ItemUpdate
  set_blocked : String → ItemUpdate
  unblock : ItemUpdate
  update_assessments : UpdatedAssessments → ItemUpdate
  set_pipeline_type : String → ItemUpdate
  set_last_phase_commit : String → ItemUpdate
  set_description : StructuredDescription → ItemUpdate

pub record FollowUp : Type 0 where
  pub title : String
  pub context : Option String
  pub suggested_size : Option SizeLevel
  pub suggested_risk : Option DimensionLevel

pub record PhaseResult : Type 0 where
  pub item_id : String
  pub phase : String
  pub result : ResultCode
  pub summary : String
  pub context : Option String
  pub updated_assessments : Option UpdatedAssessments
  pub follow_ups : List FollowUp
  pub based_on_commit : Option String
  pub pipeline_type : Option String
  pub commit_summary : Option String
  pub duplicates : List String
  pub description : Option StructuredDescription

pub data PhaseExecutionResult : Type 0 where
  success : PhaseResult → PhaseExecutionResult
  subphase_complete : PhaseResult → PhaseExecutionResult
  failed : String → PhaseExecutionResult
  blocked : String → PhaseExecutionResult
  cancelled : PhaseExecutionResult

pub data SchedulerAction : Type 0 where
  triage : String → SchedulerAction
  promote : String → SchedulerAction
  run_phase :
      (item_id : String) (phase : String) (phase_pool : PhasePool) (is_destructive : Bool)
      → SchedulerAction
