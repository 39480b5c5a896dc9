-- ===== src/Config.antt =====
-- src/config.rs: the configuration, its defaults, and its normalisation and validation. The
-- `HashMap` of pipelines is an association list in the order in which it is iterated.
pub mod Checks
pub mod Valid
use phase_golem.Prelude.{
  ℕ, String, Bool, true, false, Option, none, some, List, [], ◌∷◌, if◌then◌else◌, trim,
  str_is_empty, is_empty,
}
use phase_golem.Types.{SizeLevel, DimensionLevel, low}

pub data CliTool : Type 0 where
  claude open_code : CliTool

pub data StalenessAction : Type 0 where
  ignore warn block : StalenessAction

pub record PhaseConfig : Type 0 where
  pub name : String
  pub workflows : List String
  pub is_destructive : Bool
  pub staleness : StalenessAction

pub record PipelineConfig : Type 0 where
  pub pre_phases : List PhaseConfig
  pub phases : List PhaseConfig

abbrev pub Pipelines : Type 0
Pipelines = List (String × PipelineConfig)

pub record GuardrailsConfig : Type 0 where
  pub max_size : SizeLevel
  pub max_complexity : DimensionLevel
  pub max_risk : DimensionLevel

pub record ExecutionConfig : Type 0 where
  pub phase_timeout_minutes : ℕ
  pub max_retries : ℕ
  pub default_phase_cap : ℕ
  pub max_wip : ℕ
  pub max_concurrent : ℕ

pub record AgentConfig : Type 0 where
  pub cli : CliTool
  pub model : Option String

pub record PhaseGolemConfig : Type 0 where
  pub project_prefix : String
  pub guardrails : GuardrailsConfig
  pub execution : ExecutionConfig
  pub agent : AgentConfig
  pub pipelines : Pipelines

-- `PhaseConfig::new`.
abbrev pub new_phase : String → Bool → PhaseConfig
new_phase name is_destructive = record {
  name = name;
  workflows = [];
  is_destructive = is_destructive;
  staleness = ignore;
}

abbrev with_workflow : String → PhaseConfig → PhaseConfig
with_workflow path p = record p { workflows = path ∷ [] }

abbrev pub default_guardrails : GuardrailsConfig
default_guardrails = record {
  max_size = SizeLevel.medium;
  max_complexity = DimensionLevel.medium;
  max_risk = low;
}

abbrev pub default_execution : ExecutionConfig
default_execution = record {
  phase_timeout_minutes = 30;
  max_retries = 2;
  default_phase_cap = 100;
  max_wip = 1;
  max_concurrent = 1;
}

-- `PhaseGolemConfig::default`.
abbrev pub default_config : PhaseGolemConfig
default_config = record {
  project_prefix = "WRK";
  guardrails = default_guardrails;
  execution = default_execution;
  agent = record { cli = claude; model = none };
  pipelines = [];
}

abbrev pub default_feature_pipeline : PipelineConfig
default_feature_pipeline = record {
  pre_phases =
      with_workflow ".claude/skills/changes/workflows/orchestration/research-scope.md"
        (new_phase "research" false)
      ∷ [];
  phases =
      with_workflow ".claude/skills/changes/workflows/0-prd/create-prd.md" (new_phase "prd" false)
      ∷ with_workflow ".claude/skills/changes/workflows/1-tech-research/tech-research.md"
          (new_phase "tech-research" false)
      ∷ with_workflow ".claude/skills/changes/workflows/2-design/design.md"
          (new_phase "design" false)
      ∷ with_workflow ".claude/skills/changes/workflows/3-spec/create-spec.md"
          (new_phase "spec" false)
      ∷ with_workflow ".claude/skills/changes/workflows/orchestration/build-spec-phase.md"
          (new_phase "build" true)
      ∷ with_workflow ".claude/skills/changes/workflows/5-review/change-review.md"
          (new_phase "review" false)
      ∷ [];
}

abbrev normalize_model : Option String → Option String
normalize_model none = none
normalize_model (some model) =
    let trimmed = trim model in if str_is_empty trimmed then none else some trimmed

unfoldable pub normalize_agent_config : PhaseGolemConfig → PhaseGolemConfig
unfolding trim
normalize_agent_config c = record c {
  agent = record { cli = c.agent.cli; model = normalize_model c.agent.model };
}

unfoldable pub populate_default_pipelines : PhaseGolemConfig → PhaseGolemConfig
populate_default_pipelines c =
    if is_empty c.pipelines
    then record c { pipelines = ("feature", default_feature_pipeline) ∷ [] }
    else c
