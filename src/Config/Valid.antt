-- ===== src/Config/Valid.antt =====
-- What `validate` of src/config.rs accepts.
use phase_golem.Prelude.{
  ℕ, ◌≤◌, ◌<◌, String, ◌≡◌, refl, ◌↔◌, ◌≢◌, true, false, Option, none, some, List, [], ◌∷◌, ◌++◌,
  any, All, append-nil_iff, ltb, ◌==◌, string_eq, str_is_empty, ok, arith, if◌then◌else◌,
}
use phase_golem.Config.{PhaseConfig, PipelineConfig, Pipelines, PhaseGolemConfig}
use phase_golem.Config.Checks.{
  all_model_chars, starts_with_dash, model_errors, is_block, duplicate_errors, destructive_errors,
  staleness_errors, pipeline_errors, pipelines_errors, config_errors, validate,
}

-- Names that differ from each other and from those seen before.
abbrev pub IsDistinct : List String → List PhaseConfig → Type 0
IsDistinct seen [] = Unit
IsDistinct seen (p ∷ ps) = (any (λ s. s == p.name) seen ≡ false) × IsDistinct (p.name ∷ seen) ps

abbrev IsModel : Option String → Type 0
IsModel none = Unit
IsModel (some m) =
    (str_is_empty m ≡ false) × (all_model_chars m ≡ true) × (starts_with_dash m ≡ false)

pub record IsValidPipeline (max_wip : ℕ) (p : PipelineConfig) : Type 0 where
  pub has_phase : p.phases ≢ []
  pub distinct : IsDistinct [] (p.pre_phases ++ p.phases)
  pub pre_shared : All (λ q. q.is_destructive ≡ false) p.pre_phases
  pub no_block : 1 < max_wip → All (λ q. is_block q.staleness ≡ false) (p.pre_phases ++ p.phases)

pub record IsValid (c : PhaseGolemConfig) : Type 0 where
  pub wip : 1 ≤ c.execution.max_wip
  pub concurrent : 1 ≤ c.execution.max_concurrent
  pub model : IsModel c.agent.model
  pub pipelines : All (λ e. IsValidPipeline c.execution.max_wip e.1) c.pipelines

duplicate_errors_iff :
    (name : String) (seen : List String) (ps : List PhaseConfig)
    → (duplicate_errors name seen ps ≡ []) ↔ IsDistinct seen ps
unfolding duplicate_errors
duplicate_errors_iff name seen [] = (λ h. tt, λ h. refl)
duplicate_errors_iff name seen (p ∷ ps) =
    ground (arith, duplicate_errors_iff name (p.name ∷ seen) ps)

destructive_errors_iff :
    (name : String) (ps : List PhaseConfig)
    → (destructive_errors name ps ≡ []) ↔ All (λ q. q.is_destructive ≡ false) ps
unfolding destructive_errors
destructive_errors_iff name [] = (λ h. tt, λ h. refl)
destructive_errors_iff name (p ∷ ps) = ground (arith, destructive_errors_iff name ps)

staleness_errors_iff :
    (name : String) (ps : List PhaseConfig)
    → (staleness_errors name ps ≡ []) ↔ All (λ q. is_block q.staleness ≡ false) ps
unfolding staleness_errors
staleness_errors_iff name [] = (λ h. tt, λ h. refl)
staleness_errors_iff name (p ∷ ps) = ground (arith, staleness_errors_iff name ps)

pipeline_errors_iff :
    (max_wip : ℕ) (name : String) (p : PipelineConfig)
    → (pipeline_errors max_wip name p ≡ []) ↔ IsValidPipeline max_wip p
unfolding pipeline_errors
pipeline_errors_iff max_wip name p =
    let everything = p.pre_phases ++ p.phases in
    let gated = if ltb 1 max_wip then staleness_errors name everything else [] in
    ground (
      arith,
      duplicate_errors_iff name [] everything,
      destructive_errors_iff name p.pre_phases,
      staleness_errors_iff name everything,
      append-nil_iff (duplicate_errors name [] everything)
          (destructive_errors name p.pre_phases ++ gated),
      append-nil_iff (destructive_errors name p.pre_phases) gated,
    )

pipelines_errors_iff :
    (max_wip : ℕ) (ps : Pipelines)
    → (pipelines_errors max_wip ps ≡ []) ↔ All (λ e. IsValidPipeline max_wip e.1) ps
unfolding pipelines_errors
pipelines_errors_iff max_wip [] = (λ h. tt, λ h. refl)
pipelines_errors_iff max_wip ((name, p) ∷ ps) = (
  λ h.
      let parts =
        (append-nil_iff (pipeline_errors max_wip name p) (pipelines_errors max_wip ps)).0 h in
      ((pipeline_errors_iff max_wip name p).0 parts.0, (pipelines_errors_iff max_wip ps).0 parts.1),
  λ v.
      (append-nil_iff (pipeline_errors max_wip name p) (pipelines_errors max_wip ps)).1
        ((pipeline_errors_iff max_wip name p).1 v.0, (pipelines_errors_iff max_wip ps).1 v.1),
)

pub model_errors_iff : (m : Option String) → (model_errors m ≡ []) ↔ IsModel m
unfolding model_errors
model_errors_iff none = (λ h. tt, λ h. refl)
model_errors_iff (some m) = ground arith

config_errors_iff : (c : PhaseGolemConfig) → (config_errors c ≡ []) ↔ IsValid c
unfolding config_errors
config_errors_iff c =
    let of_pipelines = pipelines_errors c.execution.max_wip c.pipelines in
    ground (
      arith,
      model_errors_iff c.agent.model,
      pipelines_errors_iff c.execution.max_wip c.pipelines,
      append-nil_iff (model_errors c.agent.model) of_pipelines,
    )

-- `validate` accepts a configuration exactly when both limits are at least 1, the model name is
-- absent or a text of allowed characters that does not begin with a dash, and every pipeline has a
-- main phase, has phase names that differ across its two lists, has no destructive pre-phase and,
-- when more than one item may be in progress, has no phase that blocks on staleness.
pub validate_iff : (c : PhaseGolemConfig) → (validate c ≡ ok tt) ↔ IsValid c
unfolding validate
validate_iff c = ground (arith, config_errors_iff c)
