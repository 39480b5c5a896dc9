-- ===== src/Preflight/Agreement.antt =====
-- `validate_structure` (src/preflight.rs) against `validate` (src/config.rs).
use phase_golem.Prelude.{
  ℕ, suc, String, ◌≡◌, refl, ◌↔◌, false, List, [], ◌∷◌, ◌++◌, All, append-nil_iff, ltb, string_eq,
  arith, if◌then◌else◌, ok,
}
use phase_golem.Config.{PhaseConfig, PipelineConfig, Pipelines, PhaseGolemConfig}
use phase_golem.Config.Checks.{is_block, model_errors, validate}
use phase_golem.Config.Valid.{IsDistinct, IsValidPipeline, validate_iff, model_errors_iff}
use phase_golem.Preflight.Structure.{
  unique_errors, seen_after, shared_errors, blocking_errors, structure_errors, all_structure_errors,
  validate_structure,
}

unique_errors_iff :
    (name field : String) (i : ℕ) (seen : List String) (ps : List PhaseConfig)
    → (unique_errors name field i seen ps ≡ []) ↔ IsDistinct seen ps
unfolding unique_errors
unique_errors_iff name field i seen [] = (λ h. tt, λ h. refl)
unique_errors_iff name field i seen (p ∷ ps) =
    ground (arith, unique_errors_iff name field (suc i) (p.name ∷ seen) ps)

shared_errors_iff :
    (name : String) (i : ℕ) (ps : List PhaseConfig)
    → (shared_errors name i ps ≡ []) ↔ All (λ q. q.is_destructive ≡ false) ps
unfolding shared_errors
shared_errors_iff name i [] = (λ h. tt, λ h. refl)
shared_errors_iff name i (p ∷ ps) = ground (arith, shared_errors_iff name (suc i) ps)

blocking_errors_iff :
    (name : String) (ps : List PhaseConfig)
    → (blocking_errors name ps ≡ []) ↔ All (λ q. is_block q.staleness ≡ false) ps
unfolding blocking_errors
blocking_errors_iff name [] = (λ h. tt, λ h. refl)
blocking_errors_iff name (p ∷ ps) = ground (arith, blocking_errors_iff name ps)

IsDistinct-append :
    (seen : List String) (front back : List PhaseConfig)
    → IsDistinct seen (front ++ back)
      ↔ (IsDistinct seen front × IsDistinct (seen_after seen front) back)
unfolding seen_after
IsDistinct-append seen [] back = (λ h. (tt, h), λ h. h.1)
IsDistinct-append seen (p ∷ front) back =
    let rest = IsDistinct-append (p.name ∷ seen) front back in
    (λ h. let r = rest.0 h.1 in ((h.0, r.0), r.1), λ h. (h.0.0, rest.1 (h.0.1, h.1)))

structure_errors_iff :
    (max_wip : ℕ) (name : String) (p : PipelineConfig)
    → (structure_errors max_wip name p ≡ []) ↔ IsValidPipeline max_wip p
unfolding structure_errors
structure_errors_iff max_wip name p =
    let both = p.pre_phases ++ p.phases in
    let gated = if ltb 1 max_wip then blocking_errors name both else [] in
    let shared = shared_errors name 0 p.pre_phases in
    let later = unique_errors name "phases" 0 (seen_after [] p.pre_phases) p.phases in
    let early = unique_errors name "pre_phases" 0 [] p.pre_phases in
    ground (
      arith,
      unique_errors_iff name "pre_phases" 0 [] p.pre_phases,
      unique_errors_iff name "phases" 0 (seen_after [] p.pre_phases) p.phases,
      IsDistinct-append [] p.pre_phases p.phases,
      shared_errors_iff name 0 p.pre_phases,
      blocking_errors_iff name both,
      append-nil_iff early (later ++ (shared ++ gated)),
      append-nil_iff later (shared ++ gated),
      append-nil_iff shared gated,
    )

all_structure_errors_iff :
    (max_wip : ℕ) (ps : Pipelines)
    → (all_structure_errors max_wip ps ≡ []) ↔ All (λ e. IsValidPipeline max_wip e.1) ps
unfolding all_structure_errors
all_structure_errors_iff max_wip [] = (λ h. tt, λ h. refl)
all_structure_errors_iff max_wip ((name, p) ∷ ps) =
    let split =
      append-nil_iff (structure_errors max_wip name p) (all_structure_errors max_wip ps) in
    let one = structure_errors_iff max_wip name p in
    let rest = all_structure_errors_iff max_wip ps in
    (λ h. let r = split.0 h in (one.0 r.0, rest.0 r.1), λ v. split.1 (one.1 v.0, rest.1 v.1))

-- The configuration is accepted exactly when the structural check before a run reports nothing and
-- the check of the model name finds no error.
pub validate-validate_structure_iff :
    (c : PhaseGolemConfig)
    → (validate c ≡ ok tt) ↔ ((validate_structure c ≡ []) × (model_errors c.agent.model ≡ []))
unfolding validate_structure
validate-validate_structure_iff c = ground (
  arith,
  validate_iff c,
  all_structure_errors_iff c.execution.max_wip c.pipelines,
  model_errors_iff c.agent.model,
)
