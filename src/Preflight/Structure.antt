-- ===== src/Preflight/Structure.antt =====
-- `validate_structure` of src/preflight.rs: the check of the configuration with richer errors.
use phase_golem.Prelude.{
  ℕ, suc, String, List, [], ◌∷◌, ◌++◌, any, if◌then◌else◌, ltb, ◌==◌, string_eq, is_empty, concat,
  decimal,
}
use phase_golem.Config.{PhaseConfig, PipelineConfig, Pipelines, PhaseGolemConfig}
use phase_golem.Config.Checks.{is_block}
use phase_golem.Preflight.{PreflightError}

abbrev no_main_phases : String → PreflightError
no_main_phases name = record {
  condition = concat ("Pipeline \"" ∷ name ∷ "\" has no main phases" ∷ []);
  config_location = concat ("phase-golem.toml → pipelines." ∷ name ∷ ".phases" ∷ []);
  suggested_fix = "Add at least one phase to the phases array";
}

abbrev duplicate_phase : String → String → ℕ → PhaseConfig → PreflightError
duplicate_phase name field index p = record {
  condition = concat ("Duplicate phase name \"" ∷ p.name ∷ "\" in pipeline \"" ∷ name ∷ "\"" ∷ []);
  config_location =
      concat
        ("phase-golem.toml → pipelines." ∷ name ∷ "." ∷ field ∷ "[" ∷ decimal index ∷ "]" ∷ []);
  suggested_fix = "Use unique phase names within a pipeline";
}

abbrev destructive_pre_phase : String → ℕ → PhaseConfig → PreflightError
destructive_pre_phase name index p = record {
  condition =
      concat
        ("Pre-phase \"" ∷ p.name ∷ "\" in pipeline \"" ∷ name ∷ "\" cannot be destructive" ∷ []);
  config_location = concat (
      "phase-golem.toml → pipelines."
      ∷ name
      ∷ ".pre_phases["
      ∷ decimal index
      ∷ "].destructive"
      ∷ []);
  suggested_fix =
      "Remove the destructive flag from pre_phases (only main phases can be destructive)";
}

abbrev blocking_phase : String → PhaseConfig → PreflightError
blocking_phase name p = record {
  condition = concat (
      "Phase \"" ∷ p.name ∷ "\" in pipeline \"" ∷ name
      ∷ "\" uses staleness \"block\" which is incompatible with max_wip > 1" ∷ []);
  config_location = concat (
      "phase-golem.toml → pipelines." ∷ name ∷ " → phase \"" ∷ p.name
      ∷ "\" staleness + execution.max_wip" ∷ []);
  suggested_fix = "Either set max_wip to 1 or change staleness to \"warn\" or \"ignore\"";
}

-- The two loops over one `HashSet` of names: the second starts with the names of the first.
unfoldable pub unique_errors :
    String → String → ℕ → List String → List PhaseConfig → List PreflightError
unique_errors name field index seen [] = []
unique_errors name field index seen (p ∷ ps) =
    let rest = unique_errors name field (suc index) (p.name ∷ seen) ps in
    if any (λ s. s == p.name) seen then duplicate_phase name field index p ∷ rest else rest

unfoldable pub seen_after : List String → List PhaseConfig → List String
seen_after seen [] = seen
seen_after seen (p ∷ ps) = seen_after (p.name ∷ seen) ps

unfoldable pub shared_errors : String → ℕ → List PhaseConfig → List PreflightError
shared_errors name index [] = []
shared_errors name index (p ∷ ps) =
    let rest = shared_errors name (suc index) ps in
    if p.is_destructive then destructive_pre_phase name index p ∷ rest else rest

unfoldable pub blocking_errors : String → List PhaseConfig → List PreflightError
blocking_errors name [] = []
blocking_errors name (p ∷ ps) =
    let rest = blocking_errors name ps in
    if is_block p.staleness then blocking_phase name p ∷ rest else rest

unfoldable pub structure_errors : ℕ → String → PipelineConfig → List PreflightError
structure_errors max_wip name p =
    (if is_empty p.phases then no_main_phases name ∷ [] else [])
    ++ (unique_errors name "pre_phases" 0 [] p.pre_phases
        ++ (unique_errors name "phases" 0 (seen_after [] p.pre_phases) p.phases
            ++ (shared_errors name 0 p.pre_phases
                ++ (if ltb 1 max_wip
                    then blocking_errors name (p.pre_phases ++ p.phases)
                    else []))))

unfoldable pub all_structure_errors : ℕ → Pipelines → List PreflightError
all_structure_errors max_wip [] = []
all_structure_errors max_wip ((name, p) ∷ ps) =
    structure_errors max_wip name p ++ all_structure_errors max_wip ps

abbrev limit_error : String → PreflightError
limit_error name = record {
  condition = concat (name ∷ " must be >= 1" ∷ []);
  config_location = concat ("phase-golem.toml → execution." ∷ name ∷ []);
  suggested_fix = concat ("Set " ∷ name ∷ " to at least 1" ∷ []);
}

unfoldable pub validate_structure : PhaseGolemConfig → List PreflightError
unfolding all_structure_errors
validate_structure c =
    (if ltb c.execution.max_wip 1 then limit_error "max_wip" ∷ [] else [])
    ++ ((if ltb c.execution.max_concurrent 1 then limit_error "max_concurrent" ∷ [] else [])
        ++ all_structure_errors c.execution.max_wip c.pipelines)
