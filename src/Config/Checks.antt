-- ===== src/Config/Checks.antt =====
-- `validate` of src/config.rs: the list of the configuration's errors.
use Prim.Native.Char.{code}
use phase_golem.Prelude.{
  ℕ, String, Bool, true, false, not, ◌&&◌, ◌||◌, Option, none, some, List, [], ◌∷◌, ◌++◌, any,
  if◌then◌else◌, ltb, leb, eqb, ◌==◌, string_eq, is_empty, str_is_empty, concat, Result, ok, err,
}
use phase_golem.Config.{
  PhaseConfig, PipelineConfig, Pipelines, PhaseGolemConfig, StalenessAction, ignore, warn, block,
}

-- `char::is_ascii_alphanumeric`.
abbrev pub is_ascii_alphanumeric : ℕ → Bool
is_ascii_alphanumeric n =
    (leb b'0' n && leb n b'9') || (leb b'A' n && leb n b'Z') || (leb b'a' n && leb n b'z')

abbrev pub is_model_char : ℕ → Bool
is_model_char n = is_ascii_alphanumeric n || eqb n b'.' || eqb n b'_' || eqb n b'/' || eqb n b'-'

unfoldable pub all_model_chars : String → Bool
all_model_chars String.[] = true
all_model_chars (String.◌∷◌ c s) = is_model_char (code c) && all_model_chars s

abbrev pub starts_with_dash : String → Bool
starts_with_dash String.[] = false
starts_with_dash (String.◌∷◌ c s) = eqb (code c) b'-'

unfoldable pub model_errors : Option String → List String
unfolding all_model_chars
model_errors none = []
model_errors (some model) =
    if not (not (str_is_empty model) && all_model_chars model)
    then "agent.model contains invalid characters (allowed: alphanumeric, '.', '_', '/', '-')" ∷ []
    else if starts_with_dash model
    then "agent.model must not start with '-' (flag-like values are rejected)" ∷ []
    else []

abbrev pub is_block : StalenessAction → Bool
is_block ignore = false
is_block warn = false
is_block block = true

-- The loop with the `HashSet` of the names seen.
unfoldable pub duplicate_errors : String → List String → List PhaseConfig → List String
duplicate_errors pipeline seen [] = []
duplicate_errors pipeline seen (p ∷ ps) =
    let rest = duplicate_errors pipeline (p.name ∷ seen) ps in
    if any (λ s. s == p.name) seen
    then concat ("pipelines." ∷ pipeline ∷ ": duplicate phase name '" ∷ p.name ∷ "'" ∷ []) ∷ rest
    else rest

unfoldable pub destructive_errors : String → List PhaseConfig → List String
destructive_errors pipeline [] = []
destructive_errors pipeline (p ∷ ps) =
    let rest = destructive_errors pipeline ps in
    if p.is_destructive
    then concat
        ("pipelines." ∷ pipeline ∷ ": pre_phase '" ∷ p.name ∷ "' cannot be destructive" ∷ [])
      ∷ rest
    else rest

unfoldable pub staleness_errors : String → List PhaseConfig → List String
staleness_errors pipeline [] = []
staleness_errors pipeline (p ∷ ps) =
    let rest = staleness_errors pipeline ps in
    if is_block p.staleness
    then concat (
        "pipelines." ∷ pipeline ∷ ": phase '" ∷ p.name
        ∷ "' uses staleness 'block' which is incompatible with max_wip > 1" ∷ [])
      ∷ rest
    else rest

unfoldable pub pipeline_errors : ℕ → String → PipelineConfig → List String
pipeline_errors max_wip name p =
    (if is_empty p.phases
      then concat ("pipelines." ∷ name ∷ ": must have at least one main phase" ∷ []) ∷ []
      else [])
    ++ (duplicate_errors name [] (p.pre_phases ++ p.phases)
        ++ (destructive_errors name p.pre_phases
            ++ (if ltb 1 max_wip then staleness_errors name (p.pre_phases ++ p.phases) else [])))

unfoldable pub pipelines_errors : ℕ → Pipelines → List String
pipelines_errors max_wip [] = []
pipelines_errors max_wip ((name, p) ∷ ps) =
    pipeline_errors max_wip name p ++ pipelines_errors max_wip ps

unfoldable pub config_errors : PhaseGolemConfig → List String
config_errors c =
    (if ltb c.execution.max_wip 1 then "execution.max_wip must be >= 1" ∷ [] else [])
    ++ ((if ltb c.execution.max_concurrent 1
          then "execution.max_concurrent must be >= 1" ∷ []
          else [])
        ++ (model_errors c.agent.model ++ pipelines_errors c.execution.max_wip c.pipelines))

abbrev pub ok_if_empty : List String → Result (List String) (Unit {0})
ok_if_empty [] = ok tt
ok_if_empty (e ∷ es) = err (e ∷ es)

unfoldable pub validate : PhaseGolemConfig → Result (List String) (Unit {0})
unfolding config_errors
validate c = ok_if_empty (config_errors c)
