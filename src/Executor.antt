-- ===== src/Executor.antt =====
-- src/executor.rs: identity and staleness checks, guardrails, and the transition that follows a
-- completed phase.
pub mod Run
pub mod Retry
pub mod Transition
pub mod Phases
pub mod Progress
use phase_golem.Prelude.{
  ℕ, suc, String, Bool, true, false, not, ◌&&◌, Option, none, some, List, [], ◌∷◌, ◌++◌,
  if◌then◌else◌, leb, ◌==◌, string_eq, last, position, get_elem?, concat, join, Result, ok, err,
  unwrap_or,
}
use phase_golem.Types.{
  ItemStatus, ItemUpdate, ResultCode, phase_complete, SizeLevel, small, large, DimensionLevel, low,
  high, PhasePool, pre, main, PhaseResult, clear_phase, transition_status,
}
use phase_golem.PgItem.{Item}
use phase_golem.PgItem.Getters.{
  phase_pool, requires_human_review, size, complexity, risk, last_phase_commit,
}
use phase_golem.Config.{
  PhaseConfig, PipelineConfig, GuardrailsConfig, StalenessAction, ignore, warn, block,
}

abbrev mismatch : String → String → String → List String
mismatch field expected got =
    if got == expected
    then []
    else concat (field ∷ ": expected '" ∷ expected ∷ "', got '" ∷ got ∷ "'" ∷ []) ∷ []

abbrev ok_unless : List String → Result String (Unit {0})
ok_unless [] = ok tt
ok_unless (m ∷ ms) = err (concat ("Result identity mismatch: " ∷ join "; " (m ∷ ms) ∷ []))

unfoldable pub validate_result_identity : PhaseResult → String → String → Result String (Unit {0})
validate_result_identity result expected_item_id expected_phase = ok_unless (
    mismatch "item_id" expected_item_id result.item_id
    ++ mismatch "phase" expected_phase result.phase)

pub data StalenessResult : Type 0 where
  proceed warned : StalenessResult
  blocks : String → StalenessResult

abbrev stale : StalenessAction → String → StalenessResult
stale ignore sha = proceed
stale warn sha = warned
stale block sha =
    blocks (concat ("Stale: prior phase based on commit " ∷ sha ∷ " no longer in history" ∷ []))

abbrev staleness_of : StalenessAction → String → Result String Bool → StalenessResult
staleness_of action sha (ok true) = proceed
staleness_of action sha (ok false) = stale action sha
staleness_of action sha (err e) =
    blocks (concat ("Staleness check failed for commit " ∷ sha ∷ ": " ∷ e ∷ []))

abbrev check_commit :
    (String → Result String Bool) → StalenessAction → Option String → StalenessResult
check_commit is_ancestor action none = proceed
check_commit is_ancestor action (some sha) = staleness_of action sha (is_ancestor sha)

-- `is_ancestor` is the coordinator's answer from git.
unfoldable pub check_staleness :
    (is_ancestor : String → Result String Bool) → Item → PhaseConfig → StalenessResult
check_staleness is_ancestor item phase_config =
    check_commit is_ancestor phase_config.staleness (last_phase_commit item)

abbrev pub size_level_value : SizeLevel → ℕ
size_level_value small = 1
size_level_value SizeLevel.medium = 2
size_level_value large = 3

abbrev pub dimension_level_value : DimensionLevel → ℕ
dimension_level_value low = 1
dimension_level_value DimensionLevel.medium = 2
dimension_level_value high = 3

abbrev size_within : SizeLevel → Option SizeLevel → Bool
size_within max none = true
size_within max (some s) = leb (size_level_value s) (size_level_value max)

abbrev dimension_within : DimensionLevel → Option DimensionLevel → Bool
dimension_within max none = true
dimension_within max (some d) = leb (dimension_level_value d) (dimension_level_value max)

unfoldable pub passes_guardrails : Item → GuardrailsConfig → Bool
passes_guardrails item guardrails =
    size_within guardrails.max_size (size item)
    && dimension_within guardrails.max_complexity (complexity item)
    && dimension_within guardrails.max_risk (risk item)

abbrev pub is_named : String → PhaseConfig → Bool
is_named name p = p.name == name

abbrev name_at : List PhaseConfig → Option ℕ → Option String
name_at phases none = none
name_at phases (some i) = elim (get_elem? phases (suc i)) [ none ↦ none | some p ↦ some p.name ]

unfoldable pub next_phase_in_list : List PhaseConfig → String → Option String
next_phase_in_list phases current = name_at phases (position (is_named current) phases)

abbrev pub is_last_phase : List PhaseConfig → String → Bool
is_last_phase phases current = elim (last phases) [ none ↦ false | some p ↦ p.name == current ]

abbrev pub commit_update : Option String → List ItemUpdate
commit_update none = []
commit_update (some sha) = ItemUpdate.set_last_phase_commit sha ∷ []

-- The middle of a list: go to the next phase, or block if the phase is not in the list.
abbrev pub advance : Option String → Option String → String → String → List ItemUpdate
advance (some name) sha current where_from = ItemUpdate.set_phase name ∷ commit_update sha
advance none sha current where_from =
    ItemUpdate.set_blocked (concat ("Phase " ∷ current ∷ " not found in " ∷ where_from ∷ [])) ∷ []

unfoldable pub finish_pre : Item → GuardrailsConfig → List ItemUpdate
finish_pre item guardrails =
    if requires_human_review item
    then ItemUpdate.set_blocked "Requires human review before entering pipeline" ∷ []
    else if not (passes_guardrails item guardrails)
    then ItemUpdate.set_blocked "Exceeds autonomous guardrail thresholds" ∷ []
    else clear_phase ∷ transition_status ItemStatus.ready ∷ []

abbrev pub complete_in :
    PhasePool → Item → PhaseResult → PipelineConfig → GuardrailsConfig → List ItemUpdate
complete_in pre item result pipeline guardrails =
    if is_last_phase pipeline.pre_phases result.phase
    then finish_pre item guardrails
    else advance (next_phase_in_list pipeline.pre_phases result.phase) result.based_on_commit
        result.phase "pre_phases"
complete_in main item result pipeline guardrails =
    if is_last_phase pipeline.phases result.phase
    then transition_status ItemStatus.done ∷ []
    else advance (next_phase_in_list pipeline.phases result.phase) result.based_on_commit
        result.phase "pipeline phases"

unfoldable pub resolve_phase_complete :
    Item → PhaseResult → PipelineConfig → GuardrailsConfig → List ItemUpdate
resolve_phase_complete item result pipeline guardrails =
    complete_in (unwrap_or main (phase_pool item)) item result pipeline guardrails

abbrev pub resolve_code :
    ResultCode → Item → PhaseResult → PipelineConfig → GuardrailsConfig → List ItemUpdate
resolve_code phase_complete item result pipeline guardrails =
    resolve_phase_complete item result pipeline guardrails
resolve_code ResultCode.failed item result pipeline guardrails =
    ItemUpdate.set_blocked (
      concat (
        "Phase " ∷ result.phase ∷ " failed after retries exhausted. Last failure: " ∷ result.summary
        ∷ []))
    ∷ []
resolve_code ResultCode.blocked item result pipeline guardrails =
    ItemUpdate.set_blocked (unwrap_or result.summary result.context) ∷ []
resolve_code ResultCode.subphase_complete item result pipeline guardrails = []

unfoldable pub resolve_transition :
    Item → PhaseResult → PipelineConfig → GuardrailsConfig → List ItemUpdate
unfolding resolve_phase_complete
resolve_transition item result pipeline guardrails =
    resolve_code result.result item result pipeline guardrails
