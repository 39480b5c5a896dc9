-- ===== src/Executor/Transition.antt =====
-- When `resolve_transition` of src/executor.rs lets an item into the pipeline, and when it ends it.
use phase_golem.Prelude.{
  String, ◌≡◌, ◌≢◌, ◌↔◌, Bool, true, false, Option, none, some, any, arith, eq_iff, ok, unwrap_or,
}
use phase_golem.Types.{
  ready, done, ItemUpdate, transition_status, SizeLevel, small, large, DimensionLevel, low, high,
  phase_complete, pre, main, PhaseResult,
}
use phase_golem.PgItem.{Item}
use phase_golem.PgItem.Getters.{phase_pool, requires_human_review, size, complexity, risk}
use phase_golem.Config.{PipelineConfig, GuardrailsConfig}
use phase_golem.Executor.{
  validate_result_identity, passes_guardrails, is_last_phase, finish_pre, resolve_phase_complete,
  resolve_transition,
}

-- A result is accepted as the answer to an item and a phase exactly when it names both.
pub validate_result_identity_iff :
    (result : PhaseResult) (item_id phase : String)
    → (validate_result_identity result item_id phase ≡ ok tt)
      ↔ ((result.item_id ≡ item_id) × (result.phase ≡ phase))
unfolding validate_result_identity
validate_result_identity_iff result item_id phase =
    ground (arith, eq_iff result.item_id item_id, eq_iff result.phase phase)

-- A level that is known is no higher than the bound.
abbrev SizeWithin : Option SizeLevel → SizeLevel → Type 0
SizeWithin none max = Unit
SizeWithin (some small) max = Unit
SizeWithin (some SizeLevel.medium) max = max ≢ small
SizeWithin (some large) max = max ≡ large

abbrev LevelWithin : Option DimensionLevel → DimensionLevel → Type 0
LevelWithin none max = Unit
LevelWithin (some low) max = Unit
LevelWithin (some DimensionLevel.medium) max = max ≢ low
LevelWithin (some high) max = max ≡ high

-- What lets an item that completes its last pre-phase into the pipeline.
pub record MayEnter (item : Item) (g : GuardrailsConfig) : Type 0 where
  pub unreviewed : requires_human_review item ≡ false
  pub small_enough : SizeWithin (size item) g.max_size
  pub simple_enough : LevelWithin (complexity item) g.max_complexity
  pub safe_enough : LevelWithin (risk item) g.max_risk

abbrev pub readies : ItemUpdate → Bool
readies (transition_status ready) = true
readies _ = false

abbrev pub finishes : ItemUpdate → Bool
finishes (transition_status done) = true
finishes _ = false

-- The updates that follow a phase result hold a move to ready exactly when the result completes
-- the last pre-phase of the pipeline, the item is in the pre-phases, no human review is asked for,
-- and its size, complexity and risk, as far as they are known, lie within the guardrails.
pub resolve_transition-ready_iff :
    (item : Item) (result : PhaseResult) (pipeline : PipelineConfig) (g : GuardrailsConfig)
    → (any readies (resolve_transition item result pipeline g) ≡ true) ↔ (
        (result.result ≡ phase_complete)
        × (phase_pool item ≡ some pre)
        × (is_last_phase pipeline.pre_phases result.phase ≡ true)
        × MayEnter item g)
unfolding resolve_transition resolve_phase_complete finish_pre passes_guardrails
resolve_transition-ready_iff item result pipeline g = ground arith

finish_pre-not_finishes :
    (item : Item) (g : GuardrailsConfig) → any finishes (finish_pre item g) ≡ false
unfolding finish_pre
finish_pre-not_finishes item g = ground arith

-- The transition that follows a phase result ends the item exactly when the result completes the
-- last main phase of the pipeline and the item is not in the pre-phases.
pub resolve_transition-done_iff :
    (item : Item) (result : PhaseResult) (pipeline : PipelineConfig) (g : GuardrailsConfig)
    → (any finishes (resolve_transition item result pipeline g) ≡ true) ↔ (
        (result.result ≡ phase_complete)
        × (unwrap_or main (phase_pool item) ≡ main)
        × (is_last_phase pipeline.phases result.phase ≡ true))
unfolding resolve_transition
resolve_transition-done_iff item result pipeline g = ground (arith, finish_pre-not_finishes item g)
