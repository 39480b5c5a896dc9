-- ===== src/Executor/Run.antt =====
-- `execute_phase` of src/executor.rs. What it asks of git, of the file system and of the agent
-- process is a parameter: an `Environment` answers each call.
use phase_golem.Prelude.{
  ℕ, zero, suc, ◌+◌, ◌^◌, ◌%◌, String, Bool, Option, none, some, [], ◌∷◌, if◌then◌else◌, leb,
  concat, decimal, unwrap_or, Result, ok, err,
}
use phase_golem.Types.{
  PhaseResult, ResultCode, phase_complete, PhaseExecutionResult, success, cancelled,
}
use phase_golem.PgItem.{Item}
use phase_golem.Config.{PhaseConfig, PhaseGolemConfig}
use phase_golem.Executor.{
  validate_result_identity, StalenessResult, proceed, warned, blocks, check_staleness,
}

-- How one run of the agent under `tokio::select!` ends.
pub data AgentRun : Type 0 where
  finished : Result String PhaseResult → AgentRun
  interrupted : AgentRun

-- `is_cancelled` and `run_agent` are asked at each attempt; the prompt differs between attempts only
-- by the failure context.
pub record Environment : Type 0 where
  pub is_ancestor : String → Result String Bool
  pub head_sha : Result String String
  pub record_phase_start : String → String → Result String (Unit {0})
  pub change_folder : String → String → Result String String
  pub is_cancelled : ℕ → Bool
  pub run_agent : ℕ → Option String → AgentRun

-- What an attempt settles: a final result, or a failure to retry with its text.
pub data Attempt : Type 0 where
  final : PhaseExecutionResult → Attempt
  retry : (kind : String) (text : String) → Attempt

abbrev settle_code : ResultCode → PhaseResult → Attempt
settle_code ResultCode.subphase_complete r = final (PhaseExecutionResult.subphase_complete r)
settle_code phase_complete r = final (success r)
settle_code ResultCode.blocked r =
    final (PhaseExecutionResult.blocked (unwrap_or r.summary r.context))
settle_code ResultCode.failed r = retry "Last failure: " r.summary

abbrev settle_checked : Result String (Unit {0}) → PhaseResult → Attempt
settle_checked (err e) r = final (PhaseExecutionResult.failed e)
settle_checked (ok _) r = settle_code r.result r

abbrev settle_run : String → String → AgentRun → Attempt
settle_run item_id phase interrupted = final cancelled
settle_run item_id phase (finished (err e)) = retry "Last error: " e
settle_run item_id phase (finished (ok r)) =
    settle_checked (validate_result_identity r item_id phase) r

-- The body of the loop up to the test of `attempt >= max_attempts`.
unfoldable pub attempt_once : Environment → String → String → ℕ → Option String → Attempt
attempt_once env item_id phase attempt context =
    if env.is_cancelled attempt
    then final cancelled
    else settle_run item_id phase (env.run_agent attempt context)

abbrev pub exhausted : String → ℕ → String → String → PhaseExecutionResult
exhausted phase attempt kind text = PhaseExecutionResult.failed (
    concat
      ("Phase " ∷ phase ∷ " failed after " ∷ decimal attempt ∷ " attempts. " ∷ kind ∷ text ∷ []))

-- `for attempt in 1..=max_attempts`, with the attempts left; at zero stands the fallback after the
-- loop.
unfoldable pub retry_loop :
    Environment → String → String → ℕ → ℕ → ℕ → Option String → PhaseExecutionResult
retry_loop env item_id phase max zero attempt context =
    PhaseExecutionResult.failed
      (concat ("Phase " ∷ phase ∷ " failed: retry loop exited unexpectedly" ∷ []))
retry_loop env item_id phase max (suc left) attempt context =
    elim (attempt_once env item_id phase attempt context) [
      | final r ↦ r
      | retry kind text ↦
          let next = retry_loop env item_id phase max left (suc attempt) (some text) in
          if leb max attempt then exhausted phase attempt kind text else next
    ]

-- `max_retries + 1` on `u32`, as a release build computes it.
abbrev pub max_attempts : ℕ → ℕ
max_attempts max_retries = (max_retries + 1) % 2 ^ 32

abbrev start_loop :
    Environment
    → Item
    → PhaseConfig
    → PhaseGolemConfig
    → Result String (Unit {0})
    → PhaseExecutionResult
unfolding retry_loop
start_loop env item phase_config config (err e) =
    PhaseExecutionResult.failed (concat ("Failed to record phase start: " ∷ e ∷ []))
start_loop env item phase_config config (ok _) = elim (env.change_folder item.id item.title) [
  | err e ↦ PhaseExecutionResult.failed e
  | ok folder ↦
      retry_loop env item.id phase_config.name (max_attempts config.execution.max_retries)
        (max_attempts config.execution.max_retries) 1 none
]

abbrev after_staleness :
    Environment
    → Item
    → PhaseConfig
    → PhaseGolemConfig
    → Result String String
    → PhaseExecutionResult
unfolding retry_loop
after_staleness env item phase_config config (err e) =
    PhaseExecutionResult.failed (concat ("Failed to get HEAD SHA: " ∷ e ∷ []))
after_staleness env item phase_config config (ok sha) =
    start_loop env item phase_config config (env.record_phase_start item.id sha)

-- The check is made for destructive phases only.
unfoldable pub staleness_before : Environment → Item → PhaseConfig → StalenessResult
staleness_before env item phase_config =
    if phase_config.is_destructive
    then check_staleness env.is_ancestor item phase_config
    else proceed

unfoldable pub execute_phase :
    Environment → Item → PhaseConfig → PhaseGolemConfig → PhaseExecutionResult
unfolding retry_loop
execute_phase env item phase_config config = elim (staleness_before env item phase_config) [
  | proceed ↦ after_staleness env item phase_config config env.head_sha
  | warned ↦ after_staleness env item phase_config config env.head_sha
  | blocks reason ↦ PhaseExecutionResult.blocked reason
]
