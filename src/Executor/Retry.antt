-- ===== src/Executor/Retry.antt =====
-- The retry loop of `execute_phase` (src/executor.rs).
use phase_golem.Prelude.{
  ℕ, zero, suc, ◌+◌, ◌^◌, ◌≤◌, ◌<◌, String, ◌≡◌, refl, ◌≢◌, ◌⊎◌, inl, inr, leb, Bool-cases, Option,
  none, some, arith, ok,
}
use phase_golem.Types.{PhaseExecutionResult}
use phase_golem.PgItem.{Item}
use phase_golem.Config.{PhaseConfig, PhaseGolemConfig}
use phase_golem.Executor.{StalenessResult, proceed, warned, blocks}
use phase_golem.Executor.Run.{
  Environment, Attempt, final, retry, attempt_once, exhausted, retry_loop, max_attempts,
  execute_phase, staleness_before,
}

module _ (env : Environment) (item_id phase : String) (max : ℕ) where
  -- Attempt number `n` is made with the failure text `context`: all before it failed.
  pub data Reaches : ℕ → Option String → Type 0 where
    first : Reaches 1 none
    again :
        {n : ℕ} {context : Option String} (kind text : String)
        → Reaches n context
        → attempt_once env item_id phase n context ≡ retry kind text
        → Reaches (suc n) (some text)

  -- Attempt number `n` settles the phase: by a final result, or as the last failure.
  pub data Settles (n : ℕ) (context : Option String) (r : PhaseExecutionResult) : Type 0 where
    by_result : attempt_once env item_id phase n context ≡ final r → Settles n context r
    by_exhaustion :
        (kind text : String)
        → attempt_once env item_id phase n context ≡ retry kind text
        → n ≡ max
        → r ≡ exhausted phase n kind text
        → Settles n context r

  pub record Settled (r : PhaseExecutionResult) : Type 0 where
    pub attempt : ℕ
    pub context : Option String
    pub in_range : attempt ≤ max
    pub reached : Reaches attempt context
    pub settled : Settles attempt context r

  Attempt-cases :
      (a : Attempt)
      → ((r : PhaseExecutionResult) × (a ≡ final r))
        ⊎ ((k : String) × (t : String) × (a ≡ retry k t))
  Attempt-cases (final r) = inl (r, refl)
  Attempt-cases (retry k t) = inr (k, t, refl)

  loop-Settled :
      (left n : ℕ) (context : Option String)
      → n + left ≡ suc max
      → n ≤ max
      → Reaches n context
      → Settled (retry_loop env item_id phase max left n context)
  unfolding retry_loop
  loop-Settled zero n context e le reached = absurd (omega arith)
  loop-Settled (suc left) n context e le reached =
      elim (Attempt-cases (attempt_once env item_id phase n context)) [
        | inl (r, a) ↦
            rw (a, retry_loop)
              (record {
                attempt = n;
                context = context;
                in_range = le;
                reached = reached;
                settled = by_result a;
              })
        | inr (k, t, a) ↦ elim (Bool-cases (leb max n)) [
          | inl at_end ↦
              rw (a, retry_loop, at_end)
                (record {
                  attempt = n;
                  context = context;
                  in_range = le;
                  reached = reached;
                  settled = by_exhaustion k t a (ground arith) refl;
                })
          | inr more ↦
              rw (a, retry_loop, more)
                (loop-Settled left (suc n) (some t) (omega arith) (ground arith)
                  (again k t reached a))
        ]
      ]

-- The two outcomes of the staleness check that let a phase start.
Passes-cases :
    (s : StalenessResult) → ((reason : String) → s ≢ blocks reason) → (s ≡ proceed) ⊎ (s ≡ warned)
Passes-cases proceed h = inl refl
Passes-cases warned h = inr refl
Passes-cases (blocks reason) h = absurd (h reason refl)

max_attempts-small : (n : ℕ) → suc n < 2 ^ 32 → max_attempts n ≡ suc n
max_attempts-small n h = omega arith

execute_phase-retry_loop :
    (env : Environment) (item : Item) (phase_config : PhaseConfig) (config : PhaseGolemConfig)
    (sha folder : String)
    → (staleness_before env item phase_config ≡ proceed)
      ⊎ (staleness_before env item phase_config ≡ warned)
    → env.head_sha ≡ ok sha
    → env.record_phase_start item.id sha ≡ ok tt
    → env.change_folder item.id item.title ≡ ok folder
    → execute_phase env item phase_config config
      ≡ retry_loop env item.id phase_config.name
          (max_attempts config.execution.max_retries)
          (max_attempts config.execution.max_retries)
          1
          none
unfolding execute_phase
execute_phase-retry_loop env item phase_config config sha folder (inl s) head started found =
    rw (s, execute_phase, head, started, found)
execute_phase-retry_loop env item phase_config config sha folder (inr s) head started found =
    rw (s, execute_phase, head, started, found)

-- Once the phase may start, executing it ends: with the result of one attempt, its number between 1
-- and `max_retries + 1`, that all earlier attempts failed before; either this attempt is final, or
-- it is the last one, fails too, and its failure is the one reported. This holds of every
-- `max_retries` below `u32::MAX`.
pub execute_phase-Settled :
    (env : Environment) (item : Item) (phase_config : PhaseConfig) (config : PhaseGolemConfig)
    (sha folder : String)
    → suc config.execution.max_retries < 2 ^ 32
    → ((reason : String) → staleness_before env item phase_config ≢ blocks reason)
    → env.head_sha ≡ ok sha
    → env.record_phase_start item.id sha ≡ ok tt
    → env.change_folder item.id item.title ≡ ok folder
    → Settled env item.id phase_config.name
        (suc config.execution.max_retries)
        (execute_phase env item phase_config config)
execute_phase-Settled env item phase_config config sha folder small fresh head started found =
    rw
      (
        execute_phase-retry_loop env item phase_config config sha folder
            (Passes-cases (staleness_before env item phase_config) fresh) head started found,
        max_attempts-small config.execution.max_retries small,
      )
      (loop-Settled env item.id phase_config.name (suc config.execution.max_retries)
        (suc config.execution.max_retries) 1 none (omega arith) (omega arith) first)
