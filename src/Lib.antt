-- ===== src/Lib.antt =====
-- A verification library for phase-golem, an orchestrator that moves work items through pipelines of
-- phases, each of which an AI agent runs.
--
-- The program. A backlog of items lives in a store of the task-golem library. Each item carries the
-- program's own state in extension fields. The scheduler takes a snapshot, chooses actions
-- (promote, triage, run a phase), and starts a task for each; the executor runs a phase with its
-- retries and resolves its result to updates of the item; the updates are applied to the item. Filters
-- restrict a run to some of the items, and preflight checks look at the items before it. The
-- configuration gives the pipelines and the limits. The coordinator is an actor that serves the others'
-- requests to the store and to git one by one; when a task ends, the scheduler asks it for what
-- follows from the result.
--
-- The files.
--   Prelude: names, tests, lists, maps, texts and the stable sort that the others share.
--   Types (src/types.rs): `ItemStatus` and the other enums, `is_valid_transition`, `ItemUpdate`,
--     `PhaseResult`, `SchedulerAction`. Types/Transitions has the transition relation, Types/Parse
--     the parsers and printers.
--   PgItem (src/pg_item.rs): the item record and the extension keys; PgItem/Getters and
--     PgItem/Setters have the function of the source's name for each field; PgItem/Update has
--     `apply_update`, with its longer branches as functions (`apply_transition`, `apply_set_blocked`,
--     `apply_unblock`). PgItem/Lifecycle, PgItem/Blocking and PgItem/Fields hold proofs.
--   Config (src/config.rs): the settings, their defaults, normalisation; Config/Checks has
--     `validate`, with one function for each of its loops; Config/Valid its proofs.
--   Executor (src/executor.rs): `validate_result_identity`, `check_staleness`, `passes_guardrails`,
--     `resolve_transition`; Executor/Run has `execute_phase` and its retry loop. Executor/Retry,
--     Executor/Transition, Executor/Phases and Executor/Progress hold proofs; the last one
--     follows one item through the updates that `resolve_transition` asks for, without the
--     coordinator between them.
--   Scheduler (src/scheduler.rs): the running tasks and the run's state; Scheduler/Items has the
--     queues, the dependencies and `build_run_phase_action`; Scheduler/Select has `select_actions`;
--     Scheduler/Target has `select_targeted_actions` and `advance_to_next_active_target`;
--     Scheduler/Spawn has the loop of `run_scheduler` that carries out the chosen actions;
--     Scheduler/Completion, Scheduler/Duplicates, Scheduler/Triage and Scheduler/Drain have
--     `handle_task_completion`, what it calls, and `drain_join_set`, over the interface
--     `CoordinatorHandle`; Scheduler/Halting and Scheduler/Loop have `run_scheduler`, and the latter
--     `handle_promote`, as `promote`; Scheduler/Served and Scheduler/Promoted put the actor behind the
--     handle. The other files of Scheduler hold proofs.
--   PgError (src/pg_error.rs): the errors and their kinds.
--   Coordinator (src/coordinator.rs): the actor's state, the record `World` of the calls of other
--     code, and `with_store_retry`; Coordinator/Messages has the commit messages, Coordinator/Edits
--     and Coordinator/Store the handlers that change items, Coordinator/Commands the other ones and
--     the loop of `run_coordinator`, Coordinator/Handle `CoordinatorHandle`. Coordinator/Laws states
--     what the code relies on in the `World`; the other files of Coordinator hold proofs.
--   Filter (src/filter.rs): the criteria; Filter/Parse and Filter/Apply have the functions,
--     Filter/Parsed, Filter/Met and Filter/Combined the proofs.
--   Preflight (src/preflight.rs): `validate_items` and `validate_duplicate_ids`; Preflight/Structure
--     has `validate_structure`. Preflight/Placed, Preflight/Unique and Preflight/Agreement hold proofs.
--   Prelude/Actions: actions on a state that may fail, and what they keep.
--   Samples: the small inputs on which the theorems are applied.
--
-- How the model reads the code. Mutation of an item is a function from the item to the changed item.
-- A `DateTime` is a number, and `Utc::now()` the argument `now`: the reads of the clock in one
-- mutation fall on one tick. The extension map is a function from keys to optional JSON values; a
-- `HashMap` is an association list. The fields and statuses of a task-golem item are those that
-- src/pg_item.rs writes and matches. `serde_json`'s encoding and decoding of a description and
-- `str::to_lowercase` are parameters. Numbers of type `u32` are natural numbers, with `% 2 ^ 32` where
-- the code adds to a limit (`max_retries + 1`) or casts a count (`as u32`); subtraction on them is the
-- code's `saturating_sub`. The counter of executed phases grows only below the cap, which is a `u32`,
-- and so needs no wrap-around. `sort_by`, which is stable, is insertion sort. Log lines are left out.
--
-- Fuel and termination. Loops over lists are structural recursion. The retry loop recurses on the
-- attempts that are left, of which there are `max_attempts` at first, as in the source's range; the
-- text that follows the loop is the result at zero. A number is printed with itself as fuel, which
-- is more than its digits.
--
-- What the executor asks of git, of the file system, of the agent and of the cancellation token is
-- answered by an `Environment`. What a promotion does to the store is a parameter of the loop over
-- the chosen actions, and in Scheduler/Loop the requests that `handle_promote` makes.
--
-- The coordinator and the scheduler are actions on a state that keep what they did before an error.
-- task-golem's store, git and the files are a `World`, of which every call may fail at any time; a
-- thread that panics fails before it changes the store. A reply that nobody waits for is left out, and
-- so are the requests of tasks that run beside a completion. The bound of the retry is the source's
-- MAX_STORE_ATTEMPTS; the counters `follow_ups_created`, `items_merged` and `consecutive_exhaustions`
-- wrap around as in a release build.
--
-- The main loop takes a list of turns, each with what it meets: the cancellation, and the tasks that
-- end. A run goes on where they end before it halts; one whose last turn is cancelled has ended.
--
-- Not modelled: the bodies of the spawned tasks around `execute_phase`, the probe of the store when the
-- coordinator starts, and the dependency graph and workflow probes of src/preflight.rs. Prompts, agent
-- processes, git commands, locks, the log, the worklog and the command line are text, or calls of the
-- operating system.
pub mod Prelude
pub mod Types
pub mod PgItem
pub mod Config
pub mod PgError
pub mod Coordinator
pub mod Executor
pub mod Filter
pub mod Scheduler
pub mod Preflight
pub mod Samples
