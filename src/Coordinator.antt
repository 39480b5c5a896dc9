-- ===== src/Coordinator.antt =====
-- src/coordinator.rs: the state of the actor, what it asks of task-golem's store, of git and of the
-- file system, and the retry of store operations.
pub mod Messages
pub mod Edits
pub mod Store
pub mod Ids
pub mod Commands
pub mod Laws
pub mod Sound
pub mod Ingested
pub mod Handled
pub mod Served
pub mod Attempts
pub mod Steps
pub mod Outcomes
pub mod Arrivals
pub mod Moves
pub mod Merges
pub mod Replies
pub mod Handle
pub mod Counted
use phase_golem.Prelude.{
  ℕ, zero, suc, String, Bool, Option, none, some, List, if◌then◌else◌, ltb, unwrap_or, Result, ok,
  err,
}
use phase_golem.Prelude.Actions.{Action, ◌>>=◌, ◌>>◌, done, fail, skip, modify, recast}
use phase_golem.PgItem.{Item}
use phase_golem.PgError.{TgError, PgError, internal_panic, is_retryable, from_tg}

-- `StatusEntry` of src/git.rs.
pub record StatusEntry : Type 0 where
  pub status_code : String
  pub path : String

-- The calls of other code, as actions on the world `W`: task-golem's store and git module, the
-- commands of src/git.rs, the worklog files, the clock and tokio's threads. `lock` is what
-- `with_lock` does before its closure; `spawn_blocking` fails where the thread does.
pub record World (W : Type 0) : Type 0 where
  pub now : W → ℕ
  pub sleep : W → W
  pub spawn_blocking : Action String W (Unit {0})
  pub lock : Action TgError W (Unit {0})
  pub load_active : Action TgError W (List Item)
  pub all_known_ids : Action TgError W (List String)
  pub append_to_archive : Item → Action TgError W (Unit {0})
  pub save_active : List Item → Action TgError W (Unit {0})
  pub generate_id_with_prefix : List String → String → Action TgError W String
  pub write_archive_entry : Item → Action String W (Unit {0})
  pub write_entry : (id title phase outcome summary : String) → Action String W (Unit {0})
  pub in_root : String → String
  pub get_status : Action String W (List StatusEntry)
  pub stage_paths : List String → Action String W (Unit {0})
  pub stage_self : Action String W (Unit {0})
  pub commit : String → Action String W (Unit {0})
  pub get_head_sha : Action String W String
  pub is_ancestor : String → Action String W Bool

pub record CoordinatorState (W : Type 0) : Type 0 where
  pub world : W
  pub prefix : String
  pub pending_batch_phases : List (String × String × Option String)

abbrev pub max_store_attempts : ℕ
max_store_attempts = 3

module _ {W : Type 0} (world : World W) where
  abbrev pause : ℕ → Action PgError W (Unit {0})
  pause attempt = if ltb 0 attempt then modify world.sleep else skip

  -- The result of a finished attempt: a retryable error leads to the next one.
  abbrev pub decide :
      {A : Type 0} → (PgError → Action PgError W A) → Result PgError A → Action PgError W A
  decide again (ok a) = done a
  decide again (err e) = if is_retryable e then again e else fail e

  -- An operation whose thread ended, with its result as a value.
  abbrev pub run_once : {A : Type 0} → Action TgError W A → Action PgError W (Result PgError A)
  run_once op s = (ok (recast from_tg op s).0, (op s).1)

  -- `for attempt in 0..MAX_STORE_ATTEMPTS`, with the attempts left.
  unfoldable pub attempts :
      {A : Type 0}
      → Action TgError W A
      → (left attempt : ℕ) (last_error : Option PgError) → Action PgError W A
  attempts op zero attempt last_error =
      fail (unwrap_or (internal_panic "retry exhausted with no error") last_error)
  attempts op (suc left) attempt last_error = do
    pause attempt
    recast internal_panic world.spawn_blocking
    result ← run_once op
    decide (λ e. attempts op left (suc attempt) (some e)) result

  unfoldable pub with_store_retry : {A : Type 0} → Action TgError W A → Action PgError W A
  unfolding attempts
  with_store_retry op = attempts op max_store_attempts 0 none
