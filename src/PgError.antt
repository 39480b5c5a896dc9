-- ===== src/PgError.antt =====
-- src/pg_error.rs: the errors of the coordinator, their categories, and those of the task-golem
-- library, as far as that file matches on them.
use phase_golem.Prelude.{ℕ, String, Bool, true, false, [], ◌∷◌, concat, decimal}

pub data TgError : Type 0 where
  lock_timeout : ℕ → TgError
  storage_corruption schema_version_unsupported invalid_transition : TgError
  not_initialized item_not_found cycle_detected : String → TgError
  id_collision_exhausted : ℕ → TgError
  ambiguous_id already_claimed invalid_input dependent_exists io_error : TgError

pub data PgError : Type 0 where
  lock_timeout : ℕ → PgError
  storage_corruption : TgError → PgError
  not_initialized : String → PgError
  id_collision_exhausted : ℕ → PgError
  internal_panic : String → PgError
  item_not_found : String → PgError
  invalid_transition : TgError → PgError
  cycle_detected : String → PgError
  git : String → PgError
  unexpected : TgError → PgError

unfoldable pub is_retryable : PgError → Bool
is_retryable (PgError.lock_timeout d) = true
is_retryable _ = false

unfoldable pub is_fatal : PgError → Bool
is_fatal (PgError.storage_corruption e) = true
is_fatal (PgError.not_initialized m) = true
is_fatal (PgError.id_collision_exhausted n) = true
is_fatal (PgError.internal_panic m) = true
is_fatal _ = false

-- `From<TgError>`.
unfoldable pub from_tg : TgError → PgError
from_tg (TgError.lock_timeout d) = PgError.lock_timeout d
from_tg TgError.storage_corruption = PgError.storage_corruption TgError.storage_corruption
from_tg TgError.schema_version_unsupported =
    PgError.storage_corruption TgError.schema_version_unsupported
from_tg (TgError.not_initialized m) = PgError.not_initialized m
from_tg (TgError.id_collision_exhausted n) = PgError.id_collision_exhausted n
from_tg (TgError.item_not_found id) = PgError.item_not_found id
from_tg TgError.invalid_transition = PgError.invalid_transition TgError.invalid_transition
from_tg (TgError.cycle_detected m) = PgError.cycle_detected m
from_tg TgError.ambiguous_id = PgError.unexpected TgError.ambiguous_id
from_tg TgError.already_claimed = PgError.unexpected TgError.already_claimed
from_tg TgError.invalid_input = PgError.unexpected TgError.invalid_input
from_tg TgError.dependent_exists = PgError.unexpected TgError.dependent_exists
from_tg TgError.io_error = PgError.unexpected TgError.io_error

-- `Display`, and by it `From<PgError> for String`. How a duration is debugged and how task-golem
-- prints its errors are parameters.
module _ (debug_duration : ℕ → String) (show_tg : TgError → String) where
  unfoldable pub pg_error_to_string : PgError → String
  pg_error_to_string (PgError.lock_timeout d) =
      concat ("Lock timeout after " ∷ debug_duration d ∷ [])
  pg_error_to_string (PgError.storage_corruption e) = concat (
      "Storage corruption: "
      ∷ show_tg e
      ∷ ". Recovery: `git checkout .task-golem/tasks.jsonl`"
      ∷ [])
  pg_error_to_string (PgError.not_initialized m) = concat ("Store not initialized: " ∷ m ∷ [])
  pg_error_to_string (PgError.id_collision_exhausted n) =
      concat ("ID collision exhausted after " ∷ decimal n ∷ " attempts" ∷ [])
  pg_error_to_string (PgError.internal_panic m) =
      concat ("Internal panic in storage thread: " ∷ m ∷ [])
  pg_error_to_string (PgError.item_not_found m) = concat ("Item not found: " ∷ m ∷ [])
  pg_error_to_string (PgError.invalid_transition e) =
      concat ("Invalid transition: " ∷ show_tg e ∷ [])
  pg_error_to_string (PgError.cycle_detected m) = concat ("Cycle detected: " ∷ m ∷ [])
  pg_error_to_string (PgError.git m) = concat ("Git error: " ∷ m ∷ [])
  pg_error_to_string (PgError.unexpected e) = concat ("Unexpected storage error: " ∷ show_tg e ∷ [])
