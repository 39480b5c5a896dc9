-- ===== src/Scheduler.antt =====
-- src/scheduler.rs: the running tasks, the scheduler's own state, and its summary.
pub mod Items
pub mod Select
pub mod Dependencies
pub mod Target
pub mod Targeted
pub mod Advance
pub mod Slots
pub mod Spawn
pub mod Running
pub mod Rounds
pub mod Eligible
pub mod Places
pub mod Order
pub mod Completion
pub mod Duplicates
pub mod Triage
pub mod Drain
pub mod Advanced
pub mod Completed
pub mod Failed
pub mod Triaged
pub mod Drained
pub mod Served
pub mod Halting
pub mod Loop
pub mod Updated
pub mod Promoted
pub mod Kept
pub mod Carried
pub mod Turns
pub mod Finished
use phase_golem.Prelude.{
  ℕ, ◌+◌, String, Bool, true, false, not, Option, none, some, List, [], ◌∷◌, if◌then◌else◌, leb,
  ◌==◌, string_eq, any, filter, length, is_empty,
}
use phase_golem.Types.{PhasePool}

abbrev pub circuit_breaker_threshold : ℕ
circuit_breaker_threshold = 2

pub data HaltReason : Type 0 where
  all_done_or_blocked cap_reached circuit_breaker_tripped shutdown_requested : HaltReason
  target_completed target_blocked filter_exhausted no_matching_items : HaltReason

pub record RunSummary : Type 0 where
  pub phases_executed : ℕ
  pub items_completed : List String
  pub items_blocked : List String
  pub follow_ups_created : ℕ
  pub items_merged : ℕ
  pub halt_reason : HaltReason

pub record RunningTaskInfo : Type 0 where
  pub phase : String
  pub phase_pool : PhasePool
  pub is_destructive : Bool

-- The map of active tasks, one entry for each item.
abbrev pub RunningTasks : Type 0
RunningTasks = List (String × RunningTaskInfo)

abbrev pub task_is_destructive : String × RunningTaskInfo → Bool
task_is_destructive (id, info) = info.is_destructive

unfoldable pub has_destructive : RunningTasks → Bool
has_destructive active = any task_is_destructive active

unfoldable pub non_destructive_count : RunningTasks → ℕ
non_destructive_count active = length (filter (λ t. not (task_is_destructive t)) active)

unfoldable pub is_item_running : RunningTasks → String → Bool
is_item_running active item_id = any (λ t. t.0 == item_id) active

unfoldable pub remove_task : RunningTasks → String → RunningTasks
remove_task active item_id = filter (λ t. not (t.0 == item_id)) active

unfoldable pub insert_task : RunningTasks → String → RunningTaskInfo → RunningTasks
unfolding remove_task
insert_task active item_id info = (item_id, info) ∷ remove_task active item_id

pub record SchedulerState : Type 0 where
  pub phases_executed : ℕ
  pub cap : ℕ
  pub consecutive_exhaustions : ℕ
  pub items_completed : List String
  pub items_blocked : List String
  pub follow_ups_created : ℕ
  pub items_merged : ℕ
  pub current_target_index : ℕ

unfoldable pub is_cap_reached : SchedulerState → Bool
is_cap_reached state = leb state.cap state.phases_executed

unfoldable pub is_circuit_breaker_tripped : SchedulerState → Bool
is_circuit_breaker_tripped state = leb circuit_breaker_threshold state.consecutive_exhaustions
