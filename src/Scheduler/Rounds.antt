-- ===== src/Scheduler/Rounds.antt =====
-- A round of `run_scheduler` (src/scheduler.rs): the choice of actions and what carrying them out
-- does to the set of running tasks.
use phase_golem.Prelude.{
  ◌+◌, ◌^◌, ◌≤◌, ◌<◌, String, ◌≡◌, refl, inl, inr, true, false, List, [], ◌∷◌, arith, length,
  Result, Bool-cases,
}
use phase_golem.PgItem.{Item}
use phase_golem.Config.{Pipelines, ExecutionConfig}
use phase_golem.Types.{SchedulerAction}
use phase_golem.Scheduler.{RunningTasks, has_destructive, non_destructive_count, SchedulerState}
use phase_golem.Scheduler.Select.{available_slots, select_actions}
use phase_golem.Scheduler.Slots.{IsSafe, select_actions-IsSafe}
use phase_golem.Scheduler.Spawn.{process_actions}
use phase_golem.Scheduler.Running.{Grown, OnOk, OnOk-imp, process_actions-Grown}

-- The tasks that may run together under a configuration.
pub record IsBounded (config : ExecutionConfig) (running : RunningTasks) : Type 0 where
  pub exclusive : has_destructive running ≡ true → length running ≡ 1
  pub fits : length running ≤ config.max_concurrent

non_destructive_count_all :
    (running : RunningTasks)
    → has_destructive running ≡ false
    → non_destructive_count running ≡ length running
unfolding has_destructive non_destructive_count
non_destructive_count_all [] h = refl
non_destructive_count_all (t ∷ running) h = ground (arith, non_destructive_count_all running)

-- With no destructive task the running ones and the free slots add up to the limit.
slots_left :
    (config : ExecutionConfig) (running : RunningTasks)
    → config.max_concurrent < 2 ^ 32
    → length running ≤ config.max_concurrent
    → has_destructive running ≡ false
    → length running + available_slots running config ≡ config.max_concurrent
unfolding available_slots
slots_left config running small fits h = omega (arith, non_destructive_count_all running h)

destructive-nonempty :
    (running : RunningTasks) → has_destructive running ≡ true → 1 ≤ length running
unfolding has_destructive
destructive-nonempty [] h = cc
destructive-nonempty (t ∷ running) h = omega arith

Grown-IsBounded :
    (items : List Item) (config : ExecutionConfig) (chosen : List SchedulerAction)
    (state after : SchedulerState) (running later : RunningTasks)
    → config.max_concurrent < 2 ^ 32
    → 1 ≤ config.max_concurrent
    → IsBounded config running
    → IsSafe items running config chosen
    → Grown chosen state running after later
    → IsBounded config later
Grown-IsBounded items config chosen state after running later small one b safe g =
    elim (Bool-cases (has_destructive running)) [
      | inl e ↦
          let none_chosen = safe.locked e in
          record {
            exclusive = λ h. ground (arith, g.few, b.exclusive e, destructive-nonempty later h);
            fits = ground (arith, g.few, b.exclusive e);
          }
      | inr e ↦ record {
        exclusive =
            λ h. ground (arith, g.few, g.destructive h, safe.alone, destructive-nonempty later h);
        fits = omega (arith, g.few, safe.within_slots, slots_left config running small b.fits e);
      }
    ]

-- A round keeps the running tasks bounded: a destructive task runs alone, and never more tasks run
-- than `max_concurrent`, which is at least 1 and fits in 32 bits. If the run goes on, the phases
-- counted stay within the cap.
pub round-IsBounded {ℓ} :
    {S : Type ℓ} (promote_item : S → String → Result String S) (store : S) (items : List Item)
    (config : ExecutionConfig) (pipelines : Pipelines) (state : SchedulerState)
    (running : RunningTasks)
    → 1 ≤ config.max_concurrent
    → config.max_concurrent < 2 ^ 32
    → IsBounded config running
    → state.phases_executed ≤ state.cap
    → OnOk
        (λ after later. IsBounded config later × (after.phases_executed ≤ after.cap))
        (process_actions promote_item store state running
          (select_actions items running config pipelines))
round-IsBounded promote_item store items config pipelines state running one small b below =
    let chosen = select_actions items running config pipelines in
    OnOk-imp (Grown chosen state running) _ _
      (λ after later g. (
        Grown-IsBounded items config chosen state after running later small one b
            (select_actions-IsSafe items running config pipelines) g,
        omega (arith, g.capped below, g.same_cap),
      ))
      (process_actions-Grown promote_item store state running chosen)
