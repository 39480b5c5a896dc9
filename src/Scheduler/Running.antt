-- ===== src/Scheduler/Running.antt =====
-- The set of running tasks across a round of `run_scheduler` (src/scheduler.rs).
use phase_golem.Prelude.{
  suc, ◌+◌, ◌≤◌, String, ◌≡◌, refl, ◌⊎◌, inl, inr, Bool, true, false, not, List, [], ◌∷◌, arith,
  any, filter, length, count, Bool-cases, length-filter-le, ◌==◌, string_eq, Result, ok, err,
}
use phase_golem.Types.{SchedulerAction, triage, promote, run_phase}
use phase_golem.Scheduler.{
  RunningTaskInfo, RunningTasks, task_is_destructive, has_destructive, insert_task, SchedulerState,
  is_cap_reached,
}
use phase_golem.Scheduler.Select.{is_destructive_run}
use phase_golem.Scheduler.Slots.{is_executor}
use phase_golem.Scheduler.Spawn.{process_actions}

any-filter_le {ℓ} :
    {A : Type ℓ} (p q : A → Bool) (xs : List A) → any p (filter q xs) ≡ true → any p xs ≡ true
any-filter_le p q [] h = h
any-filter_le p q (x ∷ xs) h = ground (arith, any-filter_le p q xs)

insert_task-length :
    (running : RunningTasks) (id : String) (info : RunningTaskInfo)
    → length (insert_task running id info) ≤ suc (length running)
unfolding insert_task
insert_task-length running id info = omega (arith, length-filter-le (λ t. not (t.0 == id)) running)

insert_task-destructive :
    (running : RunningTasks) (id : String) (info : RunningTaskInfo)
    → has_destructive (insert_task running id info) ≡ true
    → (info.is_destructive ≡ true) ⊎ (has_destructive running ≡ true)
unfolding insert_task has_destructive
insert_task-destructive running id info h =
    ground (arith, any-filter_le task_is_destructive (λ t. not (t.0 == id)) running)

-- What holds of the tasks and of the count of phases after the actions are carried out.
pub record Grown (chosen : List SchedulerAction) (before : SchedulerState) (running : RunningTasks)
    (after : SchedulerState) (later : RunningTasks) : Type 0 where
  pub few : length later ≤ length running + count is_executor chosen
  pub destructive :
      has_destructive later ≡ true
      → (has_destructive running ≡ true) ⊎ (any is_destructive_run chosen ≡ true)
  pub same_cap : after.cap ≡ before.cap
  pub capped : before.phases_executed ≤ before.cap → after.phases_executed ≤ before.cap

Grown-none :
    (chosen : List SchedulerAction) (state : SchedulerState) (running : RunningTasks)
    → Grown chosen state running state running
Grown-none chosen state running = record {
  few = omega arith;
  destructive = λ h. inl h;
  same_cap = refl;
  capped = λ h. h;
}

module _ {ℓ} {S : Type ℓ} where
  -- A statement about the outcome of the loop, where it has one.
  abbrev pub OnOk :
      (SchedulerState → RunningTasks → Type 0)
      → Result String (S × SchedulerState × RunningTasks)
      → Type 0
  OnOk P (ok (s, state, running)) = P state running
  OnOk P (err e) = Unit

  pub OnOk-imp :
      (P Q : SchedulerState → RunningTasks → Type 0)
      (r : Result String (S × SchedulerState × RunningTasks))
      → ((state : SchedulerState) (running : RunningTasks) → P state running → Q state running)
      → OnOk P r
      → OnOk Q r
  OnOk-imp P Q (ok (s, state, running)) f h = f state running h
  OnOk-imp P Q (err e) f h = tt

  Result-cases : (r : Result String S) → ((s : S) × (r ≡ ok s)) ⊎ ((e : String) × (r ≡ err e))
  Result-cases (ok s) = inl (s, refl)
  Result-cases (err e) = inr (e, refl)

Grown-start :
    (chosen : List SchedulerAction) (a : SchedulerAction) (state : SchedulerState)
    (running : RunningTasks) (id : String) (info : RunningTaskInfo) (after : SchedulerState)
    (later : RunningTasks)
    → is_executor a ≡ true
    → is_destructive_run a ≡ info.is_destructive
    → is_cap_reached state ≡ false
    → Grown chosen
        (record state { phases_executed = suc state.phases_executed })
        (insert_task running id info)
        after
        later
    → Grown (a ∷ chosen) state running after later
unfolding is_cap_reached
Grown-start chosen a state running id info after later ex same below g = record {
  few = ground (arith, insert_task-length running id info);
  destructive = λ h. ground (arith, g.destructive h, insert_task-destructive running id info);
  same_cap = g.same_cap;
  capped = λ h. ground (arith, g.capped);
}

module _ {ℓ} {S : Type ℓ} (promote_item : S → String → Result String S) where
  pub process_actions-Grown :
      (store : S) (state : SchedulerState) (running : RunningTasks) (chosen : List SchedulerAction)
      → OnOk (Grown chosen state running) (process_actions promote_item store state running chosen)
  unfolding process_actions
  process_actions-Grown store state running [] = Grown-none [] state running
  process_actions-Grown store state running (promote id ∷ rest) =
      elim (Result-cases (promote_item store id)) [
        | inl (s, e) ↦
            rw (e, process_actions)
              (OnOk-imp (Grown rest state running) _ _
                (λ after later g. record {
                  few = g.few;
                  destructive = g.destructive;
                  same_cap = g.same_cap;
                  capped = g.capped;
                })
                (process_actions-Grown s state running rest))
        | inr (m, e) ↦ rw (e, process_actions) tt
      ]
  process_actions-Grown store state running (triage id ∷ rest) =
      elim (Bool-cases (is_cap_reached state)) [
        | inl e ↦ rw (e, process_actions) (Grown-none (triage id ∷ rest) state running)
        | inr e ↦
            rw (e, process_actions)
              (OnOk-imp (Grown rest _ _) _ _
                (λ after later g.
                  Grown-start rest (triage id) state running id _ after later refl refl e g)
                (process_actions-Grown store _ _ rest))
      ]
  process_actions-Grown store state running (run_phase id n pool d ∷ rest) =
      elim (Bool-cases (is_cap_reached state)) [
        | inl e ↦ rw (e, process_actions) (Grown-none (run_phase id n pool d ∷ rest) state running)
        | inr e ↦
            rw (e, process_actions)
              (OnOk-imp (Grown rest _ _) _ _
                (λ after later g.
                  Grown-start rest (run_phase id n pool d) state running id _ after later refl refl
                    e g)
                (process_actions-Grown store _ _ rest))
      ]
