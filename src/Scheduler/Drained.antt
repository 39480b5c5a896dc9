-- ===== src/Scheduler/Drained.antt =====
-- The end of one task and of all the tasks that still run (src/scheduler.rs), whatever fails on the way.
use phase_golem.Prelude.{
  ℕ, ◌+◌, ◌≤◌, String, ◌≡◌, refl, sym, ◌∙◌, ap, Option, none, some, List, [], ◌∷◌, ◌++◌, ◌==◌,
  string_eq, find, All, All-append, All-imp, arith, inl, inr, Result-cases,
}
use mathlib.Core.List.{append_assoc, append-nil}
use phase_golem.Prelude.Actions.{Action, ◌>>=◌, Follows, Follows-if}
use phase_golem.Types.{PhaseExecutionResult, success, cancelled}
use phase_golem.PgItem.{Item}
use phase_golem.PgError.{PgError}
use phase_golem.Config.{PhaseGolemConfig}
use phase_golem.Scheduler.{RunningTasks}
use phase_golem.Scheduler.Items.{has_id}
use phase_golem.Scheduler.Completion.{Progress, ask, own_phase}
use phase_golem.Scheduler.Drain.{complete_with, handle_task_completion, drain_join_set}
use phase_golem.Scheduler.Advanced.{HandleLaws, Advanced, AsBefore, OneMore, as_before_order}
use phase_golem.Scheduler.Completed.{
  write_entry-Advanced, handle_phase_success-Advanced, handle_subphase_complete-Advanced,
  handle_phase_blocked-Advanced,
}
use phase_golem.Scheduler.Failed.{handle_phase_failed-Advanced}
use phase_golem.Scheduler.Triaged.{handle_triage_success-Advanced}
use phase_golem.Coordinator.Handle.{CoordinatorHandle}

-- Only a failed task may count as one more exhausted item.
abbrev pub Counts : PhaseExecutionResult → ℕ → ℕ → Type 0
Counts (PhaseExecutionResult.failed reason) = OneMore
Counts _ = AsBefore

abbrev pub failures : List (Option (String × PhaseExecutionResult)) → ℕ
failures [] = 0
failures (some (id, PhaseExecutionResult.failed reason) ∷ ended) = 1 + failures ended
failures (_ ∷ ended) = failures ended

-- What the end of several tasks changes.
pub record Drained {C : Type 0} (R : C → C → Type 0) (archived : String → C → Type 0) (n : ℕ)
    (a b : Progress C) : Type 0 where
  pub followed : R a.coordinator b.coordinator
  pub phases_executed : b.state.phases_executed ≡ a.state.phases_executed
  pub cap : b.state.cap ≡ a.state.cap
  pub current_target_index : b.state.current_target_index ≡ a.state.current_target_index
  pub completed :
      (xs : List String) × (b.state.items_completed ≡ a.state.items_completed ++ xs)
      × All (λ x. archived x b.coordinator) xs
  pub exhausted : b.state.consecutive_exhaustions ≤ a.state.consecutive_exhaustions + n

module _ {C : Type 0} (handle : CoordinatorHandle C) (R : C → C → Type 0)
    (archived : String → C → Type 0) (laws : HandleLaws handle R archived) (show : PgError → String)
    (config : PhaseGolemConfig) where
  since :
      (X : ℕ → ℕ → Type 0) (id : String) (p : Progress C) (c : C) (q : Progress C)
      → R p.coordinator c
      → Advanced R archived X id (record p { coordinator = c }) q
      → Advanced R archived X id p q
  since X id p c q r h = record {
    followed = laws.order.joins _ _ _ r h.followed;
    phases_executed = h.phases_executed;
    cap = h.cap;
    current_target_index = h.current_target_index;
    completed = h.completed;
    blocked = h.blocked;
    exhausted = h.exhausted;
    others = h.others;
  }

  refused :
      (X : ℕ → ℕ → Type 0)
      → ((n : ℕ) → X n n)
      → (id : String) (p : Progress C) (c : C) → R p.coordinator c
      → Advanced R archived X id p (record p { coordinator = c })
  refused X same id p c r = record {
    followed = r;
    phases_executed = refl;
    cap = refl;
    current_target_index = refl;
    completed = ([], sym (append-nil _), tt);
    blocked = ([], sym (append-nil _), tt);
    exhausted = same _;
    others = λ j e. refl;
  }

  after_snapshot :
      (X : ℕ → ℕ → Type 0)
      → ((n : ℕ) → X n n)
      → (id : String) (next : List Item → Action String (Progress C) (Unit {0}))
      → ((s : List Item) → Follows (Advanced R archived X id) (next s))
      → (p : Progress C)
      → Advanced R archived X id p ((ask show handle handle.get_snapshot >>= next) p).1
  after_snapshot X same id next h p =
      let c = (handle.get_snapshot p.coordinator).1 in
      let r = laws.snapshot_law.at p.coordinator in
      elim (Result-cases (handle.get_snapshot p.coordinator).0) [
        | inl (e, q) ↦ rw q (refused X same id p c r)
        | inr (xs, q) ↦ rw q (since X id p c _ r ((h xs).at (record p { coordinator = c })))
      ]

  unchanged_count : (result : PhaseExecutionResult) (n : ℕ) → Counts result n n
  unchanged_count (success r) n = inl refl
  unchanged_count (PhaseExecutionResult.subphase_complete r) n = inl refl
  unchanged_count (PhaseExecutionResult.failed r) n = inl refl
  unchanged_count (PhaseExecutionResult.blocked r) n = inl refl
  unchanged_count cancelled n = inl refl

  complete_with-Advanced :
      (id : String) (snapshot : List Item) (result : PhaseExecutionResult)
      → Follows
          (Advanced R archived (Counts result) id)
          (complete_with show handle config id snapshot result)
  unfolding complete_with
  complete_with-Advanced id snapshot (success r) =
      Follows-if (r.phase == "triage") _ _
        (handle_triage_success-Advanced handle R archived laws show id config snapshot r)
        (handle_phase_success-Advanced handle R archived laws show id config r)
  complete_with-Advanced id snapshot (PhaseExecutionResult.subphase_complete r) =
      handle_subphase_complete-Advanced handle R archived laws show id snapshot r
  complete_with-Advanced id snapshot (PhaseExecutionResult.failed reason) =
      handle_phase_failed-Advanced handle R archived laws show id snapshot reason
  complete_with-Advanced id snapshot (PhaseExecutionResult.blocked reason) =
      handle_phase_blocked-Advanced handle R archived laws show id snapshot reason
  complete_with-Advanced id snapshot cancelled =
      write_entry-Advanced handle R archived laws show id AsBefore as_before_order
        (find (has_id id) snapshot) (own_phase show handle) "Cancelled" "Shutdown requested"

  -- The end of a task of an item, whatever its result and whichever requests to the coordinator fail:
  -- the phases counted, the cap and the target are as before; no other item is entered as completed or
  -- blocked, and this one as completed only once it is archived; the summaries of other items stay;
  -- and the items in a row that exhausted their retries are one more at most where the task failed, and
  -- otherwise as many as before or none.
  pub handle_task_completion-Advanced :
      (id : String) (result : PhaseExecutionResult) (p : Progress C)
      → Advanced R archived
          (Counts result)
          id
          p
          (handle_task_completion show handle config id result p).1
  unfolding handle_task_completion
  handle_task_completion-Advanced id result p =
      after_snapshot (Counts result) (unchanged_count result) id _
        (λ snapshot. complete_with-Advanced id snapshot result) p

  one_more :
      (id : String) (result : PhaseExecutionResult)
      (ended : List (Option (String × PhaseExecutionResult))) (a b c : Progress C)
      → Advanced R archived (Counts result) id a b
      → Drained R archived (failures ended) b c
      → Drained R archived (failures (some (id, result) ∷ ended)) a c
  one_more id result ended a b c f g = record {
    followed = laws.order.joins _ _ _ f.followed g.followed;
    phases_executed = g.phases_executed ∙ f.phases_executed;
    cap = g.cap ∙ f.cap;
    current_target_index = g.current_target_index ∙ f.current_target_index;
    completed = (
      f.completed.0 ++ g.completed.0,
      g.completed.1
          ∙ ap (λ z. z ++ g.completed.0) f.completed.1
          ∙ append_assoc _ f.completed.0 g.completed.0,
      All-append _ f.completed.0 g.completed.0
          (All-imp _ _ (λ y (e, p). laws.stays_archived _ _ g.followed y p) f.completed.0
            f.completed.2)
          g.completed.2,
    );
    exhausted = bound result _ _ _ f.exhausted g.exhausted;
  }
    where
      bound :
          (result : PhaseExecutionResult) (x y z : ℕ)
          → Counts result x y
          → z ≤ y + failures ended
          → z ≤ x + failures (some (id, result) ∷ ended)
      bound (PhaseExecutionResult.failed r) x y z h k = ground arith
      bound (success r) x y z h k = ground arith
      bound (PhaseExecutionResult.subphase_complete r) x y z h k = ground arith
      bound (PhaseExecutionResult.blocked r) x y z h k = ground arith
      bound cancelled x y z h k = ground arith

  pub drain_join_set-Drained :
      (ended : List (Option (String × PhaseExecutionResult))) (running : RunningTasks)
      (p : Progress C)
      → Drained R archived
          (failures ended)
          p
          (drain_join_set show handle config ended (running, p)).1
  unfolding drain_join_set
  drain_join_set-Drained [] running p = record {
    followed = laws.order.stays _;
    phases_executed = refl;
    cap = refl;
    current_target_index = refl;
    completed = ([], sym (append-nil _), tt);
    exhausted = omega arith;
  }
  drain_join_set-Drained (none ∷ ended) running p = drain_join_set-Drained ended running p
  drain_join_set-Drained (some (id, result) ∷ ended) running p =
      one_more id result ended p _ _ (handle_task_completion-Advanced id result p)
        (drain_join_set-Drained ended _ _)
