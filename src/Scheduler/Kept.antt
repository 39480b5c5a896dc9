-- ===== src/Scheduler/Kept.antt =====
-- What the ways to end and to wait in the main loop (src/scheduler.rs) keep.
use phase_golem.Prelude.{
  ◌-◌, ◌≤◌, String, ◌≡◌, ◌≢◌, refl, sym, ◌∙◌, ap, subst, Bool, true, false, ◌&&◌, Option, none,
  some, List, [], ◌++◌, if◌then◌else◌, eqb, All, All-append, All-imp, Result, ok, err, Bool-cases,
  arith, inl, inr,
}
use mathlib.Core.List.{append_assoc, append-nil}
use phase_golem.Prelude.Actions.{Action, Follows, IsOrder}
use phase_golem.Types.{PhaseExecutionResult}
use phase_golem.PgError.{PgError}
use phase_golem.Config.{PhaseGolemConfig}
use phase_golem.Scheduler.{
  SchedulerState, remove_task, is_cap_reached, RunSummary, HaltReason, cap_reached,
  shutdown_requested,
}
use phase_golem.Scheduler.Completion.{Progress, ask}
use phase_golem.Scheduler.Drain.{handle_task_completion, build_summary}
use phase_golem.Scheduler.Advanced.{HandleLaws}
use phase_golem.Scheduler.Drained.{handle_task_completion-Advanced, drain_join_set-Drained}
use phase_golem.Scheduler.Loop.{
  Turn, Run, Outcome, halted, going, commit_batch, drain, halt, pass_target, completed_turn,
  join_next, wait_for_one,
}
use phase_golem.Coordinator.Handle.{CoordinatorHandle}

-- The coordinator's state is related, the cap is the same and is not passed, and what was entered as
-- completed is archived.
pub record Kept {C : Type 0} (R : C → C → Type 0) (archived : String → C → Type 0)
    (a b : Progress C) : Type 0 where
  pub followed : R a.coordinator b.coordinator
  pub cap : b.state.cap ≡ a.state.cap
  pub capped : a.state.phases_executed ≤ a.state.cap → b.state.phases_executed ≤ b.state.cap
  pub completed :
      (xs : List String) × (b.state.items_completed ≡ a.state.items_completed ++ xs)
      × All (λ x. archived x b.coordinator) xs

-- The summary tells the state that the run ended in, and names the cap only where it is reached.
pub record Ended {C : Type 0} (R : C → C → Type 0) (archived : String → C → Type 0) (a : Progress C)
    (summary : RunSummary) (b : Progress C) : Type 0 where
  pub kept : Kept R archived a b
  pub completed : summary.items_completed ≡ b.state.items_completed
  pub executed : summary.phases_executed ≡ b.state.phases_executed
  pub at_cap : summary.halt_reason ≡ cap_reached → b.state.cap ≤ b.state.phases_executed

abbrev pub Leads :
    {C : Type 0}
    → (C → C → Type 0)
    → (String → C → Type 0)
    → Progress C
    → Result String (Outcome C)
    → Type 0
Leads R archived a (err e) = Unit
Leads R archived a (ok (halted summary b)) = Ended R archived a summary b
Leads R archived a (ok (going run)) = Kept R archived a run.progress

cap_is_reached :
    (state : SchedulerState) (b : Bool)
    → (is_cap_reached state && b) ≡ true
    → state.cap ≤ state.phases_executed
unfolding is_cap_reached
cap_is_reached state b h = ground (arith, h)

module _ {C : Type 0} (handle : CoordinatorHandle C) (R : C → C → Type 0)
    (archived : String → C → Type 0) (laws : HandleLaws handle R archived) where
  pub run_order : IsOrder (Kept R archived)
  run_order = record {
    stays = λ a. record {
      followed = laws.order.stays _;
      cap = refl;
      capped = λ h. h;
      completed = ([], sym (append-nil _), tt);
    };
    joins = λ a b c f g. record {
      followed = laws.order.joins _ _ _ f.followed g.followed;
      cap = g.cap ∙ f.cap;
      capped = λ h. g.capped (f.capped h);
      completed = (
        f.completed.0 ++ g.completed.0,
        g.completed.1
            ∙ ap (λ z. z ++ g.completed.0) f.completed.1
            ∙ append_assoc _ f.completed.0 g.completed.0,
        All-append _ f.completed.0 g.completed.0
            (All-imp _ _ (λ y p. laws.stays_archived _ _ g.followed y p) f.completed.0
              f.completed.2)
            g.completed.2,
      );
    };
  }

  same_state :
      (a b : Progress C) → R a.coordinator b.coordinator → b.state ≡ a.state → Kept R archived a b
  same_state a b r s = record {
    followed = r;
    cap = ap (λ z. z.cap) s;
    capped = λ h. subst (λ z. z.phases_executed ≤ z.cap) (sym s) h;
    completed = ([], ap (λ z. z.items_completed) s ∙ sym (append-nil _), tt);
  }

  pub Leads-join :
      (a b : Progress C) (r : Result String (Outcome C))
      → Kept R archived a b
      → Leads R archived b r
      → Leads R archived a r
  Leads-join a b (err e) f g = tt
  Leads-join a b (ok (going run)) f g = run_order.joins a b run.progress f g
  Leads-join a b (ok (halted summary c)) f g = record {
    kept = run_order.joins a b c f g.kept;
    completed = g.completed;
    executed = g.executed;
    at_cap = g.at_cap;
  }

  pub Leads-if :
      (a : Progress C) (b : Bool) (r q : Result String (Outcome C))
      → Leads R archived a r
      → Leads R archived a q
      → Leads R archived a (if b then r else q)
  Leads-if a true r q h k = h
  Leads-if a false r q h k = k

  module _ (show : PgError → String) (before : String → String → Bool)
      (config : PhaseGolemConfig) where
    pub asks :
        {A : Type 0} (m : Action PgError C A)
        → Follows R m
        → Follows (Kept R archived) (ask show handle m)
    asks m h = record { at = λ p. same_state p _ (h.at p.coordinator) refl }

    commit_batch-Kept :
        (p : Progress C) → Kept R archived p (commit_batch show before handle config p)
    unfolding commit_batch
    commit_batch-Kept p = (asks handle.batch_commit laws.batch_law).at p

    drain-Kept :
        (turn : Turn) (run : Run C)
        → Kept R archived run.progress (drain show before handle config turn run).1
    drain-Kept turn run =
        let d =
          drain_join_set-Drained handle R archived laws show config turn.drained run.running
            run.progress in
        record {
          followed = d.followed;
          cap = d.cap;
          capped = λ h. rw (d.cap, d.phases_executed) h;
          completed = d.completed;
        }

    pub halt-Leads :
        (turn : Turn) (reason : HaltReason) (run : Run C)
        → reason ≢ cap_reached
        → Leads R archived run.progress (halt show before handle config turn reason run)
    unfolding halt build_summary
    halt-Leads turn reason run other = record {
      kept = run_order.joins _ _ _ (drain-Kept turn run) (commit_batch-Kept _);
      completed = refl;
      executed = refl;
      at_cap = λ h. absurd (other h);
    }

    pub pass_target-Leads :
        (turn : Turn) (run : Run C)
        → Leads R archived run.progress (pass_target show before handle config turn run)
    unfolding pass_target
    pass_target-Leads turn run =
        run_order.joins _ _ _ (run_order.joins _ _ _ (drain-Kept turn run) (commit_batch-Kept _))
          (record {
            followed = laws.order.stays _;
            cap = refl;
            capped = λ h. h;
            completed = ([], sym (append-nil _), tt);
          })

    completed_turn-Leads :
        (a : Progress C) (run : Run C) (out : Result String (Unit {0}) × Progress C)
        → Kept R archived a out.1
        → Leads R archived a (completed_turn show before handle config run out)
    completed_turn-Leads a run (ok x, p) h = run_order.joins a p _ h (commit_batch-Kept p)
    completed_turn-Leads a run (err e, p) h = tt

    join_next-Leads :
        (turn : Turn) (run : Run C) (next : Option (Option (String × PhaseExecutionResult)))
        → Leads R archived run.progress (join_next show before handle config turn run next)
    unfolding join_next
    join_next-Leads turn run none = halt-Leads turn shutdown_requested run (λ h. cc h)
    join_next-Leads turn run (some none) = commit_batch-Kept run.progress
    join_next-Leads turn run (some (some (id, result))) =
        let d =
          handle_task_completion-Advanced handle R archived laws show config id result
            run.progress in
        completed_turn-Leads run.progress
          (record run { running = remove_task run.running id; in_flight = run.in_flight - 1 })
          (handle_task_completion show handle config id result run.progress)
          (record {
            followed = d.followed;
            cap = d.cap;
            capped = λ h. rw (d.cap, d.phases_executed) h;
            completed = (
              d.completed.0,
              d.completed.1,
              All-imp _ _ (λ y (e, p). p) d.completed.0 d.completed.2,
            );
          })

    pub wait_for_one-Leads :
        (turn : Turn) (run : Run C)
        → Leads R archived run.progress (wait_for_one show before handle config turn run)
    unfolding wait_for_one build_summary commit_batch
    wait_for_one-Leads turn run =
        elim (Bool-cases (is_cap_reached run.progress.state && eqb run.in_flight 0)) [
          | inl e ↦ rw e (record {
            kept = commit_batch-Kept run.progress;
            completed = refl;
            executed = refl;
            at_cap = λ h. cap_is_reached run.progress.state (eqb run.in_flight 0) e;
          })
          | inr e ↦ rw e (elim (Bool-cases (eqb run.in_flight 0)) [
            | inl f ↦ rw f (commit_batch-Kept run.progress)
            | inr f ↦ rw f (join_next-Leads turn run turn.next)
          ])
        ]
