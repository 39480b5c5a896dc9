-- ===== src/Scheduler/Carried.antt =====
-- What the actions of a turn of the main loop (src/scheduler.rs) keep.
use phase_golem.Prelude.{
  suc, ◌≤◌, String, ◌≡◌, refl, sym, ◌∙◌, subst, Bool, false, ◌&&◌, List, [], ◌∷◌, find, first,
  is_empty, lookup, Result, ok, err, Result-cases, Bool-cases, arith, inl, inr,
}
use mathlib.Core.List.{append-nil}
use phase_golem.Prelude.Actions.{Follows, IsOrder, Follows-bind, Follows-seq, Follows-or_fail}
use phase_golem.Types.{
  ItemStatus, ItemUpdate, transition_status, main, SchedulerAction, triage, run_phase,
}
use phase_golem.PgItem.{Item}
use phase_golem.PgError.{PgError}
use phase_golem.Config.{PhaseGolemConfig}
use phase_golem.Scheduler.{SchedulerState, RunningTasks, is_cap_reached}
use phase_golem.Scheduler.Items.{has_id, item_pipeline_type}
use phase_golem.Scheduler.Spawn.{process_actions}
use phase_golem.Scheduler.Completion.{Progress, ask}
use phase_golem.Scheduler.Drain.{build_summary}
use phase_golem.Scheduler.Advanced.{HandleLaws}
use phase_golem.Scheduler.Loop.{Turn, Run, promote, promote_item, settled, started, schedule}
use phase_golem.Scheduler.Kept.{Leads, run_order, Leads-join, wait_for_one-Leads}
use phase_golem.Coordinator.Handle.{CoordinatorHandle}

module _ {C : Type 0} (handle : CoordinatorHandle C) (R : C → C → Type 0)
    (archived : String → C → Type 0) (laws : HandleLaws handle R archived) (show : PgError → String)
    (before : String → String → Bool) (config : PhaseGolemConfig) where
  promoted_order :
      IsOrder (λ (a b : Progress C). R a.coordinator b.coordinator × (b.state ≡ a.state))
  promoted_order = record {
    stays = λ a. (laws.order.stays _, refl);
    joins = λ a b c f g. (laws.order.joins _ _ _ f.0 g.0, g.1 ∙ f.1);
  }

  updates :
      (id : String) (u : ItemUpdate)
      → Follows
          (λ (a b : Progress C). R a.coordinator b.coordinator × (b.state ≡ a.state))
          (ask show handle (handle.update_item id u))
  updates id u = record { at = λ p. ((laws.update_law id u).at p.coordinator, refl) }

  promote-Kept :
      (snapshot : List Item) (id : String)
      → Follows
          (λ (a b : Progress C). R a.coordinator b.coordinator × (b.state ≡ a.state))
          (promote show before handle config snapshot id)
  unfolding promote
  promote-Kept snapshot id =
      Follows-bind promoted_order _ _ (Follows-or_fail promoted_order _ (find (has_id id) snapshot))
        (λ item.
          Follows-bind promoted_order _ _
            (Follows-or_fail promoted_order _ (lookup (item_pipeline_type item) config.pipelines))
            (λ pipeline.
              Follows-bind promoted_order _ _
                (Follows-or_fail promoted_order _ (first pipeline.phases))
                (λ phase.
                  Follows-seq promoted_order _ _
                    (updates id (transition_status ItemStatus.in_progress))
                    (Follows-seq promoted_order _ _ (updates id (ItemUpdate.set_phase phase.name))
                      (updates id (ItemUpdate.set_phase_pool main))))))

  settled_at :
      (out : Result String (Unit {0}) × Progress C) (q : Progress C)
      → settled show before handle config out ≡ ok q
      → out.1 ≡ q
  settled_at (ok a, p) q h = cc h
  settled_at (err e, p) q h = cc h

  promote_item-Kept :
      (snapshot : List Item) (p : Progress C) (id : String) (q : Progress C)
      → promote_item show before handle config snapshot p id ≡ ok q
      → R p.coordinator q.coordinator
  promote_item-Kept snapshot p id q h =
      subst (λ z. R p.coordinator z.coordinator)
        (settled_at (promote show before handle config snapshot id p) q h)
        ((promote-Kept snapshot id).at p).0

  -- What the actions of a turn leave, where no promotion failed.
  abbrev Carried :
      C → SchedulerState → Result String (Progress C × SchedulerState × RunningTasks) → Type 0
  Carried c state (err e) = Unit
  Carried c state (ok (q, after, running)) =
      R c q.coordinator
      × (after.cap ≡ state.cap)
      × (state.phases_executed ≤ state.cap → after.phases_executed ≤ state.cap)
      × (after.items_completed ≡ state.items_completed)

  Carried-since :
      (c d : C) (state : SchedulerState)
      (r : Result String (Progress C × SchedulerState × RunningTasks))
      → R c d
      → Carried d state r
      → Carried c state r
  Carried-since c d state (err e) f g = tt
  Carried-since c d state (ok (q, after, running)) f g =
      (laws.order.joins _ _ _ f g.0, g.1, g.2, g.3)

  one_more :
      (c : C) (state : SchedulerState)
      (r : Result String (Progress C × SchedulerState × RunningTasks))
      → is_cap_reached state ≡ false
      → Carried c (record state { phases_executed = suc state.phases_executed }) r
      → Carried c state r
  unfolding is_cap_reached
  one_more c state (err e) below g = tt
  one_more c state (ok (q, after, running)) below g =
      (g.0, g.1, (λ h. g.2 (ground (arith, below))), g.3)

  process_actions-Carried :
      (snapshot : List Item) (p : Progress C) (state : SchedulerState) (running : RunningTasks)
      (chosen : List SchedulerAction)
      → Carried p.coordinator state
          (process_actions (promote_item show before handle config snapshot) p state running chosen)
  unfolding process_actions
  process_actions-Carried snapshot p state running [] = (laws.order.stays _, refl, (λ h. h), refl)
  process_actions-Carried snapshot p state running (SchedulerAction.promote id ∷ rest) =
      elim (Result-cases (promote_item show before handle config snapshot p id)) [
        | inl (e, q) ↦ rw (q, process_actions) tt
        | inr (later, q) ↦
            rw (q, process_actions)
              (Carried-since p.coordinator later.coordinator state _
                (promote_item-Kept snapshot p id later q)
                (process_actions-Carried snapshot later state running rest))
      ]
  process_actions-Carried snapshot p state running (triage id ∷ rest) =
      elim (Bool-cases (is_cap_reached state)) [
        | inl e ↦ rw e (laws.order.stays _, refl, (λ h. h), refl)
        | inr e ↦
            rw e (one_more p.coordinator state _ e (process_actions-Carried snapshot p _ _ rest))
      ]
  process_actions-Carried snapshot p state running (run_phase id name pool d ∷ rest) =
      elim (Bool-cases (is_cap_reached state)) [
        | inl e ↦ rw e (laws.order.stays _, refl, (λ h. h), refl)
        | inr e ↦
            rw e (one_more p.coordinator state _ e (process_actions-Carried snapshot p _ _ rest))
      ]

  started-Leads :
      (turn : Turn) (run : Run C) (r : Result String (Progress C × SchedulerState × RunningTasks))
      → Carried run.progress.coordinator run.progress.state r
      → Leads R archived run.progress (started show before handle config turn run r)
  started-Leads turn run (err e) h = tt
  started-Leads turn run (ok (q, state, running)) h =
      Leads-join handle R archived laws run.progress (record q { state = state }) _
        (record {
          followed = h.0;
          cap = h.1;
          capped = λ k. rw h.1 (h.2 k);
          completed = ([], h.3 ∙ sym (append-nil _), tt);
        })
        (wait_for_one-Leads handle R archived laws show before config turn _)

  pub schedule-Leads :
      (turn : Turn) (snapshot : List Item) (actions : List SchedulerAction) (run : Run C)
      → Leads R archived run.progress (schedule show before handle config turn snapshot actions run)
  unfolding schedule build_summary
  schedule-Leads turn snapshot actions run =
      elim (Bool-cases (is_empty actions && is_empty run.running)) [
        | inl e ↦ rw e (record {
          kept = (run_order handle R archived laws).stays _;
          completed = refl;
          executed = refl;
          at_cap = λ h. cc h;
        })
        | inr e ↦ rw e (
            started-Leads turn run _ (
              process_actions-Carried snapshot run.progress run.progress.state run.running actions))
      ]
