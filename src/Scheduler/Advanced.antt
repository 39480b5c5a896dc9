-- ===== src/Scheduler/Advanced.antt =====
-- What the completion of a task changes in the scheduler (src/scheduler.rs): a relation that holds of
-- each step and of several in a row.
use phase_golem.Prelude.{
  ℕ, String, ◌≡◌, refl, sym, ◌∙◌, ap, subst, Bool, false, List, [], ◌∷◌, ◌++◌, ◌==◌, string_eq, All,
  All-append, All-imp, ok, inl, inr, ◌⊎◌,
}
use mathlib.Core.List.{append_assoc, append-nil}
use phase_golem.Prelude.Actions.{Action, Follows, IsOrder}
use phase_golem.Types.{PhaseResult, ItemUpdate, FollowUp}
use phase_golem.PgError.{PgError}
use phase_golem.Scheduler.Completion.{
  Progress, ask, add_u32, with_state, cleanup_terminal_summary, keep_summary, add_follow_ups,
  add_blocked,
}
use phase_golem.Coordinator.Handle.{CoordinatorHandle}

-- What the scheduler relies on in the coordinator: every request leads to a state that `R` relates to
-- the one before, and an item whose archival succeeded is archived from then on.
pub record HandleLaws {C : Type 0} (handle : CoordinatorHandle C) (R : C → C → Type 0)
    (archived : String → C → Type 0) : Type 0 where
  pub order : IsOrder R
  pub stays_archived : (a b : C) → R a b → (id : String) → archived id a → archived id b
  pub archives :
      (id : String) (c : C)
      → (handle.archive_item id c).0 ≡ ok tt
      → archived id (handle.archive_item id c).1
  pub snapshot_law : Follows R handle.get_snapshot
  pub batch_law : Follows R handle.batch_commit
  pub update_law : (id : String) (u : ItemUpdate) → Follows R (handle.update_item id u)
  pub complete_law :
      (id : String) (r : PhaseResult) (d : Bool) → Follows R (handle.complete_phase id r d)
  pub worklog_law :
      (id title phase outcome summary : String)
      → Follows R (handle.write_worklog id title phase outcome summary)
  pub archive_law : (id : String) → Follows R (handle.archive_item id)
  pub ingest_law :
      (fus : List FollowUp) (origin : String) → Follows R (handle.ingest_follow_ups fus origin)
  pub merge_law : (source target : String) → Follows R (handle.merge_item source target)

-- The number of items in a row that exhausted their retries is what it was, or starts again.
abbrev pub AsBefore : ℕ → ℕ → Type 0
AsBefore a b = (b ≡ a) ⊎ (b ≡ 0)

-- A failure counts as one more exhausted item where the block is stored, and not otherwise.
abbrev pub OneMore : ℕ → ℕ → Type 0
OneMore a b = (b ≡ a) ⊎ (b ≡ add_u32 a 1)

-- The changes that a task of the item makes, with `X` for the exhausted items: it may end only this
-- item, as completed only once it is archived, and keeps only its own summary.
pub record Advanced {C : Type 0} (R : C → C → Type 0) (archived : String → C → Type 0)
    (X : ℕ → ℕ → Type 0) (id : String) (a b : Progress C) : Type 0 where
  pub followed : R a.coordinator b.coordinator
  pub phases_executed : b.state.phases_executed ≡ a.state.phases_executed
  pub cap : b.state.cap ≡ a.state.cap
  pub current_target_index : b.state.current_target_index ≡ a.state.current_target_index
  pub completed :
      (xs : List String) × (b.state.items_completed ≡ a.state.items_completed ++ xs)
      × All (λ x. (x ≡ id) × archived x b.coordinator) xs
  pub blocked :
      (xs : List String) × (b.state.items_blocked ≡ a.state.items_blocked ++ xs)
      × All (λ x. x ≡ id) xs
  pub exhausted : X a.state.consecutive_exhaustions b.state.consecutive_exhaustions
  pub others : (j : String) → (id == j) ≡ false → b.previous_summaries j ≡ a.previous_summaries j

pub as_before_order : IsOrder AsBefore
as_before_order = record { stays = λ a. inl refl; joins = λ a b c f g. go f g }
  where
    go : {a b c : ℕ} → AsBefore a b → AsBefore b c → AsBefore a c
    go (inl p) (inl q) = inl (q ∙ p)
    go (inr p) (inl q) = inr (q ∙ p)
    go f (inr q) = inr q

pub any_order : IsOrder (λ (a b : ℕ). Unit {0})
any_order = record { stays = λ a. tt; joins = λ a b c f g. tt }

module _ {C : Type 0} (handle : CoordinatorHandle C) (R : C → C → Type 0)
    (archived : String → C → Type 0) (laws : HandleLaws handle R archived) (X : ℕ → ℕ → Type 0)
    (x : IsOrder X) (id : String) where
  -- Where the scheduler's state is the same, and so are the summaries of other items.
  pub unchanged :
      (a b : Progress C)
      → R a.coordinator b.coordinator
      → b.state ≡ a.state
      → ((j : String) → (id == j) ≡ false → b.previous_summaries j ≡ a.previous_summaries j)
      → Advanced R archived X id a b
  unchanged a b r s o = record {
    followed = r;
    phases_executed = ap (λ z. z.phases_executed) s;
    cap = ap (λ z. z.cap) s;
    current_target_index = ap (λ z. z.current_target_index) s;
    completed = ([], ap (λ z. z.items_completed) s ∙ sym (append-nil _), tt);
    blocked = ([], ap (λ z. z.items_blocked) s ∙ sym (append-nil _), tt);
    exhausted =
        subst (λ z. X a.state.consecutive_exhaustions z.consecutive_exhaustions) (sym s)
          (x.stays _);
    others = o;
  }

  pub advanced_order : IsOrder (Advanced R archived X id)
  advanced_order = record {
    stays = λ s. unchanged s s (laws.order.stays _) refl (λ j e. refl);
    joins = λ a b c f g. record {
      followed = laws.order.joins _ _ _ f.followed g.followed;
      phases_executed = g.phases_executed ∙ f.phases_executed;
      cap = g.cap ∙ f.cap;
      current_target_index = g.current_target_index ∙ f.current_target_index;
      completed = (
        f.completed.0 ++ g.completed.0,
        g.completed.1
            ∙ ap (λ z. z ++ g.completed.0) f.completed.1
            ∙ append_assoc _ f.completed.0 g.completed.0,
        All-append _ f.completed.0 g.completed.0
            (All-imp _ _ (λ y (e, p). (e, laws.stays_archived _ _ g.followed y p)) f.completed.0
              f.completed.2)
            g.completed.2,
      );
      blocked = (
        f.blocked.0 ++ g.blocked.0,
        g.blocked.1
            ∙ ap (λ z. z ++ g.blocked.0) f.blocked.1
            ∙ append_assoc _ f.blocked.0 g.blocked.0,
        All-append _ f.blocked.0 g.blocked.0 f.blocked.2 g.blocked.2,
      );
      exhausted = x.joins _ _ _ f.exhausted g.exhausted;
      others = λ j e. g.others j e ∙ f.others j e;
    };
  }

  pub asked :
      {A : Type 0} (show : PgError → String) (m : Action PgError C A)
      → Follows R m
      → Follows (Advanced R archived X id) (ask show handle m)
  asked show m h = record { at = λ p. unchanged p _ (h.at p.coordinator) refl (λ j e. refl) }

  pub follow_ups-Advanced :
      (n : ℕ) → Follows (Advanced R archived X id) (with_state (add_follow_ups n))
  follow_ups-Advanced n = record {
    at = λ p. record {
      followed = laws.order.stays _;
      phases_executed = refl;
      cap = refl;
      current_target_index = refl;
      completed = ([], sym (append-nil _), tt);
      blocked = ([], sym (append-nil _), tt);
      exhausted = x.stays _;
      others = λ j e. refl;
    };
  }

  pub blocked-Advanced : Follows (Advanced R archived X id) (with_state (add_blocked id))
  blocked-Advanced = record {
    at = λ p. record {
      followed = laws.order.stays _;
      phases_executed = refl;
      cap = refl;
      current_target_index = refl;
      completed = ([], sym (append-nil _), tt);
      blocked = (id ∷ [], refl, (refl, tt));
      exhausted = x.stays _;
      others = λ j e. refl;
    };
  }

  pub cleanup-Advanced : Follows (Advanced R archived X id) (cleanup_terminal_summary id)
  unfolding cleanup_terminal_summary
  cleanup-Advanced = record { at = λ p. unchanged p _ (laws.order.stays _) refl (λ j e. rw e refl) }

  pub keep-Advanced :
      (summary : String) → Follows (Advanced R archived X id) (keep_summary id summary)
  keep-Advanced summary = record {
    at = λ p. unchanged p _ (laws.order.stays _) refl (λ j e. rw e refl);
  }
