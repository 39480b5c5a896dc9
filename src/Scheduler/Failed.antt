-- ===== src/Scheduler/Failed.antt =====
-- A failed phase in src/scheduler.rs: what its handler changes, and that it counts as an exhausted item.
use phase_golem.Prelude.{
  String, refl, sym, Option, none, some, List, [], string_eq, find, Result-cases, inl, inr,
}
use mathlib.Core.List.{append-nil}
use phase_golem.Prelude.Actions.{◌>>◌, Follows, IsOrder, Follows-seq}
use phase_golem.Types.{ItemUpdate, status_eq}
use phase_golem.PgItem.{Item}
use phase_golem.PgError.{PgError}
use phase_golem.Scheduler.Items.{has_id}
use phase_golem.Scheduler.Completion.{
  Progress, ask, write_entry, with_state, cleanup_terminal_summary, add_blocked, one_more_exhausted,
  own_phase, handle_phase_failed,
}
use phase_golem.Scheduler.Advanced.{
  HandleLaws, Advanced, OneMore, any_order, blocked-Advanced, cleanup-Advanced,
}
use phase_golem.Coordinator.Handle.{CoordinatorHandle}
use phase_golem.Scheduler.Completed.{write_entry-Advanced, updates, o}

module _ {C : Type 0} (handle : CoordinatorHandle C) (R : C → C → Type 0)
    (archived : String → C → Type 0) (laws : HandleLaws handle R archived) (show : PgError → String)
    (id : String) where
  l : IsOrder (Advanced R archived (λ _ _. Unit {0}) id)
  l = o handle R archived laws show id (λ _ _. Unit {0}) any_order

  one_more-Loose :
      Follows (Advanced R archived (λ _ _. Unit {0}) id) (with_state one_more_exhausted)
  one_more-Loose = record {
    at = λ p. record {
      followed = laws.order.stays _;
      phases_executed = refl;
      cap = refl;
      current_target_index = refl;
      completed = ([], sym (append-nil _), tt);
      blocked = ([], sym (append-nil _), tt);
      exhausted = tt;
      others = λ j e. refl;
    };
  }

  counted :
      (item : Option Item) (reason : String) (p : Progress C)
      → OneMore p.state.consecutive_exhaustions
          ((write_entry show handle item (own_phase show handle) "Failed" reason
              >> (ask show handle (handle.update_item id (ItemUpdate.set_blocked reason))
                  >> (with_state (add_blocked id)
                      >> (with_state one_more_exhausted >> cleanup_terminal_summary id))))
            p).1.state.consecutive_exhaustions
  unfolding write_entry cleanup_terminal_summary
  counted none reason p =
      elim (Result-cases (handle.update_item id (ItemUpdate.set_blocked reason) p.coordinator).0) [
        | inl (e, q) ↦ rw q (inl refl)
        | inr (a, q) ↦ rw q (inr refl)
      ]
  counted (some item) reason p =
      elim (Result-cases
        (handle.update_item id (ItemUpdate.set_blocked reason)
          (handle.write_worklog item.id item.title (own_phase show handle item) "Failed" reason
            p.coordinator).1).0) [ inl (e, q) ↦ rw q (inl refl) | inr (a, q) ↦ rw q (inr refl) ]

  handle_phase_failed-Loose :
      (snapshot : List Item) (reason : String)
      → Follows
          (Advanced R archived (λ _ _. Unit {0}) id)
          (handle_phase_failed show handle snapshot id reason)
  unfolding handle_phase_failed
  handle_phase_failed-Loose snapshot reason =
      Follows-seq l _ _
        (write_entry-Advanced handle R archived laws show id (λ _ _. Unit {0}) any_order
          (find (has_id id) snapshot) (own_phase show handle) "Failed" reason)
        (Follows-seq l _ _
          (updates handle R archived laws show id (λ _ _. Unit {0}) any_order
            (ItemUpdate.set_blocked reason))
          (Follows-seq l _ _
            (blocked-Advanced handle R archived laws (λ _ _. Unit {0}) any_order id)
            (Follows-seq l _ _ one_more-Loose
              (cleanup-Advanced handle R archived laws (λ _ _. Unit {0}) any_order id))))

  pub handle_phase_failed-Advanced :
      (snapshot : List Item) (reason : String)
      → Follows
          (Advanced R archived OneMore id)
          (handle_phase_failed show handle snapshot id reason)
  unfolding handle_phase_failed
  handle_phase_failed-Advanced snapshot reason = record {
    at = λ p.
        let h = (handle_phase_failed-Loose snapshot reason).at p in
        record {
          followed = h.followed;
          phases_executed = h.phases_executed;
          cap = h.cap;
          current_target_index = h.current_target_index;
          completed = h.completed;
          blocked = h.blocked;
          exhausted = counted (find (has_id id) snapshot) reason p;
          others = h.others;
        };
  }
