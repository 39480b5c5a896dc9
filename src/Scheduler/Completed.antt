-- ===== src/Scheduler/Completed.antt =====
-- What each handler of a finished task changes in the scheduler (src/scheduler.rs), on every path
-- through it, whichever requests to the coordinator fail.
use phase_golem.Prelude.{
  ℕ, String, ◌≡◌, refl, sym, Bool, true, false, ◌||◌, Option, none, some, List, [], ◌∷◌, string_eq,
  find, is_empty, lookup, Result, ok, err, Bool-cases, map_err, inl, inr,
}
use mathlib.Core.List.{append-nil}
use phase_golem.Prelude.Actions.{
  Action, ◌>>◌, done, Follows, IsOrder, Follows-attempt, Follows-bind, Follows-seq, Follows-done,
  Follows-if, Follows-or_fail, bind-at,
}
use phase_golem.Types.{
  ItemUpdate, transition_status, clear_phase, update_assessments, UpdatedAssessments, ItemStatus,
  status_eq, PhaseResult, set_description, set_pipeline_type, unblock,
}
use phase_golem.PgItem.{Item}
use phase_golem.PgError.{PgError}
use phase_golem.Config.{PhaseGolemConfig}
use phase_golem.Executor.{resolve_transition}
use phase_golem.Scheduler.Items.{has_id, item_pipeline_type}
use phase_golem.Scheduler.Completion.{
  ask, write_entry, assess, ingest_follow_ups, with_state, add_completed, none_exhausted, own_phase,
  apply_transition_update, apply_transition_updates, handle_phase_success, handle_subphase_complete,
  handle_phase_blocked,
}
use phase_golem.Scheduler.Advanced.{
  HandleLaws, Advanced, AsBefore, as_before_order, advanced_order, asked, follow_ups-Advanced,
  blocked-Advanced, cleanup-Advanced, keep-Advanced,
}
use phase_golem.Coordinator.Handle.{CoordinatorHandle}

module _ {C : Type 0} (handle : CoordinatorHandle C) (R : C → C → Type 0)
    (archived : String → C → Type 0) (laws : HandleLaws handle R archived) (show : PgError → String)
    (id : String) where
  module _ (X : ℕ → ℕ → Type 0) (x : IsOrder X) where
    pub o : IsOrder (Advanced R archived X id)
    o = advanced_order handle R archived laws X x id

    pub asks :
        {A : Type 0} (m : Action PgError C A)
        → Follows R m
        → Follows (Advanced R archived X id) (ask show handle m)
    asks m h = asked handle R archived laws X x id show m h

    pub updates :
        (u : ItemUpdate)
        → Follows (Advanced R archived X id) (ask show handle (handle.update_item id u))
    updates u = asks (handle.update_item id u) (laws.update_law id u)

    pub write_entry-Advanced :
        (item : Option Item) (name : Item → String) (outcome text : String)
        → Follows (Advanced R archived X id) (write_entry show handle item name outcome text)
    unfolding write_entry
    write_entry-Advanced none name outcome text = Follows-done o tt
    write_entry-Advanced (some item) name outcome text = Follows-attempt _ (
        asks (handle.write_worklog item.id item.title (name item) outcome text)
          (laws.worklog_law item.id item.title (name item) outcome text))

    pub assess-Advanced :
        (a : Option UpdatedAssessments)
        → Follows (Advanced R archived X id) (assess show handle id a)
    assess-Advanced none = Follows-done o tt
    assess-Advanced (some a) = updates (update_assessments a)

    pub ingest-Advanced :
        (r : PhaseResult) → Follows (Advanced R archived X id) (ingest_follow_ups show handle r)
    unfolding ingest_follow_ups
    ingest-Advanced r = record {
      at = λ p. elim (Bool-cases (is_empty r.follow_ups)) [
        | inl e ↦ rw e (o.stays p)
        | inr e ↦ rw e ((asks _ (laws.ingest_law r.follow_ups _)).at p)
      ];
    }

  b : IsOrder (Advanced R archived AsBefore id)
  b = o AsBefore as_before_order

  -- The item is entered as completed only after its archival.
  archival-Advanced : Follows (Advanced R archived AsBefore id) (
      ask show handle (handle.archive_item id)
      >> (with_state (add_completed id) >> done {E = String} true))
  archival-Advanced = record {
    at = λ p.
        bind-at b (ask show handle (handle.archive_item id)) _ p
          ((asks AsBefore as_before_order (handle.archive_item id) (laws.archive_law id)).at p)
          (λ _ e. record {
            followed = laws.order.stays _;
            phases_executed = refl;
            cap = refl;
            current_target_index = refl;
            completed = (
              id ∷ [],
              refl,
              (
                (
                  refl,
                  laws.archives id p.coordinator
                      (archived_ok (handle.archive_item id p.coordinator).0 e),
                ),
                tt,
              ),
            );
            blocked = ([], sym (append-nil _), tt);
            exhausted = inr refl;
            others = λ j e. refl;
          });
  }
    where
      archived_ok :
          (r : Result PgError (Unit {0})) {a : Unit {0}} → map_err show r ≡ ok a → r ≡ ok tt
      archived_ok (ok a) h = refl
      archived_ok (err e) h = cc h

  plain :
      (u : ItemUpdate)
      → Follows
          (Advanced R archived AsBefore id)
          (ask show handle (handle.update_item id u) >> done {E = String} false)
  plain u = Follows-seq b _ _ (updates AsBefore as_before_order u) (Follows-done b false)

  update-Advanced :
      (u : ItemUpdate)
      → Follows (Advanced R archived AsBefore id) (apply_transition_update show handle id u)
  unfolding apply_transition_update
  update-Advanced (transition_status ItemStatus.done) =
      Follows-seq b _ _ (updates AsBefore as_before_order (transition_status ItemStatus.done))
        archival-Advanced
  update-Advanced (ItemUpdate.set_blocked reason) =
      Follows-seq b _ _ (updates AsBefore as_before_order (ItemUpdate.set_blocked reason)) (
        Follows-seq b _ _ (blocked-Advanced handle R archived laws AsBefore as_before_order id)
          (Follows-done b true))
  update-Advanced (transition_status ItemStatus.new) = plain (transition_status ItemStatus.new)
  update-Advanced (transition_status ItemStatus.scoping) =
      plain (transition_status ItemStatus.scoping)
  update-Advanced (transition_status ItemStatus.ready) = plain (transition_status ItemStatus.ready)
  update-Advanced (transition_status ItemStatus.in_progress) =
      plain (transition_status ItemStatus.in_progress)
  update-Advanced (transition_status ItemStatus.blocked) =
      plain (transition_status ItemStatus.blocked)
  update-Advanced (ItemUpdate.set_phase name) = plain (ItemUpdate.set_phase name)
  update-Advanced (ItemUpdate.set_phase_pool pool) = plain (ItemUpdate.set_phase_pool pool)
  update-Advanced (clear_phase) = plain (clear_phase)
  update-Advanced (unblock) = plain (unblock)
  update-Advanced (update_assessments levels) = plain (update_assessments levels)
  update-Advanced (set_pipeline_type type) = plain (set_pipeline_type type)
  update-Advanced (ItemUpdate.set_last_phase_commit sha) =
      plain (ItemUpdate.set_last_phase_commit sha)
  update-Advanced (set_description d) = plain (set_description d)

  pub transitions-Advanced :
      (t : Bool) (us : List ItemUpdate)
      → Follows (Advanced R archived AsBefore id) (apply_transition_updates show handle id t us)
  unfolding apply_transition_updates
  transitions-Advanced t [] = Follows-done b t
  transitions-Advanced t (u ∷ us) =
      Follows-bind b (apply_transition_update show handle id u) _ (update-Advanced u)
        (λ ends. transitions-Advanced (t || ends) us)

  pub handle_phase_success-Advanced :
      (config : PhaseGolemConfig) (r : PhaseResult)
      → Follows (Advanced R archived AsBefore id) (handle_phase_success show handle config id r)
  unfolding handle_phase_success
  handle_phase_success-Advanced config r =
      Follows-seq b _ _ (assess-Advanced AsBefore as_before_order r.updated_assessments) (
        Follows-bind b _ _ (ingest-Advanced AsBefore as_before_order r) (λ count.
          Follows-seq b _ _
            (follow_ups-Advanced handle R archived laws AsBefore as_before_order id count)
            (Follows-bind b _ _
              (asks AsBefore as_before_order handle.get_snapshot laws.snapshot_law)
              (λ snapshot.
                Follows-bind b _ _ (Follows-or_fail b _ (find (has_id id) snapshot)) (λ item.
                  Follows-bind b _ _
                    (Follows-or_fail b _ (lookup (item_pipeline_type item) config.pipelines))
                    (λ pipeline.
                      Follows-seq b _ _
                        (write_entry-Advanced AsBefore as_before_order (some item) (λ _. r.phase)
                          "Complete" r.summary)
                        (Follows-seq b _ _
                          (asks AsBefore as_before_order _ (laws.complete_law id r _))
                          (Follows-bind b _ _
                            (transitions-Advanced false
                              (resolve_transition item r pipeline config.guardrails))
                            (λ is_terminal.
                              Follows-if is_terminal _ _
                                (cleanup-Advanced handle R archived laws AsBefore as_before_order
                                  id)
                                (keep-Advanced handle R archived laws AsBefore as_before_order id
                                  r.summary))))))))))

  pub handle_subphase_complete-Advanced :
      (snapshot : List Item) (r : PhaseResult)
      → Follows
          (Advanced R archived AsBefore id)
          (handle_subphase_complete show handle snapshot id r)
  unfolding handle_subphase_complete
  handle_subphase_complete-Advanced snapshot r =
      Follows-seq b _ _
        (write_entry-Advanced AsBefore as_before_order (find (has_id id) snapshot) (λ _. r.phase)
          "Subphase Complete" r.summary)
        (Follows-seq b _ _ (assess-Advanced AsBefore as_before_order r.updated_assessments) (
          Follows-bind b _ _ (ingest-Advanced AsBefore as_before_order r) (λ count.
            Follows-seq b _ _
              (follow_ups-Advanced handle R archived laws AsBefore as_before_order id count)
              (Follows-seq b _ _ (asks AsBefore as_before_order _ (laws.complete_law id r true))
                (keep-Advanced handle R archived laws AsBefore as_before_order id r.summary)))))

  none_exhausted-Advanced : Follows (Advanced R archived AsBefore id) (with_state none_exhausted)
  none_exhausted-Advanced = record {
    at = λ p. record {
      followed = laws.order.stays _;
      phases_executed = refl;
      cap = refl;
      current_target_index = refl;
      completed = ([], sym (append-nil _), tt);
      blocked = ([], sym (append-nil _), tt);
      exhausted = inr refl;
      others = λ j e. refl;
    };
  }

  pub handle_phase_blocked-Advanced :
      (snapshot : List Item) (reason : String)
      → Follows
          (Advanced R archived AsBefore id)
          (handle_phase_blocked show handle snapshot id reason)
  unfolding handle_phase_blocked
  handle_phase_blocked-Advanced snapshot reason =
      Follows-seq b _ _
        (write_entry-Advanced AsBefore as_before_order (find (has_id id) snapshot)
          (own_phase show handle) "Blocked" reason)
        (Follows-seq b _ _ (updates AsBefore as_before_order (ItemUpdate.set_blocked reason)) (
          Follows-seq b _ _ (blocked-Advanced handle R archived laws AsBefore as_before_order id) (
            Follows-seq b _ _ none_exhausted-Advanced
              (cleanup-Advanced handle R archived laws AsBefore as_before_order id))))
