-- ===== src/Scheduler/Triaged.antt =====
-- What the handler of a triage in src/scheduler.rs changes, on every path through it.
use phase_golem.Prelude.{
  String, refl, sym, Bool, true, false, ◌||◌, Option, none, some, List, [], ◌∷◌, ◌==◌, string_eq,
  find, is_empty, is_some, lookup, Result, ok, err, inl,
}
use mathlib.Core.List.{append-nil}
use phase_golem.Prelude.Actions.{
  Action, Follows, IsOrder, Follows-attempt, Follows-bind, Follows-seq, Follows-done, Follows-if,
  Follows-or_fail,
}
use phase_golem.Types.{
  ItemUpdate, transition_status, ItemStatus, status_eq, PhaseResult, StructuredDescription,
  description_is_empty, ResultCode, set_description, set_pipeline_type, pre,
}
use phase_golem.PgItem.{Item}
use phase_golem.PgItem.Getters.{pg_status}
use phase_golem.PgError.{PgError}
use phase_golem.Config.{PhaseConfig, PhaseGolemConfig}
use phase_golem.Scheduler.Items.{has_id, item_pipeline_type}
use phase_golem.Scheduler.Completion.{Progress, ask, with_state}
use phase_golem.Scheduler.Advanced.{
  HandleLaws, Advanced, AsBefore, as_before_order, follow_ups-Advanced, blocked-Advanced,
}
use phase_golem.Coordinator.Handle.{CoordinatorHandle}
use phase_golem.Scheduler.Completed.{
  o, asks, updates, write_entry-Advanced, assess-Advanced, ingest-Advanced,
}
use phase_golem.Scheduler.Duplicates.{
  find_duplicate, one_more_merged, after_merge, merge_into, merge_duplicate, process_merges,
}
use phase_golem.Scheduler.Triage.{
  is_small_low_risk, describe, pre_phases_of, assign_type, enter_pre, route_item, route_result,
  apply_triage_result, record_blocked, finish_triage, handle_triage_success,
}

module _ {C : Type 0} (handle : CoordinatorHandle C) (R : C → C → Type 0)
    (archived : String → C → Type 0) (laws : HandleLaws handle R archived) (show : PgError → String)
    (id : String) where
  b : IsOrder (Advanced R archived AsBefore id)
  b = o handle R archived laws show id AsBefore as_before_order

  ask-Advanced :
      {A : Type 0} (m : Action PgError C A)
      → Follows R m
      → Follows (Advanced R archived AsBefore id) (ask show handle m)
  ask-Advanced m h = asks handle R archived laws show id AsBefore as_before_order m h

  update-Advanced :
      (u : ItemUpdate)
      → Follows (Advanced R archived AsBefore id) (ask show handle (handle.update_item id u))
  update-Advanced u = updates handle R archived laws show id AsBefore as_before_order u

  merged-Advanced : Follows (Advanced R archived AsBefore id) (with_state one_more_merged)
  merged-Advanced = record {
    at = λ p. record {
      followed = laws.order.stays _;
      phases_executed = refl;
      cap = refl;
      current_target_index = refl;
      completed = ([], sym (append-nil _), tt);
      blocked = ([], sym (append-nil _), tt);
      exhausted = inl refl;
      others = λ j e. refl;
    };
  }

  after_merge-Advanced :
      (source : String) (r : Result String (Unit {0}))
      → Follows (Advanced R archived AsBefore id) (after_merge show handle id source r)
  after_merge-Advanced source (ok a) = Follows-seq b _ _ merged-Advanced (Follows-done b _)
  after_merge-Advanced source (err e) = Follows-done b false

  merge_into-Advanced :
      (source target : String)
      → Follows (Advanced R archived AsBefore id) (merge_into show handle id source target)
  unfolding merge_into
  merge_into-Advanced source target = record {
    at = λ p.
        let out = ask show handle (handle.merge_item source target) p in
        b.joins p out.1 _
          ((ask-Advanced (handle.merge_item source target) (laws.merge_law source target)).at p)
          ((after_merge-Advanced source out.0).at out.1);
  }

  merge_duplicate-Advanced :
      (snap : List Item) (dup : Item) (direction : String × String)
      → Follows
          (Advanced R archived AsBefore id)
          (merge_duplicate show handle id snap dup direction)
  unfolding merge_duplicate
  merge_duplicate-Advanced snap dup (source, target) =
      Follows-seq b _ _
        (write_entry-Advanced handle R archived laws show id AsBefore as_before_order _
          (λ _. "triage") "Merged" _)
        (merge_into-Advanced source target)

  one_duplicate :
      (found : Option Item) (rest : Action String (Progress C) Bool)
      (next : Item → Action String (Progress C) Bool)
      → Follows (Advanced R archived AsBefore id) rest
      → ((i : Item) → Follows (Advanced R archived AsBefore id) (next i))
      → Follows (Advanced R archived AsBefore id) (elim found [ none ↦ rest | some i ↦ next i ])
  one_duplicate none rest next h k = h
  one_duplicate (some i) rest next h k = k i

  pub process_merges-Advanced :
      (dups : List String)
      → Follows (Advanced R archived AsBefore id) (process_merges show handle id dups)
  unfolding process_merges
  process_merges-Advanced [] = Follows-done b false
  process_merges-Advanced (dup_id ∷ dups) =
      let rest = process_merges-Advanced dups in
      Follows-bind b _ _ (ask-Advanced handle.get_snapshot laws.snapshot_law) (λ snap.
        one_duplicate (find_duplicate dup_id snap) _ _ rest (λ dup.
          Follows-bind b _ _ (merge_duplicate-Advanced snap dup _)
            (λ is_gone. Follows-if is_gone _ _ (Follows-done b true) rest)))

  module _ (config : PhaseGolemConfig) where
    describe-Advanced :
        (d : Option StructuredDescription)
        → Follows (Advanced R archived AsBefore id) (describe show handle config id d)
    unfolding describe
    describe-Advanced none = Follows-done b tt
    describe-Advanced (some d) =
        Follows-if (description_is_empty d) _ _ (Follows-done b tt)
          (update-Advanced (set_description d))

    assign_type-Advanced :
        (type : Option String)
        → Follows (Advanced R archived AsBefore id) (assign_type show handle config id type)
    unfolding assign_type
    assign_type-Advanced none = Follows-done b true
    assign_type-Advanced (some type) =
        Follows-if (is_some (lookup type config.pipelines)) _ _
          (Follows-seq b _ _ (update-Advanced (set_pipeline_type type)) (Follows-done b true))
          (Follows-seq b _ _ (update-Advanced (ItemUpdate.set_blocked _)) (Follows-done b false))

    enter_pre-Advanced :
        (p : Option PhaseConfig)
        → Follows (Advanced R archived AsBefore id) (enter_pre show handle config id p)
    enter_pre-Advanced none = Follows-done b tt
    enter_pre-Advanced (some p) =
        Follows-seq b _ _ (update-Advanced (ItemUpdate.set_phase p.name))
          (update-Advanced (ItemUpdate.set_phase_pool pre))

    route_item-Advanced :
        (item : Item)
        → Follows (Advanced R archived AsBefore id) (route_item show handle config id item)
    unfolding route_item
    route_item-Advanced item =
        Follows-if
          (is_small_low_risk item
            || is_empty (pre_phases_of (lookup (item_pipeline_type item) config.pipelines)))
          _ _
          (Follows-seq b _ _ (update-Advanced (transition_status ItemStatus.scoping))
            (update-Advanced (transition_status ItemStatus.ready)))
          (Follows-seq b _ _ (update-Advanced (transition_status ItemStatus.scoping))
            (enter_pre-Advanced _))

    route_result-Advanced :
        (r : PhaseResult) (code : ResultCode)
        → Follows (Advanced R archived AsBefore id) (route_result show handle config id r code)
    unfolding route_result
    route_result-Advanced r ResultCode.phase_complete =
        Follows-bind b _ _ (ask-Advanced handle.get_snapshot laws.snapshot_law) (λ snap.
          Follows-bind b _ _ (Follows-or_fail b _ (find (has_id id) snap))
            (λ item. route_item-Advanced item))
    route_result-Advanced r ResultCode.blocked = update-Advanced (ItemUpdate.set_blocked _)
    route_result-Advanced r ResultCode.failed = Follows-done b tt
    route_result-Advanced r ResultCode.subphase_complete = Follows-done b tt

    apply_triage_result-Advanced :
        (r : PhaseResult)
        → Follows (Advanced R archived AsBefore id) (apply_triage_result show handle config id r)
    unfolding apply_triage_result
    apply_triage_result-Advanced r =
        Follows-seq b _ _
          (assess-Advanced handle R archived laws show id AsBefore as_before_order
            r.updated_assessments)
          (Follows-seq b _ _ (describe-Advanced r.description) (
            Follows-bind b _ _ (assign_type-Advanced r.pipeline_type) (λ goes_on.
              Follows-if goes_on _ _ (route_result-Advanced r r.result) (Follows-done b tt))))

    record_blocked-Advanced :
        (item : Option Item)
        → Follows (Advanced R archived AsBefore id) (record_blocked show handle config id item)
    record_blocked-Advanced none = Follows-done b tt
    record_blocked-Advanced (some item) =
        Follows-if (pg_status item == ItemStatus.blocked) _ _
          (blocked-Advanced handle R archived laws AsBefore as_before_order id) (Follows-done b tt)

    finish_triage-Advanced :
        (r : PhaseResult)
        → Follows (Advanced R archived AsBefore id) (finish_triage show handle config id r)
    unfolding finish_triage
    finish_triage-Advanced r = Follows-seq b _ _ (ask-Advanced _ (laws.complete_law id r true)) (
        Follows-seq b _ _ (apply_triage_result-Advanced r) (
          Follows-bind b _ _ (ask-Advanced handle.get_snapshot laws.snapshot_law)
            (λ snap. record_blocked-Advanced (find (has_id id) snap))))

    pub handle_triage_success-Advanced :
        (snapshot : List Item) (r : PhaseResult)
        → Follows
            (Advanced R archived AsBefore id)
            (handle_triage_success show handle config id snapshot r)
    unfolding handle_triage_success
    handle_triage_success-Advanced snapshot r =
        Follows-seq b _ _
          (write_entry-Advanced handle R archived laws show id AsBefore as_before_order
            (find (has_id id) snapshot) (λ _. "triage") _ r.summary)
          (Follows-bind b _ _
            (ingest-Advanced handle R archived laws show id AsBefore as_before_order r)
            (λ count.
              Follows-seq b _ _
                (follow_ups-Advanced handle R archived laws AsBefore as_before_order id count)
                (Follows-bind b _ _ (process_merges-Advanced r.duplicates) (λ is_merged.
                  Follows-if is_merged _ _
                    (Follows-attempt _ (ask-Advanced _ (laws.complete_law id r true)))
                    (finish_triage-Advanced r)))))
