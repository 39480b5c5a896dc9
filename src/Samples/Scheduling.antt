-- ===== src/Samples/Scheduling.antt =====
-- The scheduler on the small inputs.
use phase_golem.Prelude.{
  ◌≤◌, String, ◌≡◌, refl, ◌↔◌, true, false, none, some, List, [], ◌∷◌, All, arith, Result, ok, ◌==◌,
  is_some, ◌&&◌, concat, join,
}
use phase_golem.Types.{ItemStatus, status_eq, SchedulerAction, triage, run_phase, main}
use phase_golem.PgItem.Getters.{
  get_string_ext, pg_status, phase, phase_pool, pipeline_type, impact, get_dimension_ext,
}
use phase_golem.Scheduler.{has_destructive, non_destructive_count, is_item_running}
use phase_golem.Scheduler.Items.{
  unmet_deps, unmet_dep_summary, skip_for_unmet_deps, phase_index, sorted_ready_items,
  sorted_in_progress_items, sorted_scoping_items, sorted_new_items, build_run_phase_action,
}
use phase_golem.Scheduler.Dependencies.{AllMet, unmet_dep_summary_iff}
use phase_golem.Scheduler.Select.{
  is_free, promotions, run_actions, triage_actions, phase_actions, fill_slots, available_slots,
  in_progress_count, promotions_needed, select_actions,
}
use phase_golem.Scheduler.Slots.{IsSafe, select_actions-IsSafe}
use phase_golem.Scheduler.Spawn.{process_actions}
use phase_golem.Scheduler.Running.{OnOk}
use phase_golem.Scheduler.Rounds.{IsBounded, round-IsBounded}
use phase_golem.Scheduler.Eligible.{Justified, select_actions-Justified}
use phase_golem.Scheduler.Order.{ByImpact, ByPlace, Older, IsQueue, queues-IsQueue}
use phase_golem.Scheduler.Target.{
  select_targeted_actions, is_inactive, advance_over, advance_to_next_active_target,
}
use phase_golem.Scheduler.Targeted.{IsTargeted, select_targeted_actions-IsTargeted}
use phase_golem.Scheduler.Advance.{IsNext, advance-IsNext}
use phase_golem.Samples.{backlog, building, waiting, fresh, pipelines, two_at_once, idle, started}

program : Unit {0}
unfolding select_actions promotions run_actions triage_actions phase_actions fill_slots is_free
    available_slots in_progress_count promotions_needed has_destructive non_destructive_count
    is_item_running unmet_deps unmet_dep_summary skip_for_unmet_deps phase_index sorted_ready_items
    sorted_in_progress_items sorted_scoping_items sorted_new_items build_run_phase_action pg_status
    phase phase_pool pipeline_type impact get_string_ext get_dimension_ext select_targeted_actions
    is_inactive advance_over advance_to_next_active_target concat join
program = tt

-- The review is the furthest; the destructive build then waits for it, and with it the triage.
select_actions-backlog :
    select_actions backlog idle two_at_once pipelines ≡ run_phase "WRK-1" "review" main false ∷ []
unfolding program
select_actions-backlog = refl

-- Alone, the destructive phase is chosen, and the triage behind it is not.
select_actions-building :
    select_actions (building ∷ fresh ∷ []) idle two_at_once pipelines
    ≡ run_phase "WRK-2" "build" main true ∷ []
unfolding program
select_actions-building = refl

select_actions-IsSafe_example :
    IsSafe backlog idle two_at_once (select_actions backlog idle two_at_once pipelines)
select_actions-IsSafe_example = select_actions-IsSafe backlog idle two_at_once pipelines

select_actions-Justified_example :
    All (Justified backlog idle pipelines) (select_actions backlog idle two_at_once pipelines)
select_actions-Justified_example = select_actions-Justified backlog idle two_at_once pipelines

-- A store that is the list of the promoted items.
abbrev note_promotion : List String → String → Result String (List String)
note_promotion promoted id = ok (id ∷ promoted)

idle-IsBounded : IsBounded two_at_once idle
unfolding has_destructive
idle-IsBounded = ground arith

round-IsBounded_example :
    OnOk
      (λ after later. IsBounded two_at_once later × (after.phases_executed ≤ after.cap))
      (process_actions note_promotion [] started idle
        (select_actions backlog idle two_at_once pipelines))
round-IsBounded_example =
    round-IsBounded note_promotion [] backlog two_at_once pipelines started idle (omega arith)
      (omega arith) idle-IsBounded (omega arith)

queues-IsQueue_example :
    IsQueue ByImpact (λ i. pg_status i == ItemStatus.ready) backlog (sorted_ready_items backlog)
    × IsQueue
        (ByPlace pipelines)
        (λ i. pg_status i == ItemStatus.in_progress && is_some (phase i))
        backlog
        (sorted_in_progress_items pipelines backlog)
    × IsQueue
        (ByPlace pipelines)
        (λ i. pg_status i == ItemStatus.scoping && is_some (phase i))
        backlog
        (sorted_scoping_items pipelines backlog)
    × IsQueue Older (λ i. pg_status i == ItemStatus.new) backlog (sorted_new_items backlog)
queues-IsQueue_example = queues-IsQueue pipelines backlog

unmet_dep_summary_iff_example : (unmet_dep_summary waiting backlog ≡ none) ↔ AllMet backlog waiting
unmet_dep_summary_iff_example = unmet_dep_summary_iff waiting backlog

unmet_dep_summary-waiting : unmet_dep_summary waiting backlog ≡ some "WRK-2 (InProgress)"
unfolding program
unmet_dep_summary-waiting = refl

select_targeted_actions-IsTargeted_example :
    (◌≡◌ {A = List SchedulerAction} [] [])
    × IsTargeted backlog idle pipelines "WRK-4" (triage "WRK-4")
select_targeted_actions-IsTargeted_example =
    select_targeted_actions-IsTargeted backlog idle pipelines "WRK-4" (triage "WRK-4") []
      (unfold program in refl)

abbrev targets : List String
targets = "WRK-9" ∷ "WRK-1" ∷ "WRK-2" ∷ []

advance-targets : advance_to_next_active_target targets 0 ("WRK-1" ∷ []) backlog ≡ 2
unfolding program
advance-targets = refl

advance-IsNext_example :
    IsNext targets 0
      ("WRK-1" ∷ [])
      backlog
      (advance_to_next_active_target targets 0 ("WRK-1" ∷ []) backlog)
advance-IsNext_example = advance-IsNext targets 0 ("WRK-1" ∷ []) backlog (omega arith)
