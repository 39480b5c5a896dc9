-- ===== src/Scheduler/Targeted.antt =====
-- What `select_targeted_actions` of src/scheduler.rs chooses.
use phase_golem.Prelude.{
  String, ◌≡◌, ◌≢◌, ◌⊎◌, inl, inr, false, none, some, List, [], ◌∷◌, arith, string_eq, find,
  Option-cases,
}
use phase_golem.Types.{ItemStatus, status_eq, SchedulerAction, triage, promote, run_phase}
use phase_golem.PgItem.{Item}
use phase_golem.PgItem.Getters.{pg_status}
use phase_golem.Config.{Pipelines}
use phase_golem.Scheduler.{RunningTasks, is_item_running, has_destructive}
use phase_golem.Scheduler.Dependencies.{AllMet, unmet_dep_summary_iff}
use phase_golem.Scheduler.Items.{has_id, skip_for_unmet_deps, build_run_phase_action}
use phase_golem.Scheduler.Target.{select_targeted_actions}

-- What stands behind the action for a target.
abbrev pub ForTarget : RunningTasks → Pipelines → String → Item → SchedulerAction → Type 0
ForTarget running pipelines id item (promote t) = (t ≡ id) × (pg_status item ≡ ItemStatus.ready)
ForTarget running pipelines id item (triage t) =
    (t ≡ id) × (pg_status item ≡ ItemStatus.new) × (is_item_running running id ≡ false)
ForTarget running pipelines id item (run_phase t name pool d) =
    (build_run_phase_action pipelines item ≡ some (run_phase t name pool d))
    × ((pg_status item ≡ ItemStatus.scoping) ⊎ (pg_status item ≡ ItemStatus.in_progress))
    × (is_item_running running id ≡ false)

pub record IsTargeted (items : List Item) (running : RunningTasks) (pipelines : Pipelines)
    (id : String) (a : SchedulerAction) : Type 0 where
  pub item : Item
  pub found : find (has_id id) items ≡ some item
  pub met : AllMet items item
  pub unlocked : has_destructive running ≡ false
  pub justified : ForTarget running pipelines id item a

module _ (items : List Item) (running : RunningTasks) (pipelines : Pipelines) (id : String) where
  only_runs :
      (item : Item) (t : String)
      → (build_run_phase_action pipelines item ≢ some (triage t))
        × (build_run_phase_action pipelines item ≢ some (promote t))
  unfolding build_run_phase_action
  only_runs item t = ground arith

  chosen_at :
      (target : Item) (a : SchedulerAction) (rest : List SchedulerAction)
      → find (has_id id) items ≡ some target
      → select_targeted_actions items running pipelines id ≡ a ∷ rest
      → (rest ≡ [])
        × (skip_for_unmet_deps target items ≡ false)
        × (has_destructive running ≡ false)
        × ForTarget running pipelines id target a
  unfolding select_targeted_actions
  chosen_at target (promote t) rest f h = ground (arith, (only_runs target t).1)
  chosen_at target (triage t) rest f h = ground (arith, (only_runs target t).0)
  chosen_at target (run_phase t name pool d) rest f h = ground arith

  missing : find (has_id id) items ≡ none → select_targeted_actions items running pipelines id ≡ []
  unfolding select_targeted_actions
  missing f = rw f

  met_of_skip : (target : Item) → skip_for_unmet_deps target items ≡ false → AllMet items target
  unfolding skip_for_unmet_deps
  met_of_skip target h = (unmet_dep_summary_iff target items).0 (ground arith)

-- If there is an action for a target, it is the only one; the target is in the store, its
-- dependencies are all met and no destructive task runs; and the action is the promotion of a ready
-- item, the triage of a new one, or the current phase of one in scoping or in progress, the last two
-- only while the target is not running.
pub select_targeted_actions-IsTargeted :
    (items : List Item) (running : RunningTasks) (pipelines : Pipelines) (id : String)
    (a : SchedulerAction) (rest : List SchedulerAction)
    → select_targeted_actions items running pipelines id ≡ a ∷ rest
    → (rest ≡ []) × IsTargeted items running pipelines id a
select_targeted_actions-IsTargeted items running pipelines id a rest h =
    elim (Option-cases (find (has_id id) items)) [
      | inl e ↦ absurd (cc (h, missing items running pipelines id e))
      | inr (target, e) ↦
          let facts = chosen_at items running pipelines id target a rest e h in
          (
            facts.0,
            record {
              item = target;
              found = e;
              met = met_of_skip items running pipelines id target facts.1;
              unlocked = facts.2;
              justified = facts.3;
            },
          )
    ]
