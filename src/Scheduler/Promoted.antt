-- ===== src/Scheduler/Promoted.antt =====
-- What a promotion does (`handle_promote` of src/scheduler.rs) to the store of the actor (src/coordinator.rs),
-- with whatever fails on the way.
use phase_golem.Prelude.{
  String, ◌≡◌, refl, inl, inr, Option, none, some, List, find, first, lookup, string_eq, Result, ok,
  err, Bool, Option-cases,
}
use phase_golem.Prelude.Actions.{Action, ◌>>◌}
use phase_golem.Types.{ItemStatus, ItemUpdate, transition_status, main, StructuredDescription}
use phase_golem.PgItem.{Value, Item}
use phase_golem.PgError.{PgError}
use phase_golem.Config.{PhaseConfig, PipelineConfig, PhaseGolemConfig}
use phase_golem.Coordinator.{World}
use phase_golem.Coordinator.Laws.{View, Same, WorldLaws}
use phase_golem.Coordinator.Handle.{Actor, CoordinatorHandle}
use phase_golem.Scheduler.Items.{has_id, item_pipeline_type}
use phase_golem.Scheduler.Completion.{Progress}
use phase_golem.Scheduler.Loop.{promote}
use phase_golem.Scheduler.Updated.{
  Outside, Promoted, actor, world_of, asks, elsewhere_order, Same-Outside, Changed-Outside,
  then_updated, last_updated, three_updates,
}

-- The phase is the first main phase in the pipeline of the item that the snapshot has under the id.
pub record FirstPhase (config : PhaseGolemConfig) (snapshot : List Item) (id : String)
    (ph : PhaseConfig) : Type 0 where
  pub seen : Item
  pub pipeline : PipelineConfig
  pub found : find (has_id id) snapshot ≡ some seen
  pub configured : lookup (item_pipeline_type seen) config.pipelines ≡ some pipeline
  pub begins : first pipeline.phases ≡ some ph

-- The coordinator's replies to the three updates, one after another, and its states after them.
module _ {C : Type 0} (handle : CoordinatorHandle C) (id : String) where
  abbrev moved : C → Result PgError (Unit {0}) × C
  moved c = handle.update_item id (transition_status ItemStatus.in_progress) c

  abbrev in_phase : PhaseConfig → C → Result PgError (Unit {0}) × C
  in_phase ph c = handle.update_item id (ItemUpdate.set_phase ph.name) (moved c).1

  abbrev in_pool : PhaseConfig → C → Result PgError (Unit {0}) × C
  in_pool ph c = handle.update_item id (ItemUpdate.set_phase_pool main) (in_phase ph c).1

-- Why a promotion from `a` ends with an error in `b`: the snapshot has no such item, or its pipeline is
-- not configured or has no main phase, and nothing was asked of the coordinator; or the coordinator
-- refused the first, the second or the third update, after it had carried out those before.
pub data Refused {C : Type 0} (show : PgError → String) (handle : CoordinatorHandle C)
    (config : PhaseGolemConfig) (snapshot : List Item) (id : String) (a : Progress C)
    : (reply : String) → (b : Progress C) → Type 0 where
  not_found :
      {reply : String}
      → find (has_id id) snapshot ≡ none
      → Refused show handle config snapshot id a reply a
  no_pipeline :
      {reply : String} (seen : Item)
      → find (has_id id) snapshot ≡ some seen
      → lookup (item_pipeline_type seen) config.pipelines ≡ none
      → Refused show handle config snapshot id a reply a
  no_phase :
      {reply : String} (seen : Item) (pipeline : PipelineConfig)
      → find (has_id id) snapshot ≡ some seen
      → lookup (item_pipeline_type seen) config.pipelines ≡ some pipeline
      → first pipeline.phases ≡ none
      → Refused show handle config snapshot id a reply a
  not_moved :
      (e : PgError)
      → (moved handle id a.coordinator).0 ≡ err e
      → Refused show handle config snapshot id a
          (show e)
          (record a { coordinator = (moved handle id a.coordinator).1 })
  not_in_phase :
      (ph : PhaseConfig) (e : PgError)
      → FirstPhase config snapshot id ph
      → (moved handle id a.coordinator).0 ≡ ok tt
      → (in_phase handle id ph a.coordinator).0 ≡ err e
      → Refused show handle config snapshot id a
          (show e)
          (record a { coordinator = (in_phase handle id ph a.coordinator).1 })
  not_in_pool :
      (ph : PhaseConfig) (e : PgError)
      → FirstPhase config snapshot id ph
      → (moved handle id a.coordinator).0 ≡ ok tt
      → (in_phase handle id ph a.coordinator).0 ≡ ok tt
      → (in_pool handle id ph a.coordinator).0 ≡ err e
      → Refused show handle config snapshot id a
          (show e)
          (record a { coordinator = (in_pool handle id ph a.coordinator).1 })

module _ {W : Type 0} (world : World W) (v : View W) (to_value : StructuredDescription → Value)
    (from_value : Value → Option StructuredDescription) (show : PgError → String) (id : String)
    (before : String → String → Bool) (config : PhaseGolemConfig) (snapshot : List Item) where
  -- A promotion that succeeds promotes the item; one that fails has a reason.
  abbrev pub Promotes : Progress (Actor W) → Result String (Unit {0}) × Progress (Actor W) → Type 0
  Promotes p (ok _, q) =
      ((ph : PhaseConfig) × FirstPhase config snapshot id ph
        × Promoted v id ph (world_of p) (world_of q))
      × (q.state ≡ p.state)
  Promotes p (err e, q) =
      Refused show (actor world to_value from_value) config snapshot id p e q
      × Outside v id (world_of p) (world_of q)
      × (q.state ≡ p.state)

  module _ (laws : WorldLaws world v) where
    abbrev asks_for : ItemUpdate → Action String (Progress (Actor W)) (Unit {0})
    asks_for = asks world to_value from_value show id

    abbrev three_asks : PhaseConfig → Action String (Progress (Actor W)) (Unit {0})
    three_asks ph =
        asks_for (transition_status ItemStatus.in_progress)
        >> (asks_for (ItemUpdate.set_phase ph.name) >> asks_for (ItemUpdate.set_phase_pool main))

    updated :
        (p : Progress (Actor W)) (ph : PhaseConfig)
        → FirstPhase config snapshot id ph
        → Promotes p (three_asks ph p)
    updated p ph chosen =
        let refused = λ (a b : W) (h : Same v a b) (f : Outside v id (world_of p) a).
          (elsewhere_order v id).joins (world_of p) a b f (Same-Outside v id a b h) in
        then_updated world v laws to_value from_value show id (Promotes p) _ _ p
          (λ x q h. (not_moved x q, refused _ _ h ((elsewhere_order v id).stays _), refl))
          (λ q1 d1.
            let f1 = Changed-Outside v id _ _ _ d1 in
            then_updated world v laws to_value from_value show id (Promotes p) _ _ _
              (λ x q h. (not_in_phase ph x chosen q1 q, refused _ _ h f1, refl))
              (λ q2 d2.
                let f2 = (elsewhere_order v id).joins _ _ _ f1 (Changed-Outside v id _ _ _ d2) in
                last_updated world v laws to_value from_value show id (Promotes p) _ _
                  (λ x q h. (not_in_pool ph x chosen q1 q2 q, refused _ _ h f2, refl))
                  (λ q3 d3. ((ph, chosen, three_updates v id to_value ph _ _ _ _ d1 d2 d3), refl))))

    -- Whatever fails, a promotion through the actor leaves every other item, their order, the archive
    -- and the scheduler's state as they were. Where it succeeds, the stored item is in the first
    -- main phase of the pipeline of the item that the snapshot has under the id, in the main pool,
    -- and in progress if its stored status was one to which that is allowed, else in the status
    -- that it had. Where it fails, the snapshot has no such item, or the pipeline or its first phase
    -- is missing, and nothing has changed; or the coordinator refused the transition, the phase or
    -- the pool, after it had carried out the updates before, and its error is reported.
    pub promote-Promotes :
        (p : Progress (Actor W))
        → Promotes p (promote show before (actor world to_value from_value) config snapshot id p)
    unfolding promote
    promote-Promotes p = elim (Option-cases (find (has_id id) snapshot)) [
      | inl e ↦ rw e (not_found e, (elsewhere_order v id).stays _, refl)
      | inr (seen, e) ↦
          rw e (elim (Option-cases (lookup (item_pipeline_type seen) config.pipelines)) [
            | inl e' ↦ rw e' (no_pipeline seen e e', (elsewhere_order v id).stays _, refl)
            | inr (pipeline, e') ↦ rw e' (elim (Option-cases (first pipeline.phases)) [
              | inl k ↦ rw k (no_phase seen pipeline e e' k, (elsewhere_order v id).stays _, refl)
              | inr (ph, k) ↦ rw k (
                  updated p ph (record {
                    seen = seen;
                    pipeline = pipeline;
                    found = e;
                    configured = e';
                    begins = k;
                  }))
            ])
          ])
    ]
