-- ===== src/Scheduler/Updated.antt =====
-- What updates through the handle of the coordinator (src/coordinator.rs) leave of the store, and where
-- the three updates of a promotion (src/scheduler.rs) leave the item.
use phase_golem.Prelude.{
  ℕ, String, ◌≡◌, ◌≢◌, refl, ◌∙◌, ap, subst, ◌⊎◌, inl, inr, true, Option, some, List, [], ◌∷◌, ◌==◌,
  string_eq, eq_iff, if◌then◌else◌, Result, ok, err, Bool-cases, arith,
}
use phase_golem.Prelude.Actions.{Action, ◌>>◌, IsOrder}
use phase_golem.Types.{
  ItemStatus, ItemUpdate, transition_status, main, StructuredDescription, is_valid_transition,
}
use phase_golem.PgItem.{Value, Item}
use phase_golem.PgItem.Getters.{pg_status, phase, phase_pool}
use phase_golem.PgItem.Setters.{set_phase, set_phase_pool}
use phase_golem.PgItem.Update.{apply_update, apply_transition}
use phase_golem.PgItem.Lifecycle.{pg_status-set_pg_status}
use phase_golem.PgError.{PgError}
use phase_golem.Config.{PhaseConfig}
use phase_golem.Coordinator.{World}
use phase_golem.Coordinator.Ids.{has}
use phase_golem.Coordinator.Laws.{View, Same, WorldLaws}
use phase_golem.Coordinator.Outcomes.{stored, mapped, ids_of, Changed, handle_update_item-Whole}
use phase_golem.Coordinator.Handle.{Actor, CoordinatorHandle, send_command, handle_of}
use phase_golem.Scheduler.Completion.{Progress, ask}

-- The other items, the order of the store and the archive are as they were.
pub record Outside {W : Type 0} (v : View W) (id : String) (a b : W) : Type 0 where
  pub others : (j : String) → j ≢ id → stored j (v.active b) ≡ stored j (v.active a)
  pub ordered : ids_of (v.active b) ≡ ids_of (v.active a)
  pub archived : v.archive b ≡ v.archive a

-- The stored item is in the phase, in the main pool; it is in progress if its status allowed that.
pub record Promoted {W : Type 0} (v : View W) (id : String) (p : PhaseConfig) (a b : W)
    : Type 0 where
  pub was : Item
  pub found : stored id (v.active a) ≡ some was
  pub is : Item
  pub left : stored id (v.active b) ≡ some is
  pub moved : pg_status is ≡ (
      if is_valid_transition (pg_status was) ItemStatus.in_progress
      then ItemStatus.in_progress
      else pg_status was)
  pub at_first : phase is ≡ some p.name
  pub in_main : phase_pool is ≡ some main
  pub outside : Outside v id a b

has-stored :
    (id : String) (items : List Item)
    → has id items ≡ true
    → (i : Item) × (stored id items ≡ some i)
has-stored id [] h = cc h
has-stored id (i ∷ items) h = elim (Bool-cases (i.id == id)) [
  | inl e ↦ (i, rw e refl)
  | inr e ↦ rw e (has-stored id items (ground (arith, e, h)))
]

module _ {W : Type 0} (v : View W) (id : String) where
  pub elsewhere_order : IsOrder (Outside v id)
  elsewhere_order = record {
    stays = λ s. record { others = λ j d. refl; ordered = refl; archived = refl };
    joins = λ a b c f g. record {
      others = λ j d. g.others j d ∙ f.others j d;
      ordered = g.ordered ∙ f.ordered;
      archived = g.archived ∙ f.archived;
    };
  }

  pub Same-Outside : (a b : W) → Same v a b → Outside v id a b
  Same-Outside a b h = record {
    others = λ j d. ap (stored j) h.0;
    ordered = ap ids_of h.0;
    archived = h.1;
  }

  module _ (f : ℕ → Item → Item) (a b : W) (c : Changed v id f a b) where
    pub Changed-Outside : Outside v id a b
    Changed-Outside = record {
      others = λ j d. elim (Bool-cases (j == id)) [
        | inl e ↦ absurd (d ((eq_iff j id).0 e))
        | inr e ↦
            subst
              (λ z.
                stored j (v.active b)
                ≡ (if z then mapped (f c.now) (stored j (v.active a)) else stored j (v.active a)))
              e (c.stores j)
      ];
      ordered = c.ordered;
      archived = c.archived;
    }

    Changed-stored :
        (i : Item) → stored id (v.active a) ≡ some i → stored id (v.active b) ≡ some (f c.now i)
    Changed-stored i h = ground (arith, c.stores id, eq_iff id id, h)

module _ (to_value : StructuredDescription → Value) (n1 n2 n3 : ℕ) (i : Item) (name : String) where
  abbrev i1 : Item
  i1 = apply_update n1 to_value i (transition_status ItemStatus.in_progress)

  abbrev i3 : Item
  i3 =
      apply_update n3 to_value (apply_update n2 to_value i1 (ItemUpdate.set_phase name))
        (ItemUpdate.set_phase_pool main)

  pg_status-i1 : pg_status i1 ≡ (
      if is_valid_transition (pg_status i) ItemStatus.in_progress
      then ItemStatus.in_progress
      else pg_status i)
  unfolding apply_update apply_transition
  pg_status-i1 = elim (Bool-cases (is_valid_transition (pg_status i) ItemStatus.in_progress)) [
    | inl e ↦ rw (e, pg_status-set_pg_status) refl
    | inr e ↦ rw e refl
  ]

  pg_status-i3 : pg_status i3 ≡ pg_status i1
  unfolding apply_update set_phase set_phase_pool pg_status
  pg_status-i3 = refl

  phase-i3 : phase i3 ≡ some name
  unfolding apply_update set_phase set_phase_pool phase
  phase-i3 = refl

  phase_pool-i3 : phase_pool i3 ≡ some main
  unfolding apply_update set_phase_pool phase_pool
  phase_pool-i3 = refl

abbrev pub world_of : {W : Type 0} → Progress (Actor W) → W
world_of p = p.coordinator.state.world

module _ {W : Type 0} (v : View W) (id : String) (to_value : StructuredDescription → Value) where
  abbrev pub Did : ItemUpdate → W → W → Type 0
  Did u a b = Changed v id (λ now i. apply_update now to_value i u) a b

  pub three_updates :
      (ph : PhaseConfig) (a b c d : W)
      → Did (transition_status ItemStatus.in_progress) a b
      → Did (ItemUpdate.set_phase ph.name) b c
      → Did (ItemUpdate.set_phase_pool main) c d
      → Promoted v id ph a d
  three_updates ph a b c d f g h =
      let (i, e) = has-stored id (v.active a) f.there in
      let e1 = Changed-stored v id _ a b f i e in
      let e2 = Changed-stored v id _ b c g _ e1 in
      record {
        was = i;
        found = e;
        is = i3 to_value f.now g.now h.now i ph.name;
        left = Changed-stored v id _ c d h _ e2;
        moved =
            pg_status-i3 to_value f.now g.now h.now i ph.name
            ∙ pg_status-i1 to_value f.now g.now h.now i ph.name;
        at_first = phase-i3 to_value f.now g.now h.now i ph.name;
        in_main = phase_pool-i3 to_value f.now g.now h.now i ph.name;
        outside = (elsewhere_order v id).joins a b d (Changed-Outside v id _ a b f) (
            (elsewhere_order v id).joins b c d (Changed-Outside v id _ b c g)
              (Changed-Outside v id _ c d h));
      }

module _ {W : Type 0} (world : World W) (to_value : StructuredDescription → Value)
    (from_value : Value → Option StructuredDescription) where
  abbrev pub actor : CoordinatorHandle (Actor W)
  actor = handle_of world to_value from_value

  abbrev pub asks :
      (PgError → String) → String → ItemUpdate → Action String (Progress (Actor W)) (Unit {0})
  asks show id u = ask show actor (actor.update_item id u)

module _ {W : Type 0} (world : World W) (v : View W) (laws : WorldLaws world v)
    (to_value : StructuredDescription → Value)
    (from_value : Value → Option StructuredDescription) where
  abbrev Updated : String → ItemUpdate → Actor W → Result PgError (Unit {0}) × Actor W → Type 0
  Updated id u a (r, b) =
      ((r ≡ ok tt) × Did v id to_value u a.state.world b.state.world)
      ⊎ ((e : PgError) × (r ≡ err e) × Same v a.state.world b.state.world)

  update_item-Updated :
      (id : String) (u : ItemUpdate) (a : Actor W)
      → Updated id u a ((actor world to_value from_value).update_item id u a)
  unfolding handle_of send_command
  update_item-Updated id u a = elim (Bool-cases a.is_running) [
    | inl e ↦ rw e (elim (handle_update_item-Whole world v laws to_value id u a.state.world) [
      | inl (_, q, d) ↦ inl (q, d)
      | inr (x, q, h) ↦ inr (x, q, h)
    ])
    | inr e ↦ rw e (inr (_, refl, (refl, refl)))
  ]

  module _ (show : PgError → String) (id : String) where
    -- An update through the handle and what follows it.
    pub then_updated :
        (Q : Result String (Unit {0}) × Progress (Actor W) → Type 0) (u : ItemUpdate)
        (next : Action String (Progress (Actor W)) (Unit {0})) (p : Progress (Actor W))
        → let out = (actor world to_value from_value).update_item id u p.coordinator in
          ((e : PgError)
            → out.0 ≡ err e
            → Same v (world_of p) out.1.state.world
            → Q (err (show e), record p { coordinator = out.1 }))
          → (out.0 ≡ ok tt
              → Did v id to_value u (world_of p) out.1.state.world
              → Q (next (record p { coordinator = out.1 })))
          → Q ((asks world to_value from_value show id u >> next) p)
    then_updated Q u next p bad good = elim (update_item-Updated id u p.coordinator) [
      | inl (q, d) ↦ rw q (good q d)
      | inr (e, q, h) ↦ rw q (bad e q h)
    ]

    pub last_updated :
        (Q : Result String (Unit {0}) × Progress (Actor W) → Type 0) (u : ItemUpdate)
        (p : Progress (Actor W))
        → let out = (actor world to_value from_value).update_item id u p.coordinator in
          ((e : PgError)
            → out.0 ≡ err e
            → Same v (world_of p) out.1.state.world
            → Q (err (show e), record p { coordinator = out.1 }))
          → (out.0 ≡ ok tt
              → Did v id to_value u (world_of p) out.1.state.world
              → Q (ok tt, record p { coordinator = out.1 }))
          → Q (asks world to_value from_value show id u p)
    last_updated Q u p bad good = elim (update_item-Updated id u p.coordinator) [
      | inl (q, d) ↦ rw q (good q d)
      | inr (e, q, h) ↦ rw q (bad e q h)
    ]
