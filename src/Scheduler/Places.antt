-- ===== src/Scheduler/Places.antt =====
-- Where the phase of an item stands in its pipeline, described without the search by which
-- src/scheduler.rs finds it.
use phase_golem.Prelude.{
  ℕ, suc, ◌+◌, String, ◌≡◌, ◌≢◌, refl, sym, subst, ◌∙◌, ap, ◌⊎◌, ◌↔◌, Option, none, some, List, [],
  ◌∷◌, ◌++◌, arith, ◌==◌, string_eq, eq_iff, All, position, length, lookup, unwrap_or, Bool-cases,
  inl, inr,
}
use phase_golem.Types.{PhasePool, pre, main}
use phase_golem.PgItem.{Item}
use phase_golem.PgItem.Getters.{phase, phase_pool}
use phase_golem.Config.{PhaseConfig, PipelineConfig, Pipelines}
use phase_golem.Executor.{is_named}
use phase_golem.Scheduler.Items.{item_pipeline_type, index_of, phase_index}

abbrev Others : String → List PhaseConfig → Type 0
Others name phases = All (λ (p : PhaseConfig). p.name ≢ name) phases

-- The first phase with the name has `n` phases before it.
pub record IsNth (phases : List PhaseConfig) (name : String) (n : ℕ) : Type 0 where
  pub front : List PhaseConfig
  pub here : PhaseConfig
  pub back : List PhaseConfig
  pub split : phases ≡ front ++ here ∷ back
  pub named : here.name ≡ name
  pub first_one : Others name front
  pub count : length front ≡ n

-- A name that is not in the list stands at 0.
abbrev pub StandsAt : List PhaseConfig → String → ℕ → Type 0
StandsAt phases name n = IsNth phases name n ⊎ (Others name phases × (n ≡ 0))

abbrev PlaceIn : Option PipelineConfig → Option String → Option PhasePool → ℕ → Type 0
PlaceIn none name pool n = n ≡ 0
PlaceIn (some pipeline) none pool n = n ≡ 0
PlaceIn (some pipeline) (some name) (some pre) n = StandsAt pipeline.pre_phases name n
PlaceIn (some pipeline) (some name) (some main) n =
    (k : ℕ) × StandsAt pipeline.phases name k × (n ≡ length pipeline.pre_phases + k)
PlaceIn (some pipeline) (some name) none n =
    (k : ℕ) × StandsAt pipeline.phases name k × (n ≡ length pipeline.pre_phases + k)

-- The item's phase has `n` phases of its pipeline before it: a pre-phase those of its own list, any
-- other all the pre-phases too. Without a pipeline or a phase it is 0.
abbrev pub Place : Pipelines → Item → ℕ → Type 0
Place pipelines item n =
    PlaceIn (lookup (item_pipeline_type item) pipelines) (phase item) (phase_pool item) n

abbrev Found : List PhaseConfig → String → Option ℕ → Type 0
Found phases name none = Others name phases
Found phases name (some n) = IsNth phases name n

Found-next :
    (p : PhaseConfig) (phases : List PhaseConfig) (name : String) (o : Option ℕ)
    → p.name ≢ name
    → Found phases name o
    → Found (p ∷ phases) name (elim o [ none ↦ none | some n ↦ some (suc n) ])
Found-next p phases name none d h = (d, h)
Found-next p phases name (some n) d h = record {
  front = p ∷ h.front;
  here = h.here;
  back = h.back;
  split = ap (λ z. p ∷ z) h.split;
  named = h.named;
  first_one = (d, h.first_one);
  count = ap suc h.count;
}

position-Found :
    (phases : List PhaseConfig) (name : String)
    → Found phases name (position (is_named name) phases)
position-Found [] name = tt
position-Found (p ∷ phases) name = elim (Bool-cases (p.name == name)) [
  | inl e ↦ rw e (record {
    front = [];
    here = p;
    back = phases;
    split = refl;
    named = (eq_iff p.name name).0 e;
    first_one = tt;
    count = refl;
  })
  | inr e ↦ rw e (
      Found-next p phases name (position (is_named name) phases)
        (λ q. let t = (eq_iff p.name name).1 q in cc (t, e)) (position-Found phases name))
]

position-none :
    (phases : List PhaseConfig) (name : String)
    → Others name phases
    → position (is_named name) phases ≡ none
position-none [] name h = refl
position-none (p ∷ phases) name h =
    ground (arith, eq_iff p.name name, position-none phases name h.1)

position-append :
    (front back : List PhaseConfig) (here : PhaseConfig) (name : String)
    → here.name ≡ name
    → Others name front
    → position (is_named name) (front ++ here ∷ back) ≡ some (length front)
position-append [] back here name e h = ground (arith, eq_iff here.name name)
position-append (p ∷ front) back here name e h =
    ground (arith, eq_iff p.name name, position-append front back here name e h.1)

-- The place of a name is the one that the search gives.
stands_iff :
    (phases : List PhaseConfig) (name : String) (n : ℕ)
    → StandsAt phases name n ↔ (n ≡ unwrap_or 0 (position (is_named name) phases))
stands_iff phases name n = (
  λ h. elim h [
    | inl i ↦
        rw (i.split, position-append i.front i.back i.here name i.named i.first_one) (sym i.count)
    | inr k ↦ rw (position-none phases name k.0) k.1
  ],
  λ e. placed n (position (is_named name) phases) e (position-Found phases name),
)
  where
    placed :
        (n : ℕ) (o : Option ℕ) → n ≡ unwrap_or 0 o → Found phases name o → StandsAt phases name n
    placed n none e h = inr (h, e)
    placed n (some k) e h = inl (subst (IsNth phases name) (sym e) h)

-- `phase_index` is the place of the item's phase.
pub Place-phase_index_iff :
    (pipelines : Pipelines) (item : Item) (n : ℕ)
    → Place pipelines item n ↔ (n ≡ phase_index pipelines item)
unfolding phase_index
Place-phase_index_iff pipelines item n =
    at_place (lookup (item_pipeline_type item) pipelines) (phase item) (phase_pool item)
  where
    behind :
        (pipeline : PipelineConfig) (name : String)
        → ((k : ℕ) × StandsAt pipeline.phases name k × (n ≡ length pipeline.pre_phases + k)) ↔ (
            n ≡ length pipeline.pre_phases + unwrap_or 0 (position (is_named name) pipeline.phases))
    behind pipeline name = (
      λ h.
          h.2
          ∙ ap (λ z. length pipeline.pre_phases + z) ((stands_iff pipeline.phases name h.0).0 h.1),
      λ e. (_, (stands_iff pipeline.phases name _).1 refl, e),
    )

    at_place :
        (o : Option PipelineConfig) (name : Option String) (pool : Option PhasePool)
        → PlaceIn o name pool n ↔ (n ≡ index_of o name pool)
    at_place none name pool = (λ h. h, λ h. h)
    at_place (some pipeline) none pool = (λ h. h, λ h. h)
    at_place (some pipeline) (some name) (some pre) = stands_iff pipeline.pre_phases name n
    at_place (some pipeline) (some name) (some main) = behind pipeline name
    at_place (some pipeline) (some name) none = behind pipeline name
