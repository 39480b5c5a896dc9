-- ===== src/Scheduler/Order.antt =====
-- The queues of src/scheduler.rs: which items stand in them, and in which order.
use phase_golem.Prelude.{
  ℕ, ◌≤◌, ◌<◌, ◌≡◌, refl, ◌⊎◌, ◌↔◌, inl, inr, Bool, true, ◌&&◌, Option, none, some, List, [], ◌∷◌,
  arith, ltb, leb, filter, is_some, All, sort_by, IsSortedBy, sort_by-perm, sort_by-IsSortedBy,
  sort_by-stable, ◌==◌,
}
use mathlib.Core.List.{Perm}
use phase_golem.Types.{ItemStatus, status_eq, DimensionLevel, low, high}
use phase_golem.PgItem.{Item}
use phase_golem.PgItem.Getters.{pg_status, phase, impact}
use phase_golem.Config.{Pipelines}
use phase_golem.Scheduler.Items.{
  before_by, impact_sort_value, phase_index, sorted_ready_items, sorted_in_progress_items,
  sorted_scoping_items, sorted_new_items,
}
use phase_golem.Scheduler.Places.{Place, Place-phase_index_iff}

-- A higher impact: high, then medium, then low, then an impact that is not known.
pub data Higher : Option DimensionLevel → Option DimensionLevel → Type 0 where
  over_medium : Higher (some high) (some DimensionLevel.medium)
  over_low : Higher (some high) (some low)
  medium_over_low : Higher (some DimensionLevel.medium) (some low)
  over_none : {l : DimensionLevel} → Higher (some l) none

-- The older first: created no later.
abbrev pub Older : Item → Item → Type 0
Older a b = a.created_at ≤ b.created_at

abbrev pub ByImpact : Item → Item → Type 0
ByImpact a b = Higher (impact a) (impact b) ⊎ ((impact a ≡ impact b) × Older a b)

-- The one whose phase stands further in its pipeline, the older one at the same place.
abbrev pub ByPlace : Pipelines → Item → Item → Type 0
ByPlace pipelines a b =
    (n m : ℕ) × Place pipelines a n × Place pipelines b m × ((m < n) ⊎ ((n ≡ m) × Older a b))

-- Each item may stand before all that follow it.
abbrev pub InOrder : (Item → Item → Type 0) → List Item → Type 0
InOrder R [] = Unit {0}
InOrder R (x ∷ xs) = All (R x) xs × InOrder R xs

-- What it is for a list to be the queue of the items that a test picks out, in an order: all of them
-- and no others, in that order; items of which any may stand before any keep the order in which they
-- stand in the store.
pub record IsQueue (R : Item → Item → Type 0) (wanted : Item → Bool) (items queue : List Item)
    : Type 0 where
  pub same : Perm queue (filter wanted items)
  pub sorted : InOrder R queue
  pub stable :
      (group : Item → Bool)
      → ((x y : Item) → group x ≡ true → group y ≡ true → R x y)
      → filter group queue ≡ filter group (filter wanted items)

module _ (key : Item → ℕ) where
  before_by-total : (a b : Item) → (before_by key a b ≡ true) ⊎ (before_by key b a ≡ true)
  before_by-total a b = ground arith

  before_by_trans :
      (a b c : Item)
      → before_by key a b ≡ true
      → before_by key b c ≡ true
      → before_by key a c ≡ true
  before_by_trans a b c h k = ground arith

-- A test that decides an order and is total and transitive sorts into a queue of that order.
module _ (le : Item → Item → Bool) (R : Item → Item → Type 0)
    (total : (a b : Item) → (le a b ≡ true) ⊎ (le b a ≡ true))
    (trans : (a b c : Item) → le a b ≡ true → le b c ≡ true → le a c ≡ true)
    (decides : (a b : Item) → (le a b ≡ true) ↔ R a b) where
  all_before : (x : Item) (xs : List Item) → All (λ y. le x y ≡ true) xs → All (R x) xs
  all_before x [] h = tt
  all_before x (y ∷ xs) h = ((decides x y).0 h.0, all_before x xs h.1)

  IsSortedBy-InOrder : (xs : List Item) → IsSortedBy le xs → InOrder R xs
  IsSortedBy-InOrder [] h = tt
  IsSortedBy-InOrder (x ∷ xs) h = (all_before x xs h.0, IsSortedBy-InOrder xs h.1)

  sort_by-IsQueue :
      (wanted : Item → Bool) (items : List Item)
      → IsQueue R wanted items (sort_by le (filter wanted items))
  sort_by-IsQueue wanted items = record {
    same = sort_by-perm le (filter wanted items);
    sorted = IsSortedBy-InOrder _ (sort_by-IsSortedBy le total trans (filter wanted items));
    stable = λ group level.
        sort_by-stable le group (filter wanted items) (λ x y h k. (decides x y).1 (level x y h k));
  }

ruleset impacts = (over_medium, over_low, medium_over_low, over_none)

Higher-value :
    (a b : Option DimensionLevel)
    → Higher a b
    → ltb (impact_sort_value b) (impact_sort_value a) ≡ true
Higher-value a b over_medium = refl
Higher-value a b over_low = refl
Higher-value a b medium_over_low = refl
Higher-value a b (over_none {l}) = ground arith

value-Higher :
    (a b : Option DimensionLevel)
    → ltb (impact_sort_value b) (impact_sort_value a) ≡ true
    → Higher a b
value-Higher a b h = grind (arith, impacts)

value_inj : (a b : Option DimensionLevel) → impact_sort_value a ≡ impact_sort_value b → a ≡ b
value_inj a b h = ground arith

before_by-impact_iff :
    (a b : Item) → (before_by (λ i. impact_sort_value (impact i)) a b ≡ true) ↔ ByImpact a b
before_by-impact_iff a b = (
  λ h. ground (arith, value-Higher (impact a) (impact b), value_inj (impact a) (impact b)),
  λ h. elim h [
    | inl k ↦ ground (arith, Higher-value (impact a) (impact b) k)
    | inr k ↦ rw (k.0) (ground (arith, k.1))
  ],
)

before_by-phase_index_iff :
    (pipelines : Pipelines) (a b : Item)
    → (before_by (phase_index pipelines) a b ≡ true) ↔ ByPlace pipelines a b
before_by-phase_index_iff pipelines a b = (
  λ h. (
    phase_index pipelines a,
    phase_index pipelines b,
    (Place-phase_index_iff pipelines a _).1 refl,
    (Place-phase_index_iff pipelines b _).1 refl,
    ground arith,
  ),
  λ h.
      let p = (Place-phase_index_iff pipelines a h.0).0 h.2 in
      let q = (Place-phase_index_iff pipelines b h.1).0 h.3 in ground (arith, p, q, h.4),
)

created_iff : (a b : Item) → (leb a.created_at b.created_at ≡ true) ↔ Older a b
created_iff a b = ground arith

-- The four queues: ready items by impact, high first and unknown last; items in progress and in
-- scoping that have a phase, by how far that phase stands in their pipeline, furthest first; new
-- items by age alone. Among equals the older stands first, and items of the same age as they stand
-- in the store. Each queue has all the items of its status (that have a phase, for those in progress
-- and in scoping) and no others.
pub queues-IsQueue :
    (pipelines : Pipelines) (items : List Item)
    → IsQueue ByImpact (λ i. pg_status i == ItemStatus.ready) items (sorted_ready_items items)
      × IsQueue
          (ByPlace pipelines)
          (λ i. pg_status i == ItemStatus.in_progress && is_some (phase i))
          items
          (sorted_in_progress_items pipelines items)
      × IsQueue
          (ByPlace pipelines)
          (λ i. pg_status i == ItemStatus.scoping && is_some (phase i))
          items
          (sorted_scoping_items pipelines items)
      × IsQueue Older (λ i. pg_status i == ItemStatus.new) items (sorted_new_items items)
unfolding sorted_ready_items sorted_in_progress_items sorted_scoping_items sorted_new_items
queues-IsQueue pipelines items =
    let rank = λ (i : Item). impact_sort_value (impact i) in
    let by_place =
      sort_by-IsQueue (before_by (phase_index pipelines)) (ByPlace pipelines)
        (before_by-total (phase_index pipelines)) (before_by_trans (phase_index pipelines))
        (before_by-phase_index_iff pipelines) in
    (
      sort_by-IsQueue (before_by rank) ByImpact (before_by-total rank) (before_by_trans rank)
          before_by-impact_iff _ items,
      by_place _ items,
      by_place _ items,
      sort_by-IsQueue (λ a b. leb a.created_at b.created_at) Older (λ a b. ground arith)
          (λ a b c h k. ground arith) created_iff _ items,
    )
