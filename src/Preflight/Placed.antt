-- ===== src/Preflight/Placed.antt =====
-- What `validate_items` (src/preflight.rs) guarantees to the scheduler.
use mathlib.Core.List.{Memᴰ}
use mathlib.Core.List as List
use phase_golem.Prelude.{
  append-nil_iff, subst, sym, String, ◌≡◌, refl, ◌↔◌, Bool, true, false, ◌||◌, Option, none, some,
  List, [], ◌∷◌, ◌++◌, any, any-append, All, find, lookup, unwrap_or, arith, Bool-cases,
  Option-cases, inl, inr,
}
use phase_golem.Types.{PhasePool, pre, main, run_phase}
use phase_golem.PgItem.{Item}
use phase_golem.PgItem.Getters.{phase, phase_pool}
use phase_golem.Config.{PipelineConfig, Pipelines}
use phase_golem.Executor.{is_named}
use phase_golem.Scheduler.Items.{item_pipeline_type, build_run_phase_action}
use phase_golem.Preflight.{is_processed, item_errors, validate_items, phase_errors}

-- A phase that is named stands in the pool that is named, the pre-phases first; without a pool it
-- stands in one of the two.
abbrev pub IsPlacedIn : PipelineConfig → Option String → Option PhasePool → Type 0
IsPlacedIn p none pool = Unit
IsPlacedIn p (some name) none =
    (any (is_named name) p.pre_phases || any (is_named name) p.phases) ≡ true
IsPlacedIn p (some name) (some pre) = any (is_named name) p.pre_phases ≡ true
IsPlacedIn p (some name) (some main) =
    (any (is_named name) p.pre_phases ≡ false) × (any (is_named name) p.phases ≡ true)

abbrev pub IsPlaced : Pipelines → Item → Type 0
IsPlaced pipelines item =
    is_processed item ≡ true
    → (p : PipelineConfig) × (lookup (item_pipeline_type item) pipelines ≡ some p)
      × IsPlacedIn p (phase item) (phase_pool item)

some-injective {ℓ} : {A : Type ℓ} {a b : A} → some a ≡ some b → a ≡ b
some-injective e = cc

phase_errors_iff :
    (item : Item) (p : PipelineConfig) (name : Option String)
    → (phase_errors item p name ≡ []) ↔ IsPlacedIn p name (phase_pool item)
phase_errors_iff item p none = (λ h. tt, λ h. refl)
phase_errors_iff item p (some name) = ground arith

item_errors_iff :
    (pipelines : Pipelines) (item : Item)
    → (item_errors pipelines item ≡ []) ↔ IsPlaced pipelines item
unfolding item_errors
item_errors_iff pipelines item = elim (Bool-cases (is_processed item)) [
  | inl e ↦ elim (Option-cases (lookup (item_pipeline_type item) pipelines)) [
    | inl n ↦ rw (e, n) (λ h. cc, λ h. let k = h refl in cc (k.1))
    | inr (p, s) ↦
        rw (e, s)
          (
            λ h. λ t. (p, refl, (phase_errors_iff item p (phase item)).0 h),
            λ h.
                let k = h refl in
                (phase_errors_iff item p (phase item)).1 (
                  subst (λ q. IsPlacedIn q (phase item) (phase_pool item))
                    (some-injective (sym k.1)) k.2),
          )
  ]
  | inr e ↦ rw e (λ h. λ t. cc, λ h. refl)
]

validate_items_iff :
    (pipelines : Pipelines) (items : List Item)
    → (validate_items pipelines items ≡ []) ↔ All (IsPlaced pipelines) items
unfolding validate_items
validate_items_iff pipelines [] = (λ h. tt, λ h. refl)
validate_items_iff pipelines (item ∷ items) = ground (
  arith,
  item_errors_iff pipelines item,
  validate_items_iff pipelines items,
  append-nil_iff (item_errors pipelines item) (validate_items pipelines items),
)

find-any {ℓ} :
    {A : Type ℓ} (p : A → Bool) (xs : List A) → any p xs ≡ true → (a : A) × (find p xs ≡ some a)
find-any p [] h = cc
find-any p (x ∷ xs) h = elim (Bool-cases (p x)) [
  | inl e ↦ (x, rw e refl)
  | inr e ↦ rw e (find-any p xs (ground (arith, e)))
]

placed_any :
    (p : PipelineConfig) (name : String) (pool : Option PhasePool)
    → IsPlacedIn p (some name) pool
    → any (is_named name) (p.pre_phases ++ p.phases) ≡ true
placed_any p name none h = ground (arith, any-append (is_named name) p.pre_phases p.phases)
placed_any p name (some pre) h = ground (arith, any-append (is_named name) p.pre_phases p.phases)
placed_any p name (some main) h = ground (arith, any-append (is_named name) p.pre_phases p.phases)

All-Mem {ℓ κ} : {A : Type ℓ} (P : A → Type κ) (xs : List A) (a : A) → All P xs → Memᴰ a xs → P a
All-Mem P [] a h m = absurd (List.Memᴰ.not-nil m)
All-Mem P (x ∷ xs) a h m = elim (List.Memᴰ.cases_cons m) [
  | inl e ↦ subst P (sym e) h.0
  | inr k ↦ All-Mem P xs a h.1 k
]

-- If the check of the items reports nothing, the scheduler finds an action for each of them that is in
-- progress or in scoping and has a phase: to run that phase, in the item's pool.
pub validate_items-build_run_phase_action :
    (pipelines : Pipelines) (items : List Item) (item : Item) (name : String)
    → validate_items pipelines items ≡ []
    → Memᴰ item items
    → is_processed item ≡ true
    → phase item ≡ some name
    → (d : Bool) × (build_run_phase_action pipelines item
        ≡ some (run_phase item.id name (unwrap_or main (phase_pool item)) d))
unfolding build_run_phase_action
validate_items-build_run_phase_action pipelines items item name ok stored active named =
    let placed =
      All-Mem (IsPlaced pipelines) items item ((validate_items_iff pipelines items).0 ok) stored
        active in
    let there = subst (λ n. IsPlacedIn placed.0 n (phase_pool item)) named placed.2 in
    let found =
      find-any (is_named name) (placed.0.pre_phases ++ placed.0.phases)
        (placed_any placed.0 name (phase_pool item) there) in
    (found.0.is_destructive, rw (placed.1, named, found.1) refl)
