-- ===== src/Filter/Met.antt =====
-- Which items `apply_filters` (src/filter.rs) keeps.
use mathlib.Core.List.{Memᴰ}
use mathlib.Core.List as List
use phase_golem.Prelude.{
  String, ◌≡◌, ◌↔◌, refl, sym, ap, subst, Option, none, some, Eq, ◌==◌, string_eq, eq_iff, opt_eq,
  Bool, true, List, [], ◌∷◌, any, all, All, filter, arith, Bool-cases, inl, inr,
}
use phase_golem.Types.{status_eq, size_eq, dimension_eq}
use phase_golem.PgItem.{Item}
use phase_golem.PgItem.Getters.{pg_status, impact, size, risk, complexity, pipeline_type}
use phase_golem.Filter.{FilterField, FilterValue, FilterCriterion}
use phase_golem.Filter.Apply.{matches_single_value, matches_item, apply_filters}

filter-Mem_iff {ℓ} :
    {A : Type ℓ} (p : A → Bool) (xs : List A) (a : A)
    → Memᴰ a (filter p xs) ↔ (Memᴰ a xs × (p a ≡ true))
filter-Mem_iff p [] a = (λ m. absurd (List.Memᴰ.not-nil m), λ h. absurd (List.Memᴰ.not-nil h.0))
filter-Mem_iff p (x ∷ xs) a = elim (Bool-cases (p x)) [
  | inl e ↦ rw e (
    λ m. elim (List.Memᴰ.cases_cons m) [
      | inl q ↦ (Memᴰ.head q, rw q e)
      | inr k ↦ let rest = (filter-Mem_iff p xs a).0 k in (Memᴰ.tail rest.0, rest.1)
    ],
    λ h. elim (List.Memᴰ.cases_cons h.0) [
      | inl q ↦ Memᴰ.head q
      | inr k ↦ Memᴰ.tail ((filter-Mem_iff p xs a).1 (k, h.1))
    ],
  )
  | inr e ↦ rw e (
    λ m. let rest = (filter-Mem_iff p xs a).0 m in (Memᴰ.tail rest.0, rest.1),
    λ h. elim (List.Memᴰ.cases_cons h.0) [
      | inl q ↦ cc (q, h.1, e)
      | inr k ↦ (filter-Mem_iff p xs a).1 (k, h.1)
    ],
  )
]

all_iff {ℓ} :
    {A : Type ℓ} (p : A → Bool) (xs : List A) → (all p xs ≡ true) ↔ All (λ x. p x ≡ true) xs
all_iff p [] = (λ h. tt, λ h. refl)
all_iff p (x ∷ xs) = ground (arith, all_iff p xs)

any_iff {ℓ} :
    {A : Type ℓ} (p : A → Bool) (xs : List A)
    → (any p xs ≡ true) ↔ ((x : A) × Memᴰ x xs × (p x ≡ true))
any_iff p [] = (λ h. cc, λ h. absurd (List.Memᴰ.not-nil h.1))
any_iff p (x ∷ xs) = (
  λ h. elim (Bool-cases (p x)) [
    | inl e ↦ (x, Memᴰ.head refl, e)
    | inr e ↦ let rest = (any_iff p xs).0 (ground (arith, e)) in (rest.0, Memᴰ.tail rest.1, rest.2)
  ],
  λ h. elim (List.Memᴰ.cases_cons h.1) [
    | inl q ↦ rw (sym q, h.2) refl
    | inr k ↦ ground (arith, (any_iff p xs).1 (h.0, k, h.2))
  ],
)

All_iff {ℓ κ μ} :
    {A : Type ℓ} (P : A → Type κ) (Q : A → Type μ)
    → ((x : A) → P x ↔ Q x)
    → (xs : List A) → All P xs ↔ All Q xs
All_iff P Q f [] = (λ h. tt, λ h. tt)
All_iff P Q f (x ∷ xs) =
    let rest = All_iff P Q f xs in (λ h. ((f x).0 h.0, rest.0 h.1), λ h. ((f x).1 h.0, rest.1 h.1))

-- What a criterion's value asks of an item, field by field; a value of another field's kind is met by
-- no item.
abbrev pub Meets : FilterField → FilterValue → Item → Type 0
Meets FilterField.status (FilterValue.status t) item = pg_status item ≡ t
Meets FilterField.impact (FilterValue.dimension t) item = impact item ≡ some t
Meets FilterField.size (FilterValue.size t) item = size item ≡ some t
Meets FilterField.risk (FilterValue.dimension t) item = risk item ≡ some t
Meets FilterField.complexity (FilterValue.dimension t) item = complexity item ≡ some t
Meets FilterField.tag (FilterValue.tag t) item = Memᴰ t item.tags
Meets FilterField.pipeline_type (FilterValue.pipeline_type t) item = pipeline_type item ≡ some t
Meets _ _ item = ⊥

opt_eq_iff {ℓ} :
    {A : Type ℓ} ⦃e : Eq A⦄ (o : Option A) (a : A) → (opt_eq o (some a) ≡ true) ↔ (o ≡ some a)
opt_eq_iff none a = (λ h. cc, λ h. cc)
opt_eq_iff ⦃e⦄ (some x) a =
    (λ h. ap some ((e.beq_iff x a).0 h), λ h. let q : x ≡ a = cc h in (e.beq_iff x a).1 q)

has_tag_iff : (tags : List String) (t : String) → (any (λ x. x == t) tags ≡ true) ↔ Memᴰ t tags
has_tag_iff tags t =
    let f = any_iff (λ x. x == t) tags in
    (
      λ h. let (x, m, e) = f.0 h in subst (λ z. Memᴰ z tags) ((eq_iff x t).0 e) m,
      λ m. f.1 (t, m, (eq_iff t t).1 refl),
    )

matches_single_value_iff :
    (field : FilterField) (v : FilterValue) (item : Item)
    → (matches_single_value field v item ≡ true) ↔ Meets field v item
unfolding matches_single_value
matches_single_value_iff FilterField.status (FilterValue.status t) item =
    status_eq.beq_iff (pg_status item) t
matches_single_value_iff FilterField.impact (FilterValue.dimension t) item =
    opt_eq_iff (impact item) t
matches_single_value_iff FilterField.size (FilterValue.size t) item = opt_eq_iff (size item) t
matches_single_value_iff FilterField.risk (FilterValue.dimension t) item = opt_eq_iff (risk item) t
matches_single_value_iff FilterField.complexity (FilterValue.dimension t) item =
    opt_eq_iff (complexity item) t
matches_single_value_iff FilterField.tag (FilterValue.tag t) item = has_tag_iff item.tags t
matches_single_value_iff FilterField.pipeline_type (FilterValue.pipeline_type t) item =
    opt_eq_iff (pipeline_type item) t
matches_single_value_iff _ _ item = (λ h. cc, λ h. absurd h)

-- A criterion is met in one of its values.
abbrev pub MetBy : Item → FilterCriterion → Type 0
MetBy item c = (v : FilterValue) × Memᴰ v c.values × Meets c.field v item

matches_item_iff : (c : FilterCriterion) (item : Item) → (matches_item c item ≡ true) ↔ MetBy item c
unfolding matches_item
matches_item_iff c item =
    let f = any_iff (λ v. matches_single_value c.field v item) c.values in
    let g = λ (v : FilterValue). matches_single_value_iff c.field v item in
    (λ h. let (v, m, e) = f.0 h in (v, m, (g v).0 e), λ h. f.1 (h.0, h.1, (g h.0).1 h.2))

-- The items that the filters keep are those of the snapshot that meet every criterion in one of its
-- values: they have the status, the level or the pipeline type that the value names, or the tag
-- among their tags.
pub apply_filters_iff :
    (criteria : List FilterCriterion) (items : List Item) (item : Item)
    → Memᴰ item (apply_filters criteria items) ↔ (Memᴰ item items × All (MetBy item) criteria)
unfolding apply_filters
apply_filters_iff criteria items item =
    let f = filter-Mem_iff (λ i. all (λ c. matches_item c i) criteria) items item in
    let a = all_iff (λ c. matches_item c item) criteria in
    let m =
      All_iff (λ c. matches_item c item ≡ true) (MetBy item) (λ c. matches_item_iff c item)
        criteria in
    (λ h. ((f.0 h).0, m.0 (a.0 (f.0 h).1)), λ h. f.1 (h.0, a.1 (m.1 h.1)))
