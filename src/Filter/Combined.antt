-- ===== src/Filter/Combined.antt =====
-- Which criteria `validate_filter_criteria` (src/filter.rs) lets stand together.
use phase_golem.Prelude.{
  ◌≡◌, ◌↔◌, Bool, true, false, not, ◌&&◌, ◌||◌, List, [], ◌∷◌, any, All, All-both, ◌==◌, ok, arith,
  if◌then◌else◌, refl, Bool-cases, inl, inr,
}
use phase_golem.Filter.{FilterField, FilterCriterion, field_eq, criterion_eq}
use phase_golem.Filter.Apply.{validate_from, validate_filter_criteria}

-- Two criteria on one field, which for tags are also the same criterion.
abbrev pub clash : FilterCriterion → FilterCriterion → Bool
clash c d = c.field == d.field && (not (c.field == FilterField.tag) || c == d)

abbrev pub Compatible : List FilterCriterion → Type 0
Compatible [] = Unit
Compatible (c ∷ cs) = All (λ d. clash c d ≡ false) cs × Compatible cs

abbrev Clear : List FilterField → List FilterCriterion → FilterCriterion → Type 0
Clear fields tags d =
    (if d.field == FilterField.tag then any (λ t. t == d) tags else any (λ f. f == d.field) fields)
    ≡ false

Clear-tag :
    (fields : List FilterField) (tags : List FilterCriterion) (c d : FilterCriterion)
    → (c.field == FilterField.tag) ≡ true
    → Clear fields (c ∷ tags) d ↔ (Clear fields tags d × (clash c d ≡ false))
Clear-tag fields tags c d h = ground arith

Clear-field :
    (fields : List FilterField) (tags : List FilterCriterion) (c d : FilterCriterion)
    → (c.field == FilterField.tag) ≡ false
    → Clear (c.field ∷ fields) tags d ↔ (Clear fields tags d × (clash c d ≡ false))
Clear-field fields tags c d h = ground arith

validate_from_iff :
    (fields : List FilterField) (tags cs : List FilterCriterion)
    → (validate_from fields tags cs ≡ ok tt) ↔ (All (Clear fields tags) cs × Compatible cs)
unfolding validate_from
validate_from_iff fields tags [] = (λ h. (tt, tt), λ h. refl)
validate_from_iff fields tags (c ∷ cs) = elim (Bool-cases (c.field == FilterField.tag)) [
  | inl e ↦ ground (
    arith,
    e,
    validate_from_iff fields (c ∷ tags) cs,
    All-both (Clear fields (c ∷ tags)) (Clear fields tags) (λ d. clash c d ≡ false)
        (λ d. Clear-tag fields tags c d e) cs,
  )
  | inr e ↦ ground (
    arith,
    e,
    validate_from_iff (c.field ∷ fields) tags cs,
    All-both (Clear (c.field ∷ fields) tags) (Clear fields tags) (λ d. clash c d ≡ false)
        (λ d. Clear-field fields tags c d e) cs,
  )
]

all-Clear : (cs : List FilterCriterion) → All (Clear [] []) cs
all-Clear [] = tt
all-Clear (c ∷ cs) = (ground arith, all-Clear cs)

-- Criteria are accepted together just when no two of them are on one field, two different criteria on
-- tags excepted.
pub validate_filter_criteria_iff :
    (criteria : List FilterCriterion)
    → (validate_filter_criteria criteria ≡ ok tt) ↔ Compatible criteria
unfolding validate_filter_criteria
validate_filter_criteria_iff criteria =
    let both = validate_from_iff [] [] criteria in
    (λ h. (both.0 h).1, λ h. both.1 (all-Clear criteria, h))
