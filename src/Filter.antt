-- ===== src/Filter.antt =====
-- src/filter.rs: the criteria of `--only`, and the items that meet them.
pub mod Parse
pub mod Parsed
pub mod Apply
pub mod Combined
pub mod Met
use phase_golem.Prelude.{
  ℕ, String, ◌≡◌, ap, ◌↔◌, Bool, true, false, ◌&&◌, List, [], ◌∷◌, eqb, arith, ◌==◌, Eq, string_eq,
}
use phase_golem.Types.{ItemStatus, SizeLevel, DimensionLevel, status_eq, size_eq, dimension_eq}

pub data FilterField : Type 0 where
  status : FilterField
  impact : FilterField
  size : FilterField
  risk : FilterField
  complexity : FilterField
  tag : FilterField
  pipeline_type : FilterField

pub data FilterValue : Type 0 where
  status : ItemStatus → FilterValue
  dimension : DimensionLevel → FilterValue
  size : SizeLevel → FilterValue
  tag : String → FilterValue
  pipeline_type : String → FilterValue

pub record FilterCriterion : Type 0 where
  pub field : FilterField
  pub values : List FilterValue

abbrev field_tag : FilterField → ℕ
field_tag FilterField.status = 0
field_tag FilterField.impact = 1
field_tag FilterField.size = 2
field_tag FilterField.risk = 3
field_tag FilterField.complexity = 4
field_tag FilterField.tag = 5
field_tag FilterField.pipeline_type = 6

pub field_beq_iff : (a b : FilterField) → (eqb (field_tag a) (field_tag b) ≡ true) ↔ (a ≡ b)
field_beq_iff a b = ground arith

instance abbrev pub field_eq : Eq FilterField
field_eq = record { beq = λ a b. eqb (field_tag a) (field_tag b); beq_iff = field_beq_iff }

abbrev value_beq : FilterValue → FilterValue → Bool
value_beq (FilterValue.status a) (FilterValue.status b) = a == b
value_beq (FilterValue.dimension a) (FilterValue.dimension b) = a == b
value_beq (FilterValue.size a) (FilterValue.size b) = a == b
value_beq (FilterValue.tag a) (FilterValue.tag b) = a == b
value_beq (FilterValue.pipeline_type a) (FilterValue.pipeline_type b) = a == b
value_beq _ _ = false

-- A value's test under its constructor decides equality.
same :
    {A : Type 0} ⦃e : Eq A⦄ (wrap : A → FilterValue) (a b : A)
    → (wrap a ≡ wrap b → a ≡ b)
    → (a == b ≡ true) ↔ (wrap a ≡ wrap b)
same ⦃e⦄ wrap a b inj = (λ t. ap wrap ((e.beq_iff a b).0 t), λ p. (e.beq_iff a b).1 (inj p))

pub value_beq_iff : (a b : FilterValue) → (value_beq a b ≡ true) ↔ (a ≡ b)
value_beq_iff (FilterValue.status a) (FilterValue.status b) = same FilterValue.status a b (λ p. cc)
value_beq_iff (FilterValue.dimension a) (FilterValue.dimension b) =
    same FilterValue.dimension a b (λ p. cc)
value_beq_iff (FilterValue.size a) (FilterValue.size b) = same FilterValue.size a b (λ p. cc)
value_beq_iff (FilterValue.tag a) (FilterValue.tag b) = same FilterValue.tag a b (λ p. cc)
value_beq_iff (FilterValue.pipeline_type a) (FilterValue.pipeline_type b) =
    same FilterValue.pipeline_type a b (λ p. cc)
value_beq_iff _ _ = (λ p. cc, λ p. cc)

instance abbrev pub value_eq : Eq FilterValue
value_eq = record { beq = value_beq; beq_iff = value_beq_iff }

-- The derived equality of criteria.
abbrev pub list_beq {ℓ} : {A : Type ℓ} ⦃e : Eq A⦄ → List A → List A → Bool
list_beq [] [] = true
list_beq (x ∷ xs) (y ∷ ys) = x == y && list_beq xs ys
list_beq _ _ = false

list_beq_iff {ℓ} : {A : Type ℓ} ⦃e : Eq A⦄ (xs ys : List A) → (list_beq xs ys ≡ true) ↔ (xs ≡ ys)
list_beq_iff [] [] = ground arith
list_beq_iff [] (y ∷ ys) = ground arith
list_beq_iff (x ∷ xs) [] = ground arith
list_beq_iff ⦃e⦄ (x ∷ xs) (y ∷ ys) = ground (arith, e.beq_iff x y, list_beq_iff xs ys)

abbrev criterion_beq : FilterCriterion → FilterCriterion → Bool
criterion_beq a b = a.field == b.field && list_beq a.values b.values

pub criterion_beq_iff : (a b : FilterCriterion) → (criterion_beq a b ≡ true) ↔ (a ≡ b)
criterion_beq_iff a b =
    ground (arith, field_beq_iff a.field b.field, list_beq_iff a.values b.values)

instance abbrev pub criterion_eq : Eq FilterCriterion
criterion_eq = record { beq = criterion_beq; beq_iff = criterion_beq_iff }
