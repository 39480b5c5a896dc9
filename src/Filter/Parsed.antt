-- ===== src/Filter/Parsed.antt =====
-- What `parse_filter` (src/filter.rs) accepts.
use phase_golem.Prelude.{
  ℕ, String, ◌≡◌, refl, ◌≢◌, ◌↔◌, Bool, true, false, Option, none, some, List, ◌||◌, [], ◌∷◌, any,
  All, ◌==◌, string_eq, str_is_empty, trim, split, split_once, Result, ok, err, arith, Bool-cases,
  Result-cases, inl, inr, subst,
}
use phase_golem.Filter.{FilterField, FilterValue, FilterCriterion, value_eq}
use phase_golem.Filter.Parse.{
  field_to_string, check_distinct, seconds, parse_single_value, field_of, parse_token, parse_tokens,
  parse_filter, criterion_of, with_values, with_field, with_key,
}

-- The kind of value that a field is compared with.
abbrev pub fits : FilterField → FilterValue → Bool
fits FilterField.status (FilterValue.status s) = true
fits FilterField.impact (FilterValue.dimension d) = true
fits FilterField.size (FilterValue.size s) = true
fits FilterField.risk (FilterValue.dimension d) = true
fits FilterField.complexity (FilterValue.dimension d) = true
fits FilterField.tag (FilterValue.tag t) = true
fits FilterField.pipeline_type (FilterValue.pipeline_type p) = true
fits _ _ = false

-- Values that differ from each other and from those seen before.
abbrev pub DistinctFrom : List FilterValue → List FilterValue → Type 0
DistinctFrom seen [] = Unit
DistinctFrom seen (v ∷ vs) = (any (λ s. s == v) seen ≡ false) × DistinctFrom (v ∷ seen) vs

pub record IsWellFormed (c : FilterCriterion) : Type 0 where
  pub has_value : c.values ≢ []
  pub fit : All (λ v. fits c.field v ≡ true) c.values
  pub distinct : DistinctFrom [] c.values

split-cons : (k : ℕ) (s : String) → split k s ≢ []
unfolding split
split-cons k String.[] = λ h. cc
split-cons k (String.◌∷◌ c s) = ground arith

check_distinct_iff :
    (field : String) (seen : List FilterValue) (ps : List (String × FilterValue))
    → (check_distinct field seen ps ≡ ok tt) ↔ DistinctFrom seen (seconds ps)
unfolding check_distinct
check_distinct_iff field seen [] = (λ h. tt, λ h. refl)
check_distinct_iff field seen ((t, v) ∷ ps) = ground (arith, check_distinct_iff field (v ∷ seen) ps)

module _ (to_lowercase : String → String) where
  parse_single_value-fits :
      (f : FilterField) (t : String) (v : FilterValue)
      → parse_single_value to_lowercase f t ≡ ok v
      → fits f v ≡ true
  unfolding parse_single_value
  parse_single_value-fits f t v h = ground arith

  parse_token-fits :
      (f : FilterField) (t : String) (p : String × FilterValue)
      → parse_token to_lowercase f t ≡ ok p
      → fits f p.1 ≡ true
  unfolding parse_token
  parse_token-fits f t p h = elim (Result-cases (parse_single_value to_lowercase f (trim t))) [
    | inl e ↦ ground (arith, e.1)
    | inr e ↦ ground (arith, e.1, parse_single_value-fits f (trim t) e.0 e.1)
  ]

  parse_tokens-fits :
      (f : FilterField) (ts : List String) (ps : List (String × FilterValue))
      → parse_tokens to_lowercase f ts ≡ ok ps
      → All (λ v. fits f v ≡ true) (seconds ps)
  unfolding parse_tokens
  parse_tokens-fits f [] ps h = ground arith
  parse_tokens-fits f (t ∷ ts) ps h = elim (Result-cases (parse_token to_lowercase f t)) [
    | inl e ↦ ground (arith, e.1)
    | inr e ↦ elim (Result-cases (parse_tokens to_lowercase f ts)) [
      | inl es ↦ ground (arith, e.1, es.1)
      | inr es ↦
          subst (λ q. All (λ v. fits f v ≡ true) (seconds q)) {x = e.0 ∷ es.0}
            (ground (arith, e.1, es.1))
            ((parse_token-fits f t e.0 e.1, parse_tokens-fits f ts es.0 es.1))
    ]
  ]

  parse_tokens-cons :
      (f : FilterField) (ts : List String) (ps : List (String × FilterValue))
      → ts ≢ []
      → parse_tokens to_lowercase f ts ≡ ok ps
      → seconds ps ≢ []
  unfolding parse_tokens
  parse_tokens-cons f [] ps n h = absurd (n refl)
  parse_tokens-cons f (t ∷ ts) [] n h = λ e. ground (arith, h)
  parse_tokens-cons f (t ∷ ts) (p ∷ ps) n h = λ e. cc

  parsed-IsWellFormed :
      (f : FilterField) (value : String) (ps : List (String × FilterValue))
      → parse_tokens to_lowercase f (split 44 value) ≡ ok ps
      → check_distinct (field_to_string f) [] ps ≡ ok tt
      → IsWellFormed (record { field = f; values = seconds ps })
  parsed-IsWellFormed f value ps h d = record {
    has_value = parse_tokens-cons f (split 44 value) ps (split-cons 44 value) h;
    fit = parse_tokens-fits f (split 44 value) ps h;
    distinct = (check_distinct_iff (field_to_string f) [] ps).0 d;
  }

  criterion_of-IsWellFormed :
      (f : FilterField) (value : String) (ps : List (String × FilterValue))
      (r : Result String (Unit {0})) (c : FilterCriterion)
      → parse_tokens to_lowercase f (split 44 value) ≡ ok ps
      → check_distinct (field_to_string f) [] ps ≡ r
      → criterion_of f ps r ≡ ok c
      → IsWellFormed c
  criterion_of-IsWellFormed f value ps (err e) c p d h = cc
  criterion_of-IsWellFormed f value ps (ok _) c p d h =
      subst IsWellFormed {x = record { field = f; values = seconds ps }} (ground arith)
        (parsed-IsWellFormed f value ps p d)

  with_values-IsWellFormed :
      (f : FilterField) (value : String) (r : Result String (List (String × FilterValue)))
      (c : FilterCriterion)
      → parse_tokens to_lowercase f (split 44 value) ≡ r
      → with_values to_lowercase f r ≡ ok c
      → IsWellFormed c
  unfolding check_distinct
  with_values-IsWellFormed f value (err e) c p h = cc
  with_values-IsWellFormed f value (ok ps) c p h =
      criterion_of-IsWellFormed f value ps (check_distinct (field_to_string f) [] ps) c p refl h

  with_field-IsWellFormed :
      (key value : String) (o : Option FilterField) (c : FilterCriterion)
      → with_field to_lowercase key value o ≡ ok c
      → IsWellFormed c
  with_field-IsWellFormed key value none c h = cc
  with_field-IsWellFormed key value (some f) c h =
      with_values-IsWellFormed f value (parse_tokens to_lowercase f (split 44 value)) c refl h

  with_key-IsWellFormed :
      (raw : String) (o : Option (String × String)) (c : FilterCriterion)
      → with_key to_lowercase raw o ≡ ok c
      → IsWellFormed c
  with_key-IsWellFormed raw none c h = cc
  with_key-IsWellFormed raw (some (key, value)) c h =
      elim (Bool-cases (str_is_empty (trim key) || str_is_empty (trim value))) [
        | inl e ↦ ground (arith, e)
        | inr e ↦
            with_field-IsWellFormed (trim key) (trim value) (field_of to_lowercase (trim key)) c
              (ground (arith, e))
      ]

  -- A parsed criterion has a value, all its values are of its field's kind, and no value comes twice:
  -- the mismatches that `matches_single_value` guards against do not arise.
  pub parse_filter-IsWellFormed :
      (raw : String) (c : FilterCriterion) → parse_filter to_lowercase raw ≡ ok c → IsWellFormed c
  unfolding parse_filter
  parse_filter-IsWellFormed raw c h = with_key-IsWellFormed raw (split_once 61 raw) c h
