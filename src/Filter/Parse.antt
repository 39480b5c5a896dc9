-- ===== src/Filter/Parse.antt =====
-- `parse_filter` and the printers of src/filter.rs. `str::to_lowercase` is a parameter.
use phase_golem.Prelude.{
  String, Option, none, some, List, [], ◌∷◌, ◌||◌, if◌then◌else◌, any, map, ◌==◌, string_eq,
  str_is_empty, concat, join, trim, split, split_once, Result, ok, err,
}
use phase_golem.Types.Parse.{
  size_to_string, dimension_to_string, status_to_string, parse_size_level, parse_dimension_level,
  parse_item_status,
}
use phase_golem.Filter.{FilterField, FilterValue, FilterCriterion, value_eq}

unfoldable pub field_to_string : FilterField → String
field_to_string FilterField.status = "status"
field_to_string FilterField.impact = "impact"
field_to_string FilterField.size = "size"
field_to_string FilterField.risk = "risk"
field_to_string FilterField.complexity = "complexity"
field_to_string FilterField.tag = "tag"
field_to_string FilterField.pipeline_type = "pipeline_type"

unfoldable pub value_to_string : FilterValue → String
value_to_string (FilterValue.status s) = status_to_string s
value_to_string (FilterValue.dimension d) = dimension_to_string d
value_to_string (FilterValue.size s) = size_to_string s
value_to_string (FilterValue.tag t) = t
value_to_string (FilterValue.pipeline_type p) = p

unfoldable pub criterion_to_string : FilterCriterion → String
criterion_to_string c =
    concat (field_to_string c.field ∷ "=" ∷ join "," (map value_to_string c.values) ∷ [])

-- `map_err`, with the message for a field and its valid values.
abbrev checked :
    {A : Type 0}
    → (A → FilterValue)
    → (token field valid : String) → Result String A
    → Result String FilterValue
checked wrap token field valid (ok a) = ok (wrap a)
checked wrap token field valid (err e) = err (
    concat ("Invalid value '" ∷ token ∷ "' for field '" ∷ field ∷ "'. Valid values: " ∷ valid ∷ []))

abbrev not_key_value : String → String
not_key_value raw = concat ("Filter must be in format KEY=VALUE, got: " ∷ raw ∷ [])

-- The loop over the `HashSet` of the values seen.
unfoldable pub check_distinct :
    String → List FilterValue → List (String × FilterValue) → Result String (Unit {0})
check_distinct field seen [] = ok tt
check_distinct field seen ((token, v) ∷ rest) =
    let more = check_distinct field (v ∷ seen) rest in
    if any (λ s. s == v) seen
    then err (
        concat (
          "Duplicate value '" ∷ token ∷ "' in comma-separated list for field '" ∷ field ∷ "'" ∷ []))
    else more

abbrev pub seconds : List (String × FilterValue) → List FilterValue
seconds [] = []
seconds ((t, v) ∷ rest) = v ∷ seconds rest

abbrev pub criterion_of :
    FilterField
    → List (String × FilterValue)
    → Result String (Unit {0})
    → Result String FilterCriterion
criterion_of field parsed (err e) = err e
criterion_of field parsed (ok _) = ok (record { field = field; values = seconds parsed })

module _ (to_lowercase : String → String) where
  unfoldable pub parse_single_value : FilterField → String → Result String FilterValue
  parse_single_value FilterField.status token =
      checked FilterValue.status token "status" "new, scoping, ready, in_progress, done, blocked"
        (parse_item_status to_lowercase token)
  parse_single_value FilterField.impact token =
      checked FilterValue.dimension token "impact" "low, medium, high"
        (parse_dimension_level to_lowercase token)
  parse_single_value FilterField.size token =
      checked FilterValue.size token "size" "small, medium, large"
        (parse_size_level to_lowercase token)
  parse_single_value FilterField.risk token =
      checked FilterValue.dimension token "risk" "low, medium, high"
        (parse_dimension_level to_lowercase token)
  parse_single_value FilterField.complexity token =
      checked FilterValue.dimension token "complexity" "low, medium, high"
        (parse_dimension_level to_lowercase token)
  parse_single_value FilterField.tag token = ok (FilterValue.tag token)
  parse_single_value FilterField.pipeline_type token = ok (FilterValue.pipeline_type token)

  unfoldable pub field_of : String → Option FilterField
  field_of text =
      let l = to_lowercase text in
      if l == "status"
      then some FilterField.status
      else if l == "impact"
      then some FilterField.impact
      else if l == "size"
      then some FilterField.size
      else if l == "risk"
      then some FilterField.risk
      else if l == "complexity"
      then some FilterField.complexity
      else if l == "tag"
      then some FilterField.tag
      else if l == "pipeline_type"
      then some FilterField.pipeline_type
      else none

  -- One token of the list, trimmed.
  unfoldable pub parse_token : FilterField → String → Result String (String × FilterValue)
  parse_token field token =
      if str_is_empty (trim token)
      then err (
          concat (
            "Empty value in comma-separated list for field '"
            ∷ field_to_string field
            ∷ "'. Each value must be non-empty."
            ∷ []))
      else elim (parse_single_value field (trim token)) [
        | err e ↦ err e
        | ok v ↦ ok (trim token, v)
      ]

  unfoldable pub parse_tokens :
      FilterField → List String → Result String (List (String × FilterValue))
  parse_tokens field [] = ok []
  parse_tokens field (t ∷ ts) =
      let rest = parse_tokens field ts in
      elim (parse_token field t) [
        | err e ↦ err e
        | ok p ↦ elim rest [ err e ↦ err e | ok ps ↦ ok (p ∷ ps) ]
      ]

  abbrev pub with_values :
      FilterField → Result String (List (String × FilterValue)) → Result String FilterCriterion
  unfolding check_distinct
  with_values field (err e) = err e
  with_values field (ok parsed) =
      criterion_of field parsed (check_distinct (field_to_string field) [] parsed)

  abbrev pub with_field : String → String → Option FilterField → Result String FilterCriterion
  with_field key value none = err (
      concat (
        "Unknown filter field: " ∷ key
        ∷ ". Supported: status, impact, size, risk, complexity, tag, pipeline_type" ∷ []))
  with_field key value (some field) = with_values field (parse_tokens field (split 44 value))

  abbrev pub with_key : String → Option (String × String) → Result String FilterCriterion
  with_key raw none = err (not_key_value raw)
  with_key raw (some (key, value)) =
      if str_is_empty (trim key) || str_is_empty (trim value)
      then err (not_key_value raw)
      else with_field (trim key) (trim value) (field_of (trim key))

  unfoldable pub parse_filter : String → Result String FilterCriterion
  unfolding check_distinct parse_tokens field_of
  parse_filter raw = with_key raw (split_once 61 raw)
