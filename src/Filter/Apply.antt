-- ===== src/Filter/Apply.antt =====
-- Matching and applying of criteria, and the check of their combination (src/filter.rs).
use phase_golem.Prelude.{
  String, Bool, false, some, List, [], ◌∷◌, if◌then◌else◌, any, all, filter, map, ◌==◌, string_eq,
  opt_eq, concat, join, Result, ok, err,
}
use phase_golem.Types.{status_eq, size_eq, dimension_eq}
use phase_golem.PgItem.{Item}
use phase_golem.PgItem.Getters.{pg_status, impact, size, risk, complexity, pipeline_type}
use phase_golem.Filter.{FilterField, FilterValue, FilterCriterion, field_eq, criterion_eq}
use phase_golem.Filter.Parse.{field_to_string, criterion_to_string}

unfoldable pub matches_single_value : FilterField → FilterValue → Item → Bool
matches_single_value FilterField.status (FilterValue.status t) item = pg_status item == t
matches_single_value FilterField.impact (FilterValue.dimension t) item =
    opt_eq (impact item) (some t)
matches_single_value FilterField.size (FilterValue.size t) item = opt_eq (size item) (some t)
matches_single_value FilterField.risk (FilterValue.dimension t) item = opt_eq (risk item) (some t)
matches_single_value FilterField.complexity (FilterValue.dimension t) item =
    opt_eq (complexity item) (some t)
matches_single_value FilterField.tag (FilterValue.tag t) item = any (λ x. x == t) item.tags
matches_single_value FilterField.pipeline_type (FilterValue.pipeline_type t) item =
    opt_eq (pipeline_type item) (some t)
matches_single_value _ _ item = false

unfoldable pub matches_item : FilterCriterion → Item → Bool
matches_item c item = any (λ v. matches_single_value c.field v item) c.values

unfoldable pub apply_filters : List FilterCriterion → List Item → List Item
apply_filters criteria items = filter (λ item. all (λ c. matches_item c item) criteria) items

-- The loop, with the `HashSet`s of the scalar fields and of the tag criteria seen.
unfoldable pub validate_from :
    List FilterField → List FilterCriterion → List FilterCriterion → Result String (Unit {0})
validate_from fields tags [] = ok tt
validate_from fields tags (c ∷ cs) =
    let after_tag = validate_from fields (c ∷ tags) cs in
    let after_field = validate_from (c.field ∷ fields) tags cs in
    if c.field == FilterField.tag
    then (if any (λ t. t == c) tags
        then err (
            concat
              ("Duplicate filter: " ∷ criterion_to_string c ∷ " specified multiple times" ∷ []))
        else after_tag)
    else if any (λ f. f == c.field) fields
    then err (
        concat (
          "Field '"
          ∷ field_to_string c.field
          ∷ "' specified multiple times in separate --only flags. Combine values in a single flag: --only "
          ∷ field_to_string c.field
          ∷ "=value1,value2"
          ∷ []))
    else after_field

unfoldable pub validate_filter_criteria : List FilterCriterion → Result String (Unit {0})
unfolding validate_from
validate_filter_criteria criteria = validate_from [] [] criteria

unfoldable pub format_filter_criteria : List FilterCriterion → String
format_filter_criteria criteria = join " AND " (map criterion_to_string criteria)
