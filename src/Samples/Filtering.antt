-- ===== src/Samples/Filtering.antt =====
-- Filters on the small inputs.
use mathlib.Core.List.{Memᴰ}
use phase_golem.Prelude.{split, trim, split_once, String, ◌≡◌, refl, ◌↔◌, [], ◌∷◌, All, ok}
use phase_golem.Types.{ready, in_progress}
use phase_golem.Filter.{FilterField, FilterValue, FilterCriterion}
use phase_golem.Filter.Parse.{parse_single_value, parse_token, parse_tokens, parse_filter}
use phase_golem.Filter.Apply.{apply_filters, validate_filter_criteria}
use phase_golem.Filter.Parsed.{IsWellFormed, parse_filter-IsWellFormed}
use phase_golem.Filter.Combined.{Compatible, validate_filter_criteria_iff}
use phase_golem.Filter.Met.{MetBy, apply_filters_iff}
use phase_golem.Samples.{backlog, reviewing}

abbrev unchanged : String → String
unchanged s = s

abbrev active : FilterCriterion
active = record {
  field = FilterField.status;
  values = FilterValue.status ready ∷ FilterValue.status in_progress ∷ [];
}

abbrev tagged : FilterCriterion
tagged = record { field = FilterField.tag; values = FilterValue.tag "ui" ∷ [] }

active_parsed : parse_filter unchanged " status = ready, in_progress" ≡ ok active
unfolding parse_filter parse_tokens split_once trim split parse_token parse_single_value
    phase_golem.Types.Parse.parse_item_status
active_parsed = refl

parse_filter-IsWellFormed_example : IsWellFormed active
parse_filter-IsWellFormed_example =
    parse_filter-IsWellFormed unchanged " status = ready, in_progress" active active_parsed

validate_filter_criteria_iff_example :
    (validate_filter_criteria (active ∷ tagged ∷ []) ≡ ok tt) ↔ Compatible (active ∷ tagged ∷ [])
validate_filter_criteria_iff_example = validate_filter_criteria_iff (active ∷ tagged ∷ [])

apply_filters_iff_example :
    Memᴰ reviewing (apply_filters (active ∷ []) backlog)
    ↔ (Memᴰ reviewing backlog × All (MetBy reviewing) (active ∷ []))
apply_filters_iff_example = apply_filters_iff (active ∷ []) backlog reviewing
