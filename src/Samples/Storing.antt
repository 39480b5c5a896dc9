-- ===== src/Samples/Storing.antt =====
-- Statuses, items and configurations on the small inputs.
use phase_golem.Prelude.{
  false, String, ◌≡◌, refl, ◌↔◌, ◌⊎◌, true, Option, none, some, [], ◌∷◌, ok, if◌then◌else◌,
}
use phase_golem.Types.{
  ItemStatus, new, scoping, ready, in_progress, done, ItemUpdate, transition_status,
  is_valid_transition, unblock, UpdatedAssessments, StructuredDescription, description_is_empty,
  small, low, pre, clarification,
}
use phase_golem.Types.Transitions.{
  ◌⟶◌, ◌⇝*◌, stay, is_valid_transition_iff, done_reachable_and_terminal,
}
use phase_golem.Types.Parse.{
  parse_item_status, status_to_string, parse_item_status-status_to_string,
}
use phase_golem.PgItem.{
  x_pg_blocked_from_status, x_pg_blocked_type, x_pg_unblock_context, Value, string, object, member,
  end, Item,
}
use phase_golem.PgItem.Getters.{
  pg_status, pg_blocked_from_status, blocked_type, unblock_context, structured_description, size,
  complexity, risk, impact, phase, phase_pool, pipeline_type, requires_human_review,
}
use phase_golem.PgItem.Update.{apply_update, apply_transition}
use phase_golem.PgItem.Setters.{apply_assessments, new_from_parts, set_structured_description}
use phase_golem.PgItem.Lifecycle.{apply_update-Moves, apply_updates, done_absorbs}
use phase_golem.PgItem.Blocking.{unblock-set_blocked, IsConsistent, created-IsConsistent}
use phase_golem.PgItem.Fields.{
  Reads, or_else, getters-setters, apply_assessments_lem, structured_description-set,
}
use phase_golem.Config.{default_config, populate_default_pipelines}
use phase_golem.Config.Checks.{
  model_errors, duplicate_errors, destructive_errors, staleness_errors, pipeline_errors,
  pipelines_errors, config_errors, validate,
}
use phase_golem.Config.Valid.{IsValid, validate_iff}
use phase_golem.Samples.{reviewing, fresh, to_null}

is_valid_transition_iff_example : (is_valid_transition new scoping ≡ true) ↔ (new ⟶ scoping)
is_valid_transition_iff_example = is_valid_transition_iff new scoping

done_reachable_and_terminal_example :
    (ItemStatus.blocked ⇝* done)
    × (is_valid_transition done ItemStatus.blocked ≡ false)
    × (done ≡ done)
done_reachable_and_terminal_example = done_reachable_and_terminal ItemStatus.blocked done stay

-- Lowercasing that leaves every text as it is, as it does with texts in lower case.
abbrev same : String → String
same s = s

parse_item_status_example : parse_item_status same (status_to_string in_progress) ≡ ok in_progress
parse_item_status_example = parse_item_status-status_to_string same (λ t. refl) in_progress

apply_update-Moves_example :
    (pg_status (apply_update 50 to_null reviewing (transition_status done)) ≡ pg_status reviewing)
    ⊎ (is_valid_transition
          (pg_status reviewing)
          (pg_status (apply_update 50 to_null reviewing (transition_status done)))
        ≡ true)
apply_update-Moves_example = apply_update-Moves 50 to_null reviewing (transition_status done)

finished : Item
unfolding apply_update
finished = apply_update 50 to_null reviewing (transition_status done)

done_absorbs_example :
    pg_status
      (apply_updates to_null finished ((60, ItemUpdate.set_blocked "late") ∷ (70, unblock) ∷ []))
    ≡ done
done_absorbs_example =
    done_absorbs to_null finished ((60, ItemUpdate.set_blocked "late") ∷ (70, unblock) ∷ [])
      (unfold finished pg_status apply_update apply_transition is_valid_transition in refl)

unblock-set_blocked_example :
    let held = apply_update 50 to_null reviewing (ItemUpdate.set_blocked "unclear") in
    let freed = apply_update 60 to_null held unblock in
    (pg_status held ≡ ItemStatus.blocked)
    × (held.blocked_reason ≡ some "unclear")
    × (pg_status freed ≡ pg_status reviewing)
    × (freed.blocked_reason ≡ none)
    × (freed.blocked_from_status ≡ none)
    × (pg_blocked_from_status freed ≡ none)
    × (blocked_type freed ≡ none)
    × (unblock_context freed ≡ none)
    × (freed.extensions x_pg_blocked_from_status ≡ none)
    × (freed.extensions x_pg_blocked_type ≡ none)
    × (freed.extensions x_pg_unblock_context ≡ none)
unblock-set_blocked_example =
    unblock-set_blocked to_null reviewing "unclear" 50 60 (unfold pg_status in λ e. cc)
      (unfold pg_status in λ e. cc)

created-IsConsistent_example : IsConsistent (
    apply_updates to_null
      (new_from_parts 1 "WRK-5" "Fix login" new [] [])
      ((2, transition_status scoping) ∷ (3, ItemUpdate.set_blocked "unclear") ∷ []))
created-IsConsistent_example =
    created-IsConsistent to_null 1 "WRK-5" "Fix login" new [] []
      ((2, transition_status scoping) ∷ (3, ItemUpdate.set_blocked "unclear") ∷ []) (λ e. cc)

getters-setters_example :
    Reads 50 reviewing ready
      (some ItemStatus.done)
      (some "build")
      (some pre)
      (some small)
      (some low)
      (some clarification)
      true
getters-setters_example =
    getters-setters 50 reviewing ready (some ItemStatus.done) (some "build") (some pre) (some small)
      (some low) (some clarification) true

abbrev only_size : UpdatedAssessments
only_size = record { size = some small; complexity = none; risk = none; impact = none }

apply_assessments_example :
    let after = apply_assessments 50 fresh only_size in
    (size after ≡ or_else only_size.size (size fresh))
    × (complexity after ≡ or_else only_size.complexity (complexity fresh))
    × (risk after ≡ or_else only_size.risk (risk fresh))
    × (impact after ≡ or_else only_size.impact (impact fresh))
    × (pg_status after ≡ pg_status fresh)
    × (phase after ≡ phase fresh)
    × (phase_pool after ≡ phase_pool fresh)
    × (pipeline_type after ≡ pipeline_type fresh)
    × (requires_human_review after ≡ requires_human_review fresh)
    × (after.updated_at ≡ 50)
apply_assessments_example = apply_assessments_lem 50 fresh only_size

validate_iff_example : (validate default_config ≡ ok tt) ↔ IsValid default_config
validate_iff_example = validate_iff default_config

-- The configuration of a project without a file, which is used unchecked, is valid.
validate-populated : validate (populate_default_pipelines default_config) ≡ ok tt
unfolding validate config_errors pipelines_errors pipeline_errors staleness_errors
    destructive_errors duplicate_errors model_errors populate_default_pipelines
validate-populated = refl

-- An encoding of descriptions as objects, and its inverse.
abbrev encode : StructuredDescription → Value
encode d = object (
    member "context" (string d.context) (
      member "problem" (string d.problem) (
        member "solution" (string d.solution) (
          member "impact" (string d.impact)
            (member "sizing_rationale" (string d.sizing_rationale) end)))))

abbrev decode : Value → Option StructuredDescription
decode
      (object (
        member _ (string c) (
          member _
            (string p)
            (member _ (string s) (member _ (string i) (member _ (string r) end)))))) =
    some (record { context = c; problem = p; solution = s; impact = i; sizing_rationale = r })
decode _ = none

abbrev search_description : StructuredDescription
search_description = record {
  context = "search";
  problem = "";
  solution = "index";
  impact = "";
  sizing_rationale = "";
}

structured_description-set_example :
    structured_description decode
      (set_structured_description 50 encode fresh (some search_description))
    ≡ (if description_is_empty search_description then none else some search_description)
structured_description-set_example =
    structured_description-set 50 encode decode fresh search_description (λ x. refl)
