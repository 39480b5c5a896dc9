-- ===== src/Types/Parse.antt =====
-- The parsers and printers of levels and statuses (src/types.rs, and the printer of a status in
-- src/filter.rs). `str::to_lowercase` is Unicode's, and is a parameter.
use phase_golem.Prelude.{
  String, ◌≡◌, [], ◌∷◌, concat, if◌then◌else◌, ◌==◌, string_eq, Result, ok, err,
}
use phase_golem.Types.{
  ItemStatus, new, scoping, ready, in_progress, done, SizeLevel, small, large, DimensionLevel, low,
  high,
}

-- `Display` of the levels, and the printer of a status.
unfoldable pub size_to_string : SizeLevel → String
size_to_string small = "small"
size_to_string SizeLevel.medium = "medium"
size_to_string large = "large"

unfoldable pub dimension_to_string : DimensionLevel → String
dimension_to_string low = "low"
dimension_to_string DimensionLevel.medium = "medium"
dimension_to_string high = "high"

unfoldable pub status_to_string : ItemStatus → String
status_to_string new = "new"
status_to_string scoping = "scoping"
status_to_string ready = "ready"
status_to_string in_progress = "in_progress"
status_to_string done = "done"
status_to_string ItemStatus.blocked = "blocked"

module _ (to_lowercase : String → String) where
  unfoldable pub parse_size_level : String → Result String SizeLevel
  parse_size_level s =
      let l = to_lowercase s in
      if l == "small"
      then ok small
      else if l == "s"
      then ok small
      else if l == "medium"
      then ok SizeLevel.medium
      else if l == "m"
      then ok SizeLevel.medium
      else if l == "large"
      then ok large
      else if l == "l"
      then ok large
      else err (concat ("Invalid size '" ∷ s ∷ "': expected small, medium, or large" ∷ []))

  unfoldable pub parse_dimension_level : String → Result String DimensionLevel
  parse_dimension_level s =
      let l = to_lowercase s in
      if l == "low"
      then ok low
      else if l == "l"
      then ok low
      else if l == "medium"
      then ok DimensionLevel.medium
      else if l == "m"
      then ok DimensionLevel.medium
      else if l == "high"
      then ok high
      else if l == "h"
      then ok high
      else err (concat ("Invalid level '" ∷ s ∷ "': expected low, medium, or high" ∷ []))

  unfoldable pub parse_item_status : String → Result String ItemStatus
  parse_item_status s =
      let l = to_lowercase s in
      if l == "new"
      then ok new
      else if l == "scoping"
      then ok scoping
      else if l == "ready"
      then ok ready
      else if l == "in_progress"
      then ok in_progress
      else if l == "done"
      then ok done
      else if l == "blocked"
      then ok ItemStatus.blocked
      else err (
          concat (
            "Invalid status '" ∷ s
            ∷ "': expected new, scoping, ready, in_progress, done, or blocked" ∷ []))

  -- Parsing a printed status gives the status back, if lowercasing keeps each printed status.
  pub parse_item_status-status_to_string :
      ((t : ItemStatus) → to_lowercase (status_to_string t) ≡ status_to_string t)
      → (s : ItemStatus) → parse_item_status (status_to_string s) ≡ ok s
  unfolding parse_item_status status_to_string
  parse_item_status-status_to_string h new = rw (h new)
  parse_item_status-status_to_string h scoping = rw (h scoping)
  parse_item_status-status_to_string h ready = rw (h ready)
  parse_item_status-status_to_string h in_progress = rw (h in_progress)
  parse_item_status-status_to_string h done = rw (h done)
  parse_item_status-status_to_string h ItemStatus.blocked = rw (h ItemStatus.blocked)
