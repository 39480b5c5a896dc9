-- ===== src/Scheduler/Duplicates.antt =====
-- The merges of duplicates that triage reports (src/scheduler.rs).
use Prim.Native.Char.{Char, code}
use phase_golem.Prelude.{
  ℕ, ◌+◌, ◌-◌, ◌*◌, ◌^◌, String, Bool, true, false, ◌&&◌, Option, none, some, List, [], ◌∷◌,
  if◌then◌else◌, ◌==◌, string_eq, ltb, leb, eqb, find, last, split, concat, Result, ok, err,
}
use phase_golem.Prelude.Actions.{Action, ◌>>=◌, ◌>>◌, done}
use phase_golem.Types.{ItemStatus, status_eq}
use phase_golem.PgItem.{Item}
use phase_golem.PgItem.Getters.{pg_status}
use phase_golem.PgError.{PgError}
use phase_golem.Scheduler.{SchedulerState}
use phase_golem.Scheduler.Items.{has_id}
use phase_golem.Scheduler.Completion.{Progress, ask, write_entry, with_state, add_u32}
use phase_golem.Coordinator.Handle.{CoordinatorHandle}

abbrev is_digit : Char → Bool
is_digit c = leb 48 (code c) && leb (code c) 57

-- The digits of a number below `2 ^ 32`, after the value so far.
unfoldable pub parse_digits : ℕ → String → Option ℕ
parse_digits n String.[] = some n
parse_digits n (String.◌∷◌ c s) =
    let rest = parse_digits (n * 10 + (code c - 48)) s in
    if is_digit c && ltb (n * 10 + (code c - 48)) (2 ^ 32) then rest else none

-- `str::parse::<u32>`: digits, after a `+` at most, and not none.
unfoldable pub parse_u32 : String → Option ℕ
unfolding parse_digits
parse_u32 String.[] = none
parse_u32 (String.◌∷◌ c String.[]) = parse_digits 0 (String.◌∷◌ c String.[])
parse_u32 (String.◌∷◌ c (String.◌∷◌ d s)) =
    if eqb (code c) 43
    then parse_digits 0 (String.◌∷◌ d s)
    else parse_digits 0 (String.◌∷◌ c (String.◌∷◌ d s))

abbrev parse_last : Option String → Option ℕ
unfolding parse_u32
parse_last none = none
parse_last (some s) = parse_u32 s

unfoldable pub parse_item_numeric_suffix : String → Option ℕ
unfolding parse_u32
parse_item_numeric_suffix id = parse_last (last (split b'-' id))

-- Which item is merged into which: the higher number into the lower, else the first into the second.
unfoldable pub merge_direction :
    (item_id dup_id : String) → (current dup : Option ℕ) → String × String
merge_direction item_id dup_id (some c) (some d) =
    if ltb d c then (item_id, dup_id) else if ltb c d then (dup_id, item_id) else (item_id, dup_id)
merge_direction item_id dup_id _ _ = (item_id, dup_id)

-- The item that a duplicate's id stands for, where it is still to be merged.
unfoldable pub find_duplicate : String → List Item → Option Item
find_duplicate dup_id snap = elim (find (has_id dup_id) snap) [
  | none ↦ none
  | some item ↦ if pg_status item == ItemStatus.done then none else some item
]

abbrev pub one_more_merged : SchedulerState → SchedulerState
one_more_merged state = record state { items_merged = add_u32 state.items_merged 1 }

module _ {C : Type 0} (show : PgError → String) (handle : CoordinatorHandle C)
    (item_id : String) where
  abbrev pub after_merge :
      {E : Type 0} → (source_id : String) → Result E (Unit {0}) → Action String (Progress C) Bool
  after_merge source_id (ok _) = with_state one_more_merged >> done (source_id == item_id)
  after_merge source_id (err e) = done false

  -- The merge itself, and whether the current item is gone by it; a failure is only logged.
  unfoldable pub merge_into : (source_id target_id : String) → Action String (Progress C) Bool
  merge_into source_id target_id p =
      let out = ask show handle (handle.merge_item source_id target_id) p in
      after_merge source_id out.0 out.1

  abbrev merged_away : List Item → Item → (source_id : String) → Option Item
  merged_away snap dup_item source_id =
      if source_id == item_id then find (has_id item_id) snap else some dup_item

  unfoldable pub merge_duplicate :
      List Item → Item → (direction : String × String) → Action String (Progress C) Bool
  unfolding write_entry merge_into
  merge_duplicate snap dup_item (source_id, target_id) = do
    write_entry show handle (merged_away snap dup_item source_id) (λ _. "triage") "Merged"
        (concat ("Merged into " ∷ target_id ∷ []))
    merge_into source_id target_id

  unfoldable pub process_merges : List String → Action String (Progress C) Bool
  unfolding merge_duplicate find_duplicate merge_direction parse_item_numeric_suffix
  process_merges [] = done false
  process_merges (dup_id ∷ dups) =
      let rest = process_merges dups in
      (ask show handle handle.get_snapshot >>= λ snap. elim (find_duplicate dup_id snap) [
        | none ↦ rest
        | some dup_item ↦
            (merge_duplicate snap dup_item (
                merge_direction item_id dup_id (parse_item_numeric_suffix item_id)
                  (parse_item_numeric_suffix dup_id))
              >>= λ is_gone. if is_gone then done true else rest)
      ])
