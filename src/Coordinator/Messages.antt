-- ===== src/Coordinator/Messages.antt =====
-- The texts that src/coordinator.rs composes: commit messages and the context of a merge.
use Prim.Native.Char.{code}
use phase_golem.Prelude.{
  String, Bool, false, not, ◌&&◌, Option, none, some, List, [], ◌∷◌, ◌++◌, if◌then◌else◌, eqb,
  str_is_empty, concat, join, trim_start, any,
}
use phase_golem.Types.{StructuredDescription}
use phase_golem.PgItem.{Value, Item}
use phase_golem.PgItem.Getters.{structured_description, origin}
use phase_golem.Coordinator.{StatusEntry}

-- The index column of `git status`: neither a blank nor a question mark.
abbrev starts_staged : String → Bool
starts_staged String.[] = false
starts_staged (String.◌∷◌ c s) = not (eqb (code c) b' ') && not (eqb (code c) b'?')

unfoldable pub has_staged_changes : List StatusEntry → Bool
has_staged_changes status = any (λ e. starts_staged e.status_code) status

-- `str::strip_prefix`.
unfoldable pub strip_prefix : String → String → Option String
strip_prefix String.[] s = some s
strip_prefix (String.◌∷◌ c p) String.[] = none
strip_prefix (String.◌∷◌ c p) (String.◌∷◌ d s) =
    let rest = strip_prefix p s in if eqb (code c) (code d) then rest else none

abbrev phase_prefix : String → String → String
phase_prefix id phase = concat ("[" ∷ id ∷ "][" ∷ phase ∷ "]" ∷ [])

abbrev trimmed_after : String → Option String → String
trimmed_after s none = s
trimmed_after s (some rest) = trim_start rest

abbrev without_prefix : String → String → String
unfolding strip_prefix
without_prefix prefix s = trimmed_after s (strip_prefix prefix s)

unfoldable pub build_phase_commit_message : String → String → Option String → String
unfolding without_prefix
build_phase_commit_message id phase none = concat (phase_prefix id phase ∷ " Phase output" ∷ [])
build_phase_commit_message id phase (some s) =
    concat (phase_prefix id phase ∷ " " ∷ without_prefix (phase_prefix id phase) s ∷ [])

abbrev pub Pending : Type 0
Pending = List (String × String × Option String)

abbrev labels : Pending → List String
labels [] = []
labels ((id, phase, summary) ∷ rest) = phase_prefix id phase ∷ labels rest

abbrev summaries : Pending → List String
unfolding build_phase_commit_message
summaries [] = []
summaries ((id, phase, none) ∷ rest) = summaries rest
summaries ((id, phase, some s) ∷ rest) =
    build_phase_commit_message id phase (some s) ∷ summaries rest

abbrev label : Pending → String
label phases = concat (join "" (labels phases) ∷ " Phase outputs" ∷ [])

abbrev with_summaries : List String → String → String
with_summaries [] text = text
with_summaries (s ∷ ss) text = concat (join " | " (s ∷ ss) ∷ "\n\n" ∷ text ∷ [])

unfoldable pub build_batch_commit_message : Pending → String
unfolding build_phase_commit_message summaries
build_batch_commit_message ((id, phase, summary) ∷ []) = build_phase_commit_message id phase summary
build_batch_commit_message phases = with_summaries (summaries phases) (label phases)

abbrev part : String → String → List String
part title text = if str_is_empty text then [] else concat (title ∷ ": " ∷ text ∷ []) ∷ []

abbrev described : Item → Option StructuredDescription → List String
described source (some desc) = part "Context" desc.context ++ part "Problem" desc.problem
described source none = elim source.description [ none ↦ [] | some text ↦ part "Context" text ]

abbrev origin_part : Option String → List String
origin_part none = []
origin_part (some o) = concat ("Origin: " ∷ o ∷ []) ∷ []

module _ (from_value : Value → Option StructuredDescription) where
  unfoldable pub build_merge_context : Item → String
  build_merge_context source = join ". " (
      concat ("[Merged from " ∷ source.id ∷ "] Title: " ∷ source.title ∷ [])
      ∷ (described source (structured_description from_value source)
          ++ origin_part (origin source)))
