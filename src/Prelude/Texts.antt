-- ===== src/Prelude/Texts.antt =====
-- Texts: concatenation for `format!`, `join`, `trim`, `split` and `split_once`, as Rust's `str` has them.
use Prim.Native.Char.{Char, code}
use Prim.Native.String.{String, ◌++◌}
use mathlib.Core.Bool.{Bool, true, false, ◌&&◌, ◌||◌}
use mathlib.Core.List.{List, [], ◌∷◌}
use mathlib.Core.Option.{Option, none, some}
use Prim.Native.Nat.{ℕ}
use phase_golem.Prelude.Tests.{if◌then◌else◌, leb, eqb}

-- `format!` over its pieces.
unfoldable pub concat : List String → String
concat [] = ""
concat (s ∷ ss) = s ++ concat ss

-- `[String]::join`.
unfoldable pub join : String → List String → String
join sep [] = ""
join sep (s ∷ []) = s
join sep (s ∷ t ∷ ss) = s ++ (sep ++ join sep (t ∷ ss))

-- `char::is_whitespace`: the Unicode property White_Space.
abbrev pub is_whitespace : Char → Bool
is_whitespace c =
    let n = code c in
    (leb 9 n && leb n 13)
    || eqb n 32
    || eqb n 0x85
    || eqb n 0xa0
    || eqb n 0x1680
    || (leb 0x2000 n && leb n 0x200a)
    || eqb n 0x2028
    || eqb n 0x2029
    || eqb n 0x202f
    || eqb n 0x205f
    || eqb n 0x3000

unfoldable pub trim_start : String → String
trim_start String.[] = ""
trim_start (String.◌∷◌ c s) = if is_whitespace c then trim_start s else String.◌∷◌ c s

abbrev cons_unless_blank : Char → String → String
cons_unless_blank c String.[] = if is_whitespace c then "" else String.◌∷◌ c ""
cons_unless_blank c (String.◌∷◌ d s) = String.◌∷◌ c (String.◌∷◌ d s)

unfoldable pub trim_end : String → String
trim_end String.[] = ""
trim_end (String.◌∷◌ c s) = cons_unless_blank c (trim_end s)

unfoldable pub trim : String → String
unfolding trim_start trim_end
trim s = trim_end (trim_start s)

abbrev pub str_is_empty : String → Bool
str_is_empty String.[] = true
str_is_empty (String.◌∷◌ c s) = false

-- `str::split_once` at a character.
unfoldable pub split_once : ℕ → String → Option (String × String)
split_once k String.[] = none
split_once k (String.◌∷◌ c s) =
    let rest = split_once k s in
    if eqb (code c) k
    then some ("", s)
    else elim rest [ none ↦ none | some (a, b) ↦ some (String.◌∷◌ c a, b) ]

abbrev cons_head : Char → List String → List String
cons_head c [] = String.◌∷◌ c "" ∷ []
cons_head c (s ∷ ss) = String.◌∷◌ c s ∷ ss

-- `str::split` at a character: one piece more than there are separators.
unfoldable pub split : ℕ → String → List String
split k String.[] = "" ∷ []
split k (String.◌∷◌ c s) =
    let rest = split k s in if eqb (code c) k then "" ∷ rest else cons_head c rest
