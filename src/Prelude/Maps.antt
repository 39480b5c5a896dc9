-- ===== src/Prelude/Maps.antt =====
-- Maps. A `HashMap` whose entries are also listed is an association list; a `BTreeMap` that is only
-- read and written by key is a function.
use Prim.Native.String.{String}
use mathlib.Core.List.{List, [], ◌∷◌}
use mathlib.Core.Option.{Option, none, some}
use phase_golem.Prelude.Tests.{if◌then◌else◌, ◌==◌, string_eq}

module _ {ℓ} {V : Type ℓ} where
  abbrev pub lookup : String → List (String × V) → Option V
  lookup k [] = none
  lookup k ((j, v) ∷ m) = if j == k then some v else lookup k m

  -- `BTreeMap::insert` and `BTreeMap::remove`.
  abbrev pub insert : String → V → (String → Option V) → String → Option V
  insert k v m j = if k == j then some v else m j

  abbrev pub remove : String → (String → Option V) → String → Option V
  remove k m j = if k == j then none else m j
