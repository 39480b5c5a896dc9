-- ===== src/Prelude.antt =====
-- Names shared by every other module: the libraries', passed on, and those of the children.
mod Tests
mod Lists
mod Maps
mod Texts
mod Decimal
mod Sort
mod Errors
pub mod Actions
pub use Tests.*
pub use Lists.*
pub use Maps.*
unfoldable pub use Texts.{concat, join, trim, trim_start, split, split_once}
unfoldable pub use Decimal.{decimal}
pub use Texts.{is_whitespace, str_is_empty}
pub use Errors.*
pub use Sort.*
pub use Prim.Native.Nat.{ℕ, zero, suc, ◌+◌, ◌-◌, ◌*◌, ◌^◌, ◌%◌, ◌≤◌, ◌<◌}
pub use Prim.Native.String.{String}
pub use mathlib.Core.Path.{◌≡◌, refl, sym, ap, subst, fun_ext, ◌∙◌}
pub use mathlib.Core.Logic.{◌≢◌, ◌↔◌, ◌⊎◌, inl, inr}
pub use mathlib.Core.Bool.{Bool, true, false, not, ◌&&◌, ◌||◌}
pub use mathlib.Core.Option.{Option, none, some}
pub use mathlib.Core.List.{List, [], ◌∷◌, ◌++◌, map}
pub use native.Mathlib.Omega.{arith}
pub use text.Mathlib.TextEquality.{eq_iff}
pub use text.Mathlib.TextPositions.{eq_refl}
