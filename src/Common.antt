-- ===== src/Common.antt =====
-- What all modules share: the libraries' names, Boolean tests, lists measured by native numbers,
-- and the SQL-like reading of a table.
mod Tests
mod Lists
pub mod Table
pub mod Separate
pub use Tests.*
pub use Lists.*
pub use Prim.Native.Nat.{ℕ, zero, suc, ◌+◌, ◌-◌, ◌*◌, ◌/◌, ◌%◌, ◌≤◌, ◌<◌}
pub use Prim.Native.String.{String}
pub use mathlib.Core.Path.{◌≡◌, refl, sym, ap, ◌∙◌, subst}
pub use mathlib.Core.Logic.{◌≢◌, ◌↔◌, ◌⊎◌, inl, inr}
pub use mathlib.Core.Bool.{Bool, true, false, not, ◌&&◌, ◌||◌}
pub use mathlib.Core.Option.{Option, none, some}
pub use mathlib.Core.List.{List, [], ◌∷◌, ◌++◌, map}
pub use native.Mathlib.Omega.{arith}
pub use text.Mathlib.Text.{◌==◌ as str_eq}
pub use text.Mathlib.TextEquality.{eq_iff}
use Prim.Native.String.{◌++◌ as append}

-- `a` followed by `b`, as an f-string joins its pieces.
infixr 65 ◌<>◌
abbrev pub ◌<>◌ : String → String → String
a <> b = append a b
