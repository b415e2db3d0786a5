-- ===== src/Prelude.antt =====
-- The names that the components share: the libraries', passed on, the tests on numbers and texts,
-- lists measured by native numbers, and the insertion-ordered map of the source's `Map` objects.
mod Tests
mod Lists
mod Throwing
pub mod Sorting
pub mod Text
pub mod Decimal
pub mod JsMap
pub mod JsSet
unfoldable pub use Tests.*
pub use Lists.*
pub use Throwing.*
pub use Prim.Native.Nat.{ℕ, zero, suc, ◌+◌, ◌-◌, ◌*◌, ◌≤◌, ◌<◌, max}
pub use Prim.Native.String.{String}
pub use mathlib.Core.Path.{◌≡◌, refl, sym, ap, subst, ◌∙◌}
pub use mathlib.Core.Logic.{◌≢◌, ◌↔◌, ◌⊎◌, inl, inr}
pub use mathlib.Core.Bool.{Bool, true, false, not, ◌&&◌, ◌||◌}
pub use mathlib.Core.Option.{Option, none, some}
pub use mathlib.Core.List.{List, [], ◌∷◌, ◌++◌, map, append_assoc, append-nil}
pub use native.Mathlib.Omega.{arith}
pub use text.Mathlib.Text.{◌==◌}
pub use text.Mathlib.TextEquality.{eq_iff}
pub use text.Mathlib.TextPositions.{eq_refl}
