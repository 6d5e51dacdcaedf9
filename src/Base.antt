-- ===== src/Base.antt =====
-- Names and helpers that the other modules share: the libraries' names passed on, the Boolean
-- tests, Python's `str` as a list of code points, and calls that may raise.
mod Tests
mod Strings
mod Lists
mod Raising
pub mod Int
pub mod Dict
pub mod Binding
unfoldable pub use Tests.*
unfoldable pub use Strings.*
unfoldable pub use Lists.*
pub use Raising.*
pub use Prim.Native.Nat.{ℕ, zero, suc, ◌+◌, ◌-◌, ◌*◌, ◌≤◌, ◌<◌}
pub use mathlib.Core.Path.{◌≡◌, refl, sym, ap, ◌∙◌, subst}
pub use mathlib.Core.Logic.{◌≢◌, ◌↔◌, ◌⊎◌, inl, inr}
pub use mathlib.Core.Bool.{Bool, true, false, not, ◌&&◌, ◌||◌}
pub use mathlib.Core.Option.{Option, none, some}
pub use mathlib.Core.List.{List, [], ◌∷◌, ◌++◌, map}
pub use native.Mathlib.Omega.{arith}
