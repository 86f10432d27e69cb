-- ===== src/Prelude.antt =====
-- The names that every module shares: the libraries', passed on, and those of the children:
-- Boolean tests, lists indexed by native numbers, results of code that may abort, `size_t`.
mod Tests
mod Lists
mod Slices
mod Results
mod Words
mod Int
pub use Tests.*
pub use Lists.*
pub use Slices.*
pub use Results.*
unfoldable pub use Words.*
pub use Int.*
pub use Prim.Native.Nat.{ℕ, zero, suc, ◌+◌, ◌-◌, ◌*◌, ◌/◌, ◌%◌, ◌^◌, ◌≤◌, ◌<◌, min}
pub use mathlib.Core.Path.{◌≡◌, refl, sym, ap, subst, ◌∙◌}
pub use mathlib.Core.Logic.{◌≢◌, ◌↔◌, ◌⊎◌, inl, inr}
pub use mathlib.Core.Bool.{Bool, true, false, not, ◌&&◌, ◌||◌}
pub use mathlib.Core.Option.{Option, none, some}
pub use mathlib.Core.List.{List, [], ◌∷◌, ◌++◌, map}
pub use native.Mathlib.Omega.{arith}
