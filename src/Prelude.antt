-- ===== src/Prelude.antt =====
-- The names that the other modules share: library names passed on, and those of the children.
-- `Tests` has the Boolean tests, `Results` the error monad, `Lists` and `Folds` the lists over the
-- native numbers, `Words` the checked machine integers and `Int` the signed ones,
-- `Order` the comparison of tuples.
mod Tests
mod Results
mod Lists
mod Folds
pub mod Words
pub mod Int
pub mod Checked
pub mod Order
pub mod Find
pub mod Actions
pub use Tests.*
pub use Results.*
pub use Lists.*
pub use Folds.*
pub use Prim.Native.Nat.{ℕ, zero, suc, ◌+◌, ◌-◌, ◌*◌, ◌/◌, ◌%◌, ◌^◌, ◌≤◌, ◌<◌}
pub use mathlib.Core.Path.{◌≡◌, refl, sym, ap, ◌∙◌}
pub use mathlib.Core.Logic.{◌≢◌, ◌↔◌, ◌⊎◌, inl, inr}
pub use mathlib.Core.Bool.{Bool, true, false, ◌&&◌, ◌||◌, not}
pub use mathlib.Core.Option.{Option, none, some}
pub use mathlib.Core.List.{List, [], ◌∷◌, ◌++◌, map, Memᴰ}
pub use native.Mathlib.Omega.{arith}
