-- ===== src/Base.antt =====
-- Shared names: the libraries', passed on, Boolean tests and conditionals on the native numbers,
-- and the helpers of the child modules.
mod Tests
mod Lists
pub mod Int
pub mod Order
pub mod Sort
pub mod Maps
pub mod Dedup
pub mod Picked
mod Results
pub use Results.*
pub use Tests.*
pub use Lists.*
pub use Order.{reversed, then_with, compare_bool, compare_by, lexicographic, descending, not_gt}
pub use Prim.Native.Nat.{
  ℕ, zero, suc, ◌+◌, ◌-◌, ◌*◌, ◌/◌, ◌%◌, ◌^◌, ◌≤◌, ◌<◌, compare, Ordering, min, max,
}
pub use Prim.Native.String.{String}
pub use mathlib.Core.Path.{◌≡◌, refl, sym, ap, ap₂, ◌∙◌, fun_ext, subst}
pub use mathlib.Core.Logic.{◌≢◌, ◌↔◌, ◌⊎◌, inl, inr}
pub use mathlib.Core.Bool.{Bool, true, false, not, ◌&&◌, ◌||◌}
pub use mathlib.Core.Option.{Option, none, some}
pub use mathlib.Core.List.{List, [], ◌∷◌, ◌++◌, map}
pub use native.Mathlib.Omega.{arith}
