-- ===== src/Base.antt =====
-- The names that every other module shares: the libraries', passed on, and the children's.
mod Tests
mod Results
mod Lists
mod Chains
pub mod Words
pub mod Text
pub mod Maps
pub mod Int
pub mod Sort
pub mod Bytes
pub mod Hex
pub use Tests.*
pub use Results.*
pub use Chains.*
pub use Lists.*
pub use Prim.Native.Nat.{ℕ, zero, suc, ◌+◌, ◌-◌, ◌*◌, ◌/◌, ◌%◌, ◌^◌, ◌≤◌, ◌<◌}
pub use mathlib.Core.Path.{◌≡◌, refl, sym, ap, ◌∙◌}
pub use mathlib.Core.Logic.{◌≢◌, ◌↔◌, ◌⊎◌, inl, inr}
pub use mathlib.Core.Bool.{Bool, true, false, ◌&&◌, ◌||◌, not}
pub use mathlib.Core.Option.{Option, none, some}
pub use mathlib.Core.List.{List, [], ◌∷◌, ◌++◌, map}
pub use native.Mathlib.Omega.{arith}
