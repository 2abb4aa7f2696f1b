-- ===== src/Base.antt =====
-- What the other modules share: names of the libraries, tests on numbers, lists measured by native
-- numbers, and the outcome of a fallible function.
pub mod Tests
pub mod Lists
pub mod Outcome
pub mod Panics
pub mod Predicates
pub mod BTreeMap
pub mod Words
pub use Prim.Native.Nat.{ℕ, zero, suc, ◌≤◌, ◌<◌}
pub use mathlib.Core.Path.{◌≡◌, refl, sym, ap, ◌∙◌}
pub use mathlib.Core.Logic.{◌≢◌, ◌↔◌, ◌⊎◌, inl, inr}
pub use mathlib.Core.Bool.{Bool, true, false, ◌&&◌}
pub use mathlib.Core.Option.{Option, none, some}
pub use mathlib.Core.List.{List, [], ◌∷◌, ◌++◌, map}
pub use native.Mathlib.Omega.{arith}
