-- ===== src/Prelude.antt =====
-- The names that the components share: the libraries', passed on, and those of the children:
-- Boolean tests, lists, results of fallible code, keys that are compared, dictionaries, membership, and the
-- storage that a smart contract is given by the chain.
mod Tests
mod Lists
mod Results
mod Keys
mod Dicts
mod Membership
mod Boxes
mod Integers
pub use Tests.*
pub use Lists.*
pub use Results.*
pub use Integers.*
unfoldable pub use Keys.*
unfoldable pub use Dicts.*
unfoldable pub use Membership.*
unfoldable pub use Boxes.*
pub use Prim.Native.Nat.{ℕ, zero, suc, ◌+◌, ◌-◌, ◌*◌, ◌/◌, ◌%◌, ◌^◌, ◌≤◌, ◌<◌}
pub use mathlib.Core.Path.{◌≡◌, refl, sym, ap, subst, ◌∙◌}
pub use mathlib.Core.Logic.{◌≢◌, ◌↔◌, ◌⊎◌, inl, inr}
pub use mathlib.Core.Bool.{Bool, true, false, not, ◌&&◌, ◌||◌}
pub use mathlib.Core.Option.{Option, none, some}
pub use mathlib.Core.List.{List, [], ◌∷◌, ◌++◌, map}
pub use native.Mathlib.Omega.{arith}
