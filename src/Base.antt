-- ===== src/Base.antt =====
-- The names that every component shares: the libraries', passed on, and the helpers of the
-- children below (Boolean tests, lists over the native numbers, equality, dictionaries, texts,
-- results and stateful actions).
mod Tests
mod Lists
mod Equality
mod Dedupe
mod Sorting
mod Dicts
mod Texts
mod Effects
unfoldable pub use Tests.*
unfoldable pub use Lists.*
unfoldable pub use Equality.*
unfoldable pub use Dedupe.*
unfoldable pub use Sorting.*
unfoldable pub use Dicts.*
unfoldable pub use Texts.*
unfoldable pub use Effects.*
pub use Prim.Native.Nat.{ℕ, zero, suc, ◌+◌, ◌-◌, ◌*◌, ◌/◌, ◌%◌, ◌^◌, ◌≤◌, ◌<◌, min, max}
pub use mathlib.Core.Path.{◌≡◌, refl, sym, ap, ◌∙◌, subst}
pub use mathlib.Core.Logic.{◌≢◌, ◌↔◌, ◌⊎◌, inl, inr}
pub use mathlib.Core.Bool.{Bool, true, false, not, ◌&&◌, ◌||◌}
pub use mathlib.Core.Option.{Option, none, some}
pub use mathlib.Core.List.{List, [], ◌∷◌, ◌++◌, map, reverse}
pub use native.Mathlib.Omega.{arith}
