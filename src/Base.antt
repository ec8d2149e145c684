-- ===== src/Base.antt =====
-- Shared names: the libraries', passed on, and those of the children.
pub mod Tests
pub mod Lists
pub mod Dictionary
pub mod Filter
pub mod Sorted
pub mod Decimal
unfoldable pub use Tests.*
unfoldable pub use Lists.*
unfoldable pub use Decimal.{decimal}
unfoldable pub use Dictionary.*
pub use Filter.*
pub use Sorted.*
pub use Prim.Native.Nat.{ℕ, zero, suc, ◌+◌, ◌-◌, ◌*◌, ◌/◌, ◌%◌, ◌^◌, ◌≤◌, ◌<◌}
pub use Prim.Native.String.{String, ◌++◌ as ◌<>◌}
pub use mathlib.Core.Path.{◌≡◌, refl, sym, ap, ◌∙◌}
pub use mathlib.Core.Logic.{◌≢◌, ◌↔◌, ◌⊎◌, inl, inr}
pub use mathlib.Core.Bool.{Bool, true, false, not, ◌&&◌, ◌||◌}
pub use mathlib.Core.Option.{Option, none, some}
pub use mathlib.Core.List.{List, [], ◌∷◌, ◌++◌, map}
pub use native.Mathlib.Omega.{arith}
pub use text.Mathlib.TextEquality.{eq_iff}
