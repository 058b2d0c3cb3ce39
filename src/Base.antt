-- ===== src/Base.antt =====
-- The names that the modules of the library share: the libraries', passed on, and those of the
-- children: Boolean tests, lists over the native numbers, counts over lists.
mod Tests
mod Lists
mod Counts
mod Takes
mod Drops
pub use Tests.*
pub use Lists.*
pub use Counts.*
pub use Takes.*
pub use Drops.*
pub use Prim.Native.Nat.{ℕ, zero, suc, ◌+◌, ◌-◌, ◌*◌, ◌/◌, ◌%◌, ◌^◌, ◌≤◌, ◌<◌}
pub use mathlib.Core.Path.{◌≡◌, refl, sym, ap, subst, ◌∙◌}
pub use mathlib.Core.Logic.{◌≢◌, ◌↔◌, ◌⊎◌, inl, inr}
pub use mathlib.Core.Bool.{Bool, true, false, not, ◌&&◌, ◌||◌}
pub use mathlib.Core.Option.{Option, none, some}
pub use mathlib.Core.List.{List, [], ◌∷◌, ◌++◌, map, append_assoc, append-nil}
pub use native.Mathlib.Omega.{arith}
