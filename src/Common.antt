-- ===== src/Common.antt =====
-- Shared by the other modules: names of the libraries passed on, Boolean tests on numbers, lists
-- measured by native numbers, equality of keys as an instance, and Python's `dict`.
mod Tests
mod Lists
mod Keys
mod Chars
mod Join
pub mod Decimal
pub mod Sort
pub mod Order
pub mod Dict
pub use Tests.*
unfoldable pub use Lists.*
pub use Keys.*
pub use Chars.{newline}
unfoldable pub use Join.{join, replace}
pub use Join.{Lacks, replace-Lacks, split-join}
unfoldable pub use Chars.{is_space, lstrip, strip, split, starts_with}
pub use Prim.Native.Nat.{ℕ, zero, suc, ◌+◌, ◌-◌, ◌*◌, ◌/◌, ◌%◌, ◌^◌, ◌≤◌, ◌<◌, max, min}
pub use Prim.Native.String.{String}
pub use mathlib.Core.Path.{◌≡◌, refl, sym, ap, ◌∙◌}
pub use mathlib.Core.Logic.{◌≢◌, ◌↔◌, ◌⊎◌, inl, inr}
pub use mathlib.Core.Bool.{Bool, true, false, not, ◌&&◌, ◌||◌}
pub use mathlib.Core.Option.{Option, none, some}
pub use mathlib.Core.List.{List, [], ◌∷◌, ◌++◌, map, append_assoc, append-nil}
pub use native.Mathlib.Omega.{arith}
