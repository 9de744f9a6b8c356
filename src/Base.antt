-- ===== src/Base.antt =====
-- The names that the other modules share: the library's, passed on, and those of the children.
-- Byte strings (std::string) are lists of numbers; a machine integer is a number with its bound.
mod Tests
mod Lists
mod Outcome
pub mod Text
pub mod Decimal
pub mod Map
pub mod Lines
pub mod Number
pub mod Words
pub mod Signed
pub mod Rearranged
pub use Tests.*
pub use Lists.*
pub use Outcome.*
pub use Prim.Native.Nat.{ℕ, zero, suc, ◌+◌, ◌-◌, ◌*◌, ◌/◌, ◌%◌, ◌^◌, ◌≤◌, ◌<◌}
pub use mathlib.Core.Path.{◌≡◌, refl, sym, ap, ap₂, subst, ◌∙◌}
pub use mathlib.Core.Logic.{◌≢◌, ◌↔◌, ◌⊎◌, inl, inr}
pub use mathlib.Core.Bool.{Bool, true, false, not, ◌&&◌, ◌||◌}
pub use mathlib.Core.Option.{Option, none, some}
pub use mathlib.Core.List.{List, [], ◌∷◌, ◌++◌, map, append-nil, append_assoc}
unfoldable pub use mathlib.Core.List.{flatten}
pub use native.Mathlib.Omega.{arith}
