-- ===== src/Base.antt =====
-- Names that every part shares: the libraries' names passed on, C words, arrays, memory, tests.
mod Tests
mod Lists
mod Bits
mod Bytes
mod Finite
mod Search
mod Masks
mod Members
pub mod Int
pub use Tests.*
pub use Lists.*
pub use Bits.*
pub use Members.*
pub use Search.*
unfoldable pub use Masks.*
unfoldable pub use Finite.*
unfoldable pub use Bytes.*
pub use Prim.Native.Nat.{ℕ, zero, suc, ◌+◌, ◌-◌, ◌*◌, ◌/◌, ◌%◌, ◌^◌, ◌≤◌, ◌<◌, min, max}
pub use Prim.Native.Nat.{bit_and, bit_or, bit_xor}
pub use mathlib.Core.Path.{◌≡◌, refl, sym, ap, ap₂, ◌∙◌, subst}
pub use mathlib.Core.Logic.{◌≢◌, ◌↔◌, ◌⊎◌, inl, inr}
pub use mathlib.Core.Bool.{Bool, true, false, not, ◌&&◌, ◌||◌}
pub use mathlib.Core.Option.{Option, none, some}
pub use mathlib.Core.List.{List, [], ◌∷◌, ◌++◌, map, append-nil}
pub use native.Mathlib.Omega.{arith}
