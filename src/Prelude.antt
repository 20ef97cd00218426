-- ===== src/Prelude.antt =====
-- What the other modules share: the libraries' names, passed on, and those of the children:
-- Boolean tests, lists over the native numbers, machine words, signed numbers.
mod Tests
mod Lists
mod Words
mod Text
mod Bits
pub mod Int
pub use Tests.*
pub use Lists.*
pub use Text.{Bytes, same-eq, same_refl}
unfoldable pub use Text.{same}
pub use Bits.{bit_xor-zero, bit_xor_comm, bit_xor_assoc, bit_and-mask_64}
pub use Words.*
pub use Prim.Native.Nat.{ℕ, zero, suc, ◌+◌, ◌-◌, ◌*◌, ◌/◌, ◌%◌, ◌^◌, ◌≤◌, ◌<◌, bit_and, bit_xor}
pub use mathlib.Core.Path.{◌≡◌, refl, sym, ap, ◌∙◌, subst}
pub use mathlib.Core.Logic.{◌≢◌, ◌↔◌, ◌⊎◌, inl, inr}
pub use mathlib.Core.Bool.{Bool, true, false, ◌&&◌, ◌||◌, not}
pub use mathlib.Core.Option.{Option, none, some}
pub use mathlib.Core.List.{List, [], ◌∷◌, ◌++◌, map, reverse}
pub use native.Mathlib.Omega.{arith}
