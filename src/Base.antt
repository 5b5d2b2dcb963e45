-- ===== src/Base.antt =====
-- The names that the other modules share: those of the libraries, passed on, and the helpers of
-- the children (tests, lists, integers, bits, error numbers).
mod Tests
mod Lists
mod Memory
mod ByteOrder
pub mod Int
pub mod Bits
pub mod TestBit
pub mod Errno
pub mod Order
unfoldable pub use Tests.{all_below}
pub use Tests.*
pub use Lists.*
pub use Memory.*
unfoldable pub use ByteOrder.{host_bytes, host_value, hton}
pub use ByteOrder.*
pub use Prim.Native.Nat.{ℕ, zero, suc, ◌+◌, ◌-◌, ◌*◌, ◌/◌, ◌%◌, ◌^◌, ◌≤◌, ◌<◌, min, max}
pub use Prim.Native.Nat.{bit_and, bit_or, bit_xor}
pub use mathlib.Core.Path.{◌≡◌, refl, sym, ap, ap₂, subst, ◌∙◌}
pub use mathlib.Core.Logic.{◌≢◌, ◌↔◌, ◌⊎◌, inl, inr}
pub use mathlib.Core.Bool.{Bool, true, false, not, ◌&&◌, ◌||◌}
pub use mathlib.Core.Option.{Option, none, some}
pub use mathlib.Core.List.{
  List, [], ◌∷◌, ◌++◌, map, reverse, reverse-reverse, append-nil, append_assoc,
}
pub use native.Mathlib.Omega.{arith}
