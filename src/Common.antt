-- ===== src/Common.antt =====
-- The names that the other modules share: the libraries', passed on, and those of the children.
-- They stand for the C and C++ operations that every part of the program uses.
mod Tests
mod Lists
mod Bytes
mod Table
mod Strings
mod Bits
mod Places
pub mod Result
pub use Tests.*
pub use Lists.*
unfoldable pub use Bytes.{store, load}
pub use Bytes.{length-store, load-store}
pub use Table.*
pub use Strings.*
pub use Places.*
unfoldable pub use Bits.{set_bit, test_bit}
pub use Bits.{
  set_bit-lt, test_bit-set_bit, test_bit_zero, bit_and-fields, bit_or-fields, bit_or-zero,
  zero-bit_or, bit_and-ones,
}
pub use Result.{Errno, einval, efault, enomem, other_error, ok, err}
pub use Prim.Native.Nat.{
  ℕ, zero, suc, ◌+◌, ◌-◌, ◌*◌, ◌/◌, ◌%◌, ◌^◌, ◌≤◌, ◌<◌, min, max, bit_and, bit_or,
}
pub use mathlib.Core.Path.{◌≡◌, refl, sym, ap, ap₂, subst, ◌∙◌, fun_ext}
pub use mathlib.Core.Logic.{◌≢◌, ◌↔◌, ◌⊎◌, inl, inr}
pub use mathlib.Core.Bool.{Bool, true, false, not, ◌&&◌, ◌||◌}
pub use mathlib.Core.Option.{Option, none, some}
pub use mathlib.Core.List.{List, [], ◌∷◌, ◌++◌, map, append-nil, append_assoc}
pub use native.Mathlib.Omega.{arith}
