-- ===== src/Common.antt =====
-- The names that the other modules share: the libraries', passed on, and those of the children.
mod Tests
mod Lists
mod Strings
mod Results
mod Bits
mod Splitting
pub mod Int
pub use Tests.*
pub use Lists.*
pub use Strings.{
  Bytes, Text, IsByte, AreBytes, eqb_refl, eqb→eq, eqb_iff, is→eq, is_lit, starts_with-append,
  length-to_le_bytes, length-to_be_bytes, to_le_bytes_inj,
}
unfoldable pub use Strings.{lit, eqb, is, starts_with, to_be_bytes, to_le_bytes, from_be_bytes}
pub use Results.*
pub use Bits.{bit_and_low}
pub use Splitting.{NoDot, ◌⊙◌, split_dots-join, split_dots-NoDot}
unfoldable pub use Splitting.{split_dots}
pub use Prim.Native.Nat.{ℕ, zero, suc, ◌+◌, ◌-◌, ◌*◌, ◌/◌, ◌%◌, ◌^◌, ◌≤◌, ◌<◌, bit_and, bit_or}
pub use mathlib.Core.Path.{◌≡◌, refl, sym, ap, ◌∙◌}
pub use mathlib.Core.Logic.{◌≢◌, ◌↔◌, ◌⊎◌, inl, inr}
pub use mathlib.Core.Bool.{Bool, true, false, not, ◌&&◌, ◌||◌}
pub use mathlib.Core.Option.{Option, none, some}
pub use mathlib.Core.List.{List, [], ◌∷◌, ◌++◌, append-nil, append_assoc}
pub use native.Mathlib.Omega.{arith}
