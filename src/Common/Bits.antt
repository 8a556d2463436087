-- ===== src/Common/Bits.antt =====
-- The top bit of a byte as an order.
use Prim.Native.Nat.{ℕ, zero, suc, ◌<◌, bit_and}
use mathlib.Core.Path.{◌≡◌, refl}
use mathlib.Core.Bool.{Bool, true, false}
use native.Mathlib.Omega.{arith}
use webtoken.Common.Tests.{◌==◌, if◌then◌else◌}

-- No number below this one has the top bit set.
top_bit_clear_below : ℕ → Bool
top_bit_clear_below zero = true
top_bit_clear_below (suc n) =
    let smaller = top_bit_clear_below n in if bit_and n 0x80 == 0 then smaller else false

top_bit_of :
    (bound byte : ℕ) → byte < bound → top_bit_clear_below bound ≡ true → bit_and byte 0x80 ≡ 0
unfolding top_bit_clear_below
top_bit_of zero byte below clear = absurd (omega arith)
top_bit_of (suc bound) byte below clear = ground (arith, top_bit_of bound byte)

top_bit_clear : top_bit_clear_below 128 ≡ true
unfolding top_bit_clear_below
top_bit_clear = refl

pub bit_and_low : (x : ℕ) → x < 128 → bit_and x 0x80 ≡ 0
bit_and_low x below = top_bit_of 128 x below top_bit_clear
