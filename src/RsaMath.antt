-- ===== src/RsaMath.antt =====
-- src/crypto.rs: the recovery of the primes of an RSA key and of its CRT numbers (lines 82 to 143).
pub mod Inverse
pub mod Primes
pub mod Termination
use webtoken.Common.{
  ◌≤◌, ℕ, zero, suc, ◌+◌, ◌-◌, ◌*◌, ◌/◌, ◌%◌, ◌<◌, ◌||◌, Option, none, some, Bytes, Text, Result,
  ok, err, panic, ◌>>=◌, ok_or, ltb, ◌==◌, if◌then◌else◌, lit, from_be_bytes, arith,
}
use webtoken.Common.Int.{ℤ, pos, negsuc, ◌-ℤ◌, scale}
use mathlib.Core.WellFounded.{Acc}
use webtoken.Errors.{WebtokenError, generic}
use webtoken.BigNumbers.{BigNumbers}

-- The remainder by a positive number is below it, so Euclid's descent on the second number ends.
pub descends : (divisor dividend : ℕ) → dividend % suc divisor < suc divisor
descends divisor dividend = omega arith

up_to : (bound m : ℕ) → m ≤ bound → Acc ◌<◌ m
up_to zero m small = Acc.intro m λ i less. absurd (omega arith)
up_to (suc bound) m small = Acc.intro m λ i less. up_to bound i (omega arith)

pub grounded : (m : ℕ) → Acc ◌<◌ m
unfolding up_to
grounded m = up_to m m (omega arith)

-- extended_gcd. The two numbers are never negative: `mod_inverse` makes them with `Sign::Plus`.
unfoldable pub extended_gcd_acc : (a b : ℕ) → Acc ◌<◌ b → ℕ × ℤ × ℤ
extended_gcd_acc a b (Acc.intro zero _) = (a, pos 1, pos 0)
extended_gcd_acc a b (Acc.intro (suc d) again) =
    let r = a % suc d in
    let (g, x, y) = extended_gcd_acc (suc d) r (again r (descends d a)) in
    (g, y, x -ℤ scale (a / suc d) y)

unfoldable pub extended_gcd : ℕ → ℕ → ℕ × ℤ × ℤ
unfolding grounded up_to
extended_gcd a b = extended_gcd_acc a b (grounded b)

-- `x % m` has the sign of `x`; a negative one is made positive with `m`.
unfoldable pub reduced : ℤ → ℕ → ℕ
reduced (pos n) m = n % m
reduced (negsuc n) m = if suc n % m == 0 then 0 else m - suc n % m

-- mod_inverse; the remainder by zero panics.
unfoldable pub mod_inverse : ℕ → ℕ → Result Text (Option ℕ)
mod_inverse a m =
    let (g, x, _) = extended_gcd a m in
    if g == 1 then (if m == 0 then panic else ok (some (reduced x m))) else ok none

-- `d % (p - 1)` panics for a `p` of 0 or 1.
abbrev pub rem_pred : ℕ → ℕ → Result Text ℕ
rem_pred d p = if ltb 1 p then ok (d % (p - 1)) else panic

-- compute_crt
unfoldable pub compute_crt : ℕ → ℕ → ℕ → Result Text (ℕ × ℕ × ℕ)
compute_crt p q d = do
  dp ← rem_pred d p
  dq ← rem_pred d q
  found ← mod_inverse q p
  qi ← ok_or found (lit "Inverse failed")
  ok (dp, dq, qi)

-- The rounds of gen_witness, with the number of those left; `fill` is what the generator gives for a
-- round and a number of bytes.
unfoldable pub witness_rounds : (ℕ → ℕ → Option Bytes) → ℕ → ℕ → ℕ → Result WebtokenError ℕ
witness_rounds fill byte_len n zero = err (generic (lit "Failed to generate witness"))
witness_rounds fill byte_len n (suc left) =
    let later = witness_rounds fill byte_len n left in
    elim (fill left byte_len) [
      | none ↦ err (generic (lit "RNG failed"))
      | some bytes ↦
          if n == 0
          then panic
          else let g = from_be_bytes 0 bytes % n in if ltb 1 g then ok g else later
    ]

-- gen_witness
unfoldable pub gen_witness : BigNumbers → (ℕ → ℕ → Option Bytes) → ℕ → Result WebtokenError ℕ
gen_witness big fill n = witness_rounds fill ((big.bits n + 7) / 8) n 10

-- The loop over `r` and `t`. On zero it has no end; on another number as much fuel as the number is enough.
unfoldable pub halve : ℕ → ℕ → ℕ → Result Text (ℕ × ℕ)
halve zero r t = if r % 2 == 0 then panic else ok (r, t)
halve (suc fuel) r t =
    let more = halve fuel (r / 2) (t + 1) in if r % 2 == 0 then more else ok (r, t)

-- `y - 1` below zero and the division by zero panic.
unfoldable pub split_at : BigNumbers → ℕ → ℕ → Result Text (ℕ × ℕ)
split_at big n y =
    let p = big.gcd (y - 1) n in if y == 0 then panic else if p == 0 then panic else ok (p, n / p)

-- The loop that squares `y`; none when it leaves the attempt without primes.
unfoldable pub square_loop : BigNumbers → ℕ → ℕ → ℕ → Option (Result Text (ℕ × ℕ))
square_loop big n zero y = none
square_loop big n (suc left) y =
    let x = big.modpow y 2 n in
    let later = square_loop big n left x in
    if x == 1 then some (split_at big n y) else if x == n - 1 then none else later

-- The attempts, with the number of those left; `fill` is given the attempt too.
unfoldable pub attempts :
    BigNumbers → (ℕ → ℕ → ℕ → Option Bytes) → ℕ → ℕ → ℕ → ℕ → Result Text (ℕ × ℕ)
attempts big fill n r t zero = err (lit "Failed to recover primes")
attempts big fill n r t (suc left) =
    let later = attempts big fill n r t left in
    elim (gen_witness big (fill left) n) [
      | ok g ↦
          let y = big.modpow g r n in
          if y == 1 || y == n - 1
          then later
          else elim (square_loop big n (t - 1) y) [ none ↦ later | some found ↦ found ]
      | err e ↦ later
      | panic ↦ panic
    ]

-- recover_primes; `d * e - 1` below zero panics.
unfoldable pub recover_primes :
    BigNumbers → (ℕ → ℕ → ℕ → Option Bytes) → ℕ → ℕ → ℕ → Result Text (ℕ × ℕ)
recover_primes big fill n e d =
    if d * e == 0
    then panic
    else do (r, t) ← halve (d * e - 1) (d * e - 1) 0; attempts big fill n r t 100
