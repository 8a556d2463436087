-- ===== src/RsaMath/Inverse.antt =====
-- mod_inverse returns the inverse of its number.
use webtoken.Common.{
  Option, panic, none, ℕ, zero, suc, ◌+◌, ◌-◌, ◌*◌, ◌/◌, ◌%◌, ◌<◌, ◌≡◌, inl, inr, Bool-cases, sym,
  ◌∙◌, some, Text, Result, ok, ◌==◌, if◌then◌else◌, arith,
}
use webtoken.Common.Int.{ℤ, pos, negsuc, pos_part, neg_part, ◌-ℤ◌, scale, -ℤ_parts, scale_parts}
use mathlib.Core.WellFounded.{Acc}
use native.Mathlib.Nat
use webtoken.RsaMath.{
  extended_gcd_acc, extended_gcd, descends, reduced, mod_inverse, grounded, compute_crt,
}

-- `a * x + b * y = g`
abbrev pub IsBezout : ℕ → ℕ → ℕ × ℤ × ℤ → Type 0
IsBezout a b (g, x, y) = a * pos_part x + b * pos_part y ≡ g + a * neg_part x + b * neg_part y

-- The step over the parts of the numbers, with `a = b * q + r` and `z = x - q * y`.
step_parts :
    (b q r g xp xn yp yn zp zn wp wn : ℕ)
    → b * xp + r * yp ≡ g + b * xn + r * yn
    → wp + q * yn ≡ wn + q * yp
    → zp + xn + wp ≡ zn + xp + wn
    → (b * q + r) * yp + b * zp ≡ g + (b * q + r) * yn + b * zn
step_parts b q r g xp xn yp yn zp zn wp wn h w z =
    omega (arith, Nat.mul_comm b (zp + xn + wp), Nat.mul_comm b (zn + xp + wn), bz, bw)
  where
    bz : b * (zp + xn + wp) ≡ b * (zn + xp + wn)
    bz = rw z

    bw : b * (wp + q * yn) ≡ b * (wn + q * yp)
    bw = rw w

IsBezout-step :
    (a b g : ℕ) (x y : ℤ)
    → IsBezout (suc b) (a % suc b) (g, x, y)
    → IsBezout a (suc b) (g, y, x -ℤ scale (a / suc b) y)
IsBezout-step a b g x y h = rw (Nat.div-add-mod a (suc b)) at (
    step_parts (suc b) (a / suc b) (a % suc b) g (pos_part x) (neg_part x) (pos_part y) (neg_part y)
      _ _ _ _ h (scale_parts (a / suc b) y) (-ℤ_parts x (scale (a / suc b) y)))

extended_gcd_acc-IsBezout : (a b : ℕ) (w : Acc ◌<◌ b) → IsBezout a b (extended_gcd_acc a b w)
unfolding extended_gcd_acc
extended_gcd_acc-IsBezout a b (Acc.intro zero _) = omega arith
extended_gcd_acc-IsBezout a b (Acc.intro (suc d) again) =
    let r = a % suc d in
    IsBezout-step a d _ _ _ (extended_gcd_acc-IsBezout (suc d) r (again r (descends d a)))

pub extended_gcd-IsBezout : (a b : ℕ) → IsBezout a b (extended_gcd a b)
unfolding extended_gcd
extended_gcd-IsBezout a b = extended_gcd_acc-IsBezout a b (grounded b)

mod_of_sum : (n m u w : ℕ) → n + m * u ≡ 1 + m * w → n % m ≡ 1 % m
mod_of_sum n m u w h =
    sym (Nat.add-mul-mod_self_left n m u) ∙ (rw h (Nat.add-mul-mod_self_left 1 m w))

-- The remainder of a coefficient is an inverse.
reduced-inverse :
    (a m : ℕ) (x : ℤ) (u v : ℕ)
    → 0 < m
    → a * pos_part x + m * u ≡ 1 + a * neg_part x + m * v
    → (reduced x m < m) × (a * reduced x m % m ≡ 1 % m)
unfolding reduced
reduced-inverse a m (pos n) u v h e =
    (Nat.mod-lt n h, mod_of_sum (a * (n % m)) m (u + a * (n / m)) v (omega (arith, split, e)))
  where
    split : a * n ≡ a * (m * (n / m) + n % m)
    split = rw (Nat.div-add-mod n m)
reduced-inverse a m (negsuc n) u v h e = elim (Bool-cases (s == 0)) [
  | inl whole ↦ ground (arith, mod_of_sum 0 m u (a * (suc n / m) + v), split)
  | inr rest ↦ rw rest (
    ground arith,
    mod_of_sum (a * (m - s)) m u (a + a * (suc n / m) + v) (omega (arith, split, e, whole_m)),
  )
]
  where
    s : ℕ
    s = suc n % m

    split : a * suc n ≡ a * (m * (suc n / m) + suc n % m)
    split = rw (Nat.div-add-mod (suc n) m)

    whole_m : a * (m - s) + a * s ≡ a * m
    whole_m =
        rw (← Nat.mul-add a (m - s) s, Nat.sub-add_cancel (Nat.le_of_lt (Nat.mod-lt (suc n) h)))

-- The last lines of mod_inverse, on the result of extended_gcd.
abbrev inverse_of : ℕ × ℤ × ℤ → ℕ → Result Text (Option ℕ)
inverse_of (g, x, _) m =
    if g == 1 then (if m == 0 then panic else ok (some (reduced x m))) else ok none

found-inverse :
    (a m : ℕ) (found : ℕ × ℤ × ℤ) (r : ℕ)
    → IsBezout a m found
    → inverse_of found m ≡ ok (some r)
    → (r < m) × (a * r % m ≡ 1 % m)
found-inverse a m (g, x, y) r b h = ground (arith, reduced-inverse a m x (pos_part y) (neg_part y))

-- What mod_inverse finds is below the modulus, and its product with the number is 1 modulo it.
pub mod_inverse-inverse :
    (a m r : ℕ) → mod_inverse a m ≡ ok (some r) → (r < m) × (a * r % m ≡ 1 % m)
unfolding mod_inverse
mod_inverse-inverse a m r h = found-inverse a m (extended_gcd a m) r (extended_gcd-IsBezout a m) h

-- When compute_crt returns, `dp` and `dq` are the remainders of `d` by `p - 1` and `q - 1`, and `qi` is
-- below `p` and inverse to `q` modulo `p`.
pub compute_crt_inverse :
    (p q d dp dq qi : ℕ)
    → compute_crt p q d ≡ ok (dp, dq, qi)
    → (dp ≡ d % (p - 1)) × (dq ≡ d % (q - 1)) × (qi < p) × (q * qi % p ≡ 1 % p)
unfolding compute_crt
compute_crt_inverse p q d dp dq qi h = ground (arith, mod_inverse-inverse q p qi)
