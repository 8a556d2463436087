-- ===== src/Tests/Numbers.antt =====
-- A small instance of the numbers of `num-bigint`, and the RSA functions at concrete numbers.
use webtoken.Common.{
  ℕ, zero, suc, ◌+◌, ◌-◌, ◌*◌, ◌/◌, ◌%◌, ◌^◌, ◌≤◌, ◌<◌, ◌≡◌, refl, ◌≢◌, inl, inr, Bool-cases, Bytes,
  IsByte, AreBytes, Option, some, [], ◌∷◌, ◌++◌, ok, panic, ltb, if◌then◌else◌, length,
  length-append, All-append, from_be_bytes, arith,
}
use Prim.Native.Nat.{◌∣◌}
use native.Mathlib.Nat
use webtoken.Common.Int.{◌-ℤ◌, scale}
use webtoken.RsaMath.{
  recover_primes, halve, attempts, gen_witness, witness_rounds, square_loop, split_at, compute_crt,
  mod_inverse, extended_gcd, extended_gcd_acc, reduced,
}
use webtoken.RsaMath.Primes.{AreFactors, recover_primes-AreFactors}
use webtoken.RsaMath.Termination.{recover_primes_returns}
use webtoken.RsaMath.Inverse.{compute_crt_inverse}
use webtoken.BigNumbers.{BigNumbers, BytesLaws, PowerLaws}

-- The digits to the base 256, on as much fuel as the number.
unfoldable pub digits : ℕ → ℕ → Bytes
digits zero n = n ∷ []
digits (suc fuel) n =
    let higher = digits fuel (n / 256) in if ltb n 256 then n ∷ [] else higher ++ (n % 256) ∷ []

unfoldable pub euclid : ℕ → ℕ → ℕ → ℕ
euclid zero a b = a
euclid (suc fuel) a zero = a
euclid (suc fuel) a (suc c) = euclid fuel (suc c) (a % suc c)

unfoldable pub numbers : BigNumbers
numbers = record {
  to_bytes_be = λ n. digits n n;
  bits = λ n. n;
  gcd = λ a b. euclid (suc b) a b;
  modpow = λ base exponent modulus. base ^ exponent % modulus;
}

from_be_bytes-snoc :
    (acc : ℕ) (bs : Bytes) (b : ℕ)
    → from_be_bytes acc (bs ++ b ∷ []) ≡ from_be_bytes acc bs * 256 + b
unfolding from_be_bytes
from_be_bytes-snoc acc [] b = refl
from_be_bytes-snoc acc (x ∷ bs) b = from_be_bytes-snoc (acc * 256 + x) bs b

from_be_bytes-digits : (fuel n : ℕ) → n ≤ fuel → from_be_bytes 0 (digits fuel n) ≡ n
unfolding digits from_be_bytes
from_be_bytes-digits zero n h = omega arith
from_be_bytes-digits (suc fuel) n h = elim (Bool-cases (ltb n 256)) [
  | inl small ↦ rw small (omega arith)
  | inr large ↦
      rw
        (
          large,
          from_be_bytes-snoc 0 (digits fuel (n / 256)) (n % 256),
          from_be_bytes-digits fuel (n / 256) (omega arith),
        )
        (omega arith)
]

digits-AreBytes : (fuel n : ℕ) → n ≤ fuel → AreBytes (digits fuel n)
unfolding digits
digits-AreBytes zero n h = (omega arith, tt)
digits-AreBytes (suc fuel) n h = elim (Bool-cases (ltb n 256)) [
  | inl small ↦ rw small (ground arith, tt)
  | inr large ↦ rw large (
      All-append IsByte (digits fuel (n / 256)) ((n % 256) ∷ [])
        (digits-AreBytes fuel (n / 256) (ground arith)) (omega arith, tt))
]

length-digits : (fuel n : ℕ) → 0 < length (digits fuel n)
unfolding digits
length-digits zero n = omega arith
length-digits (suc fuel) n = ground (arith, length-append (digits fuel (n / 256)) ((n % 256) ∷ []))

pub bytes_laws : BytesLaws numbers
unfolding numbers
bytes_laws = record {
  from_be_bytes-to_bytes_be = λ n. from_be_bytes-digits n n (Nat.le_refl n);
  to_bytes_be-AreBytes = λ n. digits-AreBytes n n (Nat.le_refl n);
  length-to_bytes_be = λ n. length-digits n n;
}

euclid-dvd : (fuel a b : ℕ) → b < fuel → (euclid fuel a b ∣ a) × (euclid fuel a b ∣ b)
unfolding euclid
euclid-dvd zero a b h = absurd (omega arith)
euclid-dvd (suc fuel) a zero h = (Nat.dvd_refl a, Nat.dvd-zero a)
euclid-dvd (suc fuel) a (suc c) h =
    let both = euclid-dvd fuel (suc c) (a % suc c) (omega arith) in
    ((Nat.dvd-mod_iff _ both.0).0 both.1, both.0)

dvd-euclid : (k fuel a b : ℕ) → k ∣ a → k ∣ b → k ∣ euclid fuel a b
unfolding euclid
dvd-euclid k zero a b ha hb = ha
dvd-euclid k (suc fuel) a zero ha hb = ha
dvd-euclid k (suc fuel) a (suc c) ha hb =
    dvd-euclid k fuel (suc c) (a % suc c) hb ((Nat.dvd-mod_iff k hb).1 ha)

pub power_laws : PowerLaws numbers
unfolding numbers
power_laws = record {
  gcd-dvd = λ a b. euclid-dvd (suc b) a b (omega arith);
  dvd-gcd = λ k a b ha hb. dvd-euclid k (suc b) a b ha hb;
  modpow-eq = λ base exponent modulus pos. refl;
}

-- The bytes that the generator gives: the number 2.
abbrev draws : ℕ → ℕ → ℕ → Option Bytes
draws attempt round byte_len = some (2 ∷ [])

-- `n` is 15, and `d * e - 1` is 8.
recovered : recover_primes numbers draws 15 3 3 ≡ ok (3, 5)
unfolding recover_primes halve attempts gen_witness witness_rounds square_loop split_at numbers
    euclid from_be_bytes
recovered = refl

recover_primes-AreFactors_example : AreFactors 15 3 5
recover_primes-AreFactors_example =
    recover_primes-AreFactors numbers power_laws draws 15 3 3 3 5 recovered

recover_primes_returns_example : recover_primes numbers draws 15 3 3 ≢ panic
recover_primes_returns_example =
    recover_primes_returns numbers power_laws draws 15 3 3 (omega arith) (omega arith)

crt : compute_crt 5 3 3 ≡ ok (3, 1, 2)
unfolding compute_crt mod_inverse extended_gcd extended_gcd_acc reduced ◌-ℤ◌ scale
crt = refl

compute_crt_inverse_example : (3 ≡ 3 % (5 - 1)) × (1 ≡ 3 % (3 - 1)) × (2 < 5) × (3 * 2 % 5 ≡ 1 % 5)
compute_crt_inverse_example = compute_crt_inverse 5 3 3 3 1 2 crt
