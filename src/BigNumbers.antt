-- ===== src/BigNumbers.antt =====
-- What the program uses of the crate `num-bigint`. A `BigUint` is a natural number; its bytes, its number
-- of bits, `gcd` and `modpow` are functions of the crate.
use webtoken.Common.{ℕ, ◌%◌, ◌^◌, ◌<◌, ◌≡◌, Bytes, AreBytes, length, from_be_bytes}
use Prim.Native.Nat.{◌∣◌}

pub record BigNumbers : Type 0 where
  pub to_bytes_be : ℕ → Bytes
  pub bits : ℕ → ℕ
  pub gcd : ℕ → ℕ → ℕ
  -- base, exponent, modulus
  pub modpow : ℕ → ℕ → ℕ → ℕ

-- The bytes are those of the number, one at least.
pub record BytesLaws (big : BigNumbers) : Type 0 where
  pub from_be_bytes-to_bytes_be : (n : ℕ) → from_be_bytes 0 (big.to_bytes_be n) ≡ n
  pub to_bytes_be-AreBytes : (n : ℕ) → AreBytes (big.to_bytes_be n)
  pub length-to_bytes_be : (n : ℕ) → 0 < length (big.to_bytes_be n)

-- `gcd` is the greatest common divisor, in the order of divisibility.
pub record PowerLaws (big : BigNumbers) : Type 0 where
  pub gcd-dvd : (a b : ℕ) → (big.gcd a b ∣ a) × (big.gcd a b ∣ b)
  pub dvd-gcd : (k a b : ℕ) → k ∣ a → k ∣ b → k ∣ big.gcd a b
  pub modpow-eq :
      (base exponent modulus : ℕ)
      → 0 < modulus
      → big.modpow base exponent modulus ≡ base ^ exponent % modulus
