-- ===== src/RsaMath/Termination.antt =====
-- recover_primes returns, with the primes or with an error.
use webtoken.Common.{
  false, panic, ℕ, zero, suc, ◌+◌, ◌-◌, ◌*◌, ◌/◌, ◌%◌, ◌≤◌, ◌<◌, ◌≡◌, refl, ◌∙◌, sym, ◌≢◌, inl, inr,
  Bool-cases, Bytes, Option, some, ok, ◌==◌, arith,
}
use native.Mathlib.Nat
use webtoken.BigNumbers.{BigNumbers, PowerLaws}
use webtoken.RsaMath.{
  witness_rounds, gen_witness, attempts, recover_primes, halve, split_at, square_loop,
}
use webtoken.RsaMath.Primes.{modpow_square, Result-cases}

-- On a positive number the loop of `recover_primes` over `r` ends within as many rounds, at an odd number.
halve_ends :
    (fuel r t : ℕ)
    → 0 < r
    → r ≤ fuel
    → (odd count : ℕ) × (halve fuel r t ≡ ok (odd, count)) × (odd % 2 ≡ 1)
unfolding halve
halve_ends zero r t h k = absurd (omega arith)
halve_ends (suc fuel) r t h k = elim (Bool-cases (r % 2 == 0)) [
  | inl even ↦ rw even (halve_ends fuel (r / 2) (t + 1) (ground arith) (omega arith))
  | inr odd ↦ rw odd (r, t, refl, ground arith)
]

module _ (big : BigNumbers) (laws : PowerLaws big) where
  split_at_returns : (n y : ℕ) → 0 < n → big.modpow y 2 n ≡ 1 → split_at big n y ≢ panic
  unfolding split_at
  split_at_returns n zero pos h e =
      let square : 0 * 0 % n ≡ 1 = sym (modpow_square big laws n 0 pos) ∙ h in omega arith
  split_at_returns n (suc k) pos h e =
      let some_left : 0 < big.gcd k n = Nat.pos_of_dvd_of_pos (laws.gcd-dvd k n).1 pos in
      ground arith

  square_loop_returns : (n left y : ℕ) → 0 < n → square_loop big n left y ≢ some panic
  unfolding square_loop
  square_loop_returns n zero y pos h = cc
  square_loop_returns n (suc left) y pos h =
      ground (arith, split_at_returns n y pos, square_loop_returns n left (big.modpow y 2 n) pos)

  witness_rounds_returns :
      (fill : ℕ → ℕ → Option Bytes) (byte_len n left : ℕ)
      → 0 < n
      → witness_rounds fill byte_len n left ≢ panic
  unfolding witness_rounds
  witness_rounds_returns fill byte_len n zero pos h = cc
  witness_rounds_returns fill byte_len n (suc left) pos h =
      ground (arith, witness_rounds_returns fill byte_len n left pos)

  attempts_return :
      (fill : ℕ → ℕ → ℕ → Option Bytes) (n r t left : ℕ)
      → 0 < n
      → attempts big fill n r t left ≢ panic
  unfolding attempts
  attempts_return fill n r t zero pos h = cc
  attempts_return fill n r t (suc left) pos h =
      elim (Result-cases (gen_witness big (fill left) n)) [
        | inl (g, e) ↦
            let k = rw (attempts, e) at h in
            ground (
              arith,
              square_loop_returns n (t - 1) (big.modpow g r n) pos,
              attempts_return fill n r t left pos,
            )
        | inr (inl (e, f)) ↦ attempts_return fill n r t left pos (rw (attempts, f) at h)
        | inr (inr f) ↦ unfold gen_witness in witness_rounds_returns (fill left) _ n 10 pos f
      ]

-- For a positive `n` and `1 < d * e`, recover_primes returns: no loop without end, no panic.
pub recover_primes_returns :
    (big : BigNumbers)
    → PowerLaws big
    → (fill : ℕ → ℕ → ℕ → Option Bytes) (n e d : ℕ) → 0 < n
    → 1 < d * e
    → recover_primes big fill n e d ≢ panic
unfolding recover_primes
recover_primes_returns big laws fill n e d pos h panics =
    let some_left : (d * e == 0) ≡ false = ground arith in
    let (odd, count, ends, _) = halve_ends (d * e - 1) (d * e - 1) 0 (omega arith) (omega arith) in
    attempts_return big laws fill n odd count 100 pos
      (rw (recover_primes, some_left, ends) at panics)
