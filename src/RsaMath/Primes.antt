-- ===== src/RsaMath/Primes.antt =====
-- The primes that recover_primes returns.
use webtoken.Common.{
  >>=-eq-ok, ◌⊎◌, err, panic, ℕ, zero, suc, ◌+◌, ◌-◌, ◌*◌, ◌/◌, ◌%◌, ◌^◌, ◌≤◌, ◌<◌, ◌≡◌, refl, ap,
  ◌∙◌, sym, ◌≢◌, inl, inr, Bool-cases, Bytes, Option, some, Result, ok, ◌==◌, arith,
}
use Prim.Native.Nat.{◌∣◌}
use mathlib.Core.Path.{subst}
use native.Mathlib.Nat
use webtoken.BigNumbers.{BigNumbers, PowerLaws}
use webtoken.RsaMath.{
  witness_rounds, gen_witness, attempts, recover_primes, halve, split_at, square_loop,
}

-- A number without a common divisor with `a` that divides `a * c` divides `c`.
gauss :
    (big : BigNumbers) → PowerLaws big → (a n c : ℕ) → 0 < c → big.gcd a n ≡ 1 → n ∣ a * c → n ∣ c
gauss big laws a n c pos coprime h =
    let g = big.gcd (a * c) (n * c) in
    let c-dvd : c ∣ g =
      laws.dvd-gcd c (a * c) (n * c) (Nat.dvd-mul_left c a) (Nat.dvd-mul_left c n) in
    let k = g / c in
    let g-eq : g ≡ k * c = sym (Nat.div-mul_cancel c c-dvd) in
    let k-dvd : (x : ℕ) → g ∣ x * c → k ∣ x =
      λ x d. Nat.dvd_of_mul-dvd-mul_right k pos (rw (← g-eq) d) in
    let one : k ≡ 1 = Nat.eq-one_of_dvd-one (
      rw coprime at (
        laws.dvd-gcd k a n (k-dvd a (laws.gcd-dvd (a * c) (n * c)).0)
          (k-dvd n (laws.gcd-dvd (a * c) (n * c)).1))) in
    let both : n ∣ g = laws.dvd-gcd n (a * c) (n * c) h (Nat.dvd-mul_right n c) in
    subst (λ x. n ∣ x) (g-eq ∙ (ap (λ x. x * c) one ∙ Nat.one-mul c)) both

-- What a square root of 1 that is neither 1 nor n - 1 gives.
pub split_at-factors :
    (big : BigNumbers)
    → PowerLaws big
    → (n y p q : ℕ) → y < n
    → y ≢ 1
    → y ≢ n - 1
    → y * y % n ≡ 1
    → split_at big n y ≡ ok (p, q)
    → (1 < p) × (1 < q) × (p * q ≡ n)
unfolding split_at
split_at-factors big laws n zero p q lt not_one not_last square h = cc
split_at-factors big laws n (suc k) p q lt not_one not_last square h = elim (Bool-cases (g == 0)) [
  | inl none_left ↦ absurd (ground arith)
  | inr some_left ↦
      let p-eq : p ≡ g = ground arith in
      let q-eq : q ≡ n / g = ground arith in
      rw (p-eq, q-eq) (large, large_rest, Nat.mul_comm g (n / g) ∙ g-n)
]
  where
    g : ℕ
    g = big.gcd k n

    g-n : n / g * g ≡ n
    g-n = Nat.div-mul_cancel g (laws.gcd-dvd k n).1

    not_all : g ≢ n
    not_all e =
        let d : n ∣ k = subst (λ x. x ∣ k) e (laws.gcd-dvd k n).0 in
        let l : n ≤ k = Nat.le_of_dvd (omega arith) d in omega arith

    not_coprime : g ≢ 1
    not_coprime e =
        let product : n ∣ k * (k + 2) =
          subst (λ x. n ∣ x) (omega (arith, Nat.div-add-mod (suc k * suc k) n))
            (Nat.dvd-mul_right n (suc k * suc k / n)) in
        let l : n ≤ k + 2 =
          Nat.le_of_dvd (omega arith) (gauss big laws k n (k + 2) (omega arith) e product) in
        omega arith

    large : 1 < g
    large = grind (arith, not_coprime, g-n, lt)

    large_rest : 1 < n / g
    large_rest = grind (arith, not_all, g-n, lt)

pub Result-cases :
    {E A : Type 0} (r : Result E A)
    → ((a : A) × (r ≡ ok a)) ⊎ (((e : E) × (r ≡ err e)) ⊎ (r ≡ panic))
Result-cases (ok a) = inl (a, refl)
Result-cases (err e) = inr (inl (e, refl))
Result-cases panic = inr (inr refl)

-- `p` and `q` are factors of `n`, neither of them 1.
abbrev pub AreFactors : ℕ → ℕ → ℕ → Type 0
AreFactors n p q = (1 < p) × (1 < q) × (p * q ≡ n)

module _ (big : BigNumbers) (laws : PowerLaws big) where
  pub modpow_square : (n y : ℕ) → 0 < n → big.modpow y 2 n ≡ y * y % n
  modpow_square n y h = laws.modpow-eq y 2 n h ∙ ap (λ x. x % n) square
    where
      square : y ^ 2 ≡ y * y
      square = Nat.pow-succ' y 1 ∙ rw (Nat.pow-succ' y 0, Nat.pow-zero y, Nat.mul-one y)

  square_loop-AreFactors :
      (n left y p q : ℕ)
      → y < n
      → y ≢ 1
      → y ≢ n - 1
      → square_loop big n left y ≡ some (ok (p, q))
      → AreFactors n p q
  unfolding square_loop
  square_loop-AreFactors n zero y p q lt not_one not_last h = cc
  square_loop-AreFactors n (suc left) y p q lt not_one not_last h =
      let pos : 0 < n = omega arith in
      ground (
        arith,
        modpow_square n y pos,
        Nat.mod-lt (y * y) pos,
        split_at-factors big laws n y p q lt not_one not_last,
        square_loop-AreFactors n left (big.modpow y 2 n) p q,
      )

  witness_rounds_range :
      (fill : ℕ → ℕ → Option Bytes) (byte_len n left g : ℕ)
      → witness_rounds fill byte_len n left ≡ ok g
      → (1 < g) × (g < n)
  unfolding witness_rounds
  witness_rounds_range fill byte_len n zero g h = cc
  witness_rounds_range fill byte_len n (suc left) g h =
      ground (arith, witness_rounds_range fill byte_len n left g)

  gen_witness_range :
      (fill : ℕ → ℕ → Option Bytes) (n g : ℕ) → gen_witness big fill n ≡ ok g → (1 < g) × (g < n)
  unfolding gen_witness
  gen_witness_range fill n g h = witness_rounds_range fill _ n 10 g h

  abbrev start : ℕ → ℕ → ℕ → ℕ
  start g r n = big.modpow g r n

  start-range : (g r n : ℕ) → g < n → start g r n < n
  start-range g r n lt =
      let pos : 0 < n = omega arith in rw (laws.modpow-eq g r n pos) (Nat.mod-lt (g ^ r) pos)

  attempts-AreFactors :
      (fill : ℕ → ℕ → ℕ → Option Bytes) (n r t left p q : ℕ)
      → attempts big fill n r t left ≡ ok (p, q)
      → AreFactors n p q
  unfolding attempts
  attempts-AreFactors fill n r t zero p q h = cc
  attempts-AreFactors fill n r t (suc left) p q h =
      elim (Result-cases (gen_witness big (fill left) n)) [
        | inl (g, e) ↦
            let k = rw (attempts, e) at h in
            ground (
              arith,
              start-range g r n (gen_witness_range (fill left) n g e).1,
              square_loop-AreFactors n (t - 1) (start g r n) p q,
              attempts-AreFactors fill n r t left p q,
            )
        | inr (inl (e, f)) ↦ attempts-AreFactors fill n r t left p q (rw (attempts, f) at h)
        | inr (inr f) ↦ let k = rw (attempts, f) at h in cc
      ]

-- When recover_primes returns two numbers, their product is `n`, and neither of them is 1.
pub recover_primes-AreFactors :
    (big : BigNumbers)
    → PowerLaws big
    → (fill : ℕ → ℕ → ℕ → Option Bytes) (n e d p q : ℕ) → recover_primes big fill n e d ≡ ok (p, q)
    → AreFactors n p q
unfolding recover_primes
recover_primes-AreFactors big laws fill n e d p q h = elim (Bool-cases (d * e == 0)) [
  | inl none_left ↦ let k = rw (recover_primes, none_left) at h in cc
  | inr some_left ↦
      let ((r, t), _, found) =
        >>=-eq-ok (halve (d * e - 1) (d * e - 1) 0) _ (rw (recover_primes, some_left) at h) in
      attempts-AreFactors big laws fill n r t 100 p q found
]
