-- ===== src/Hkdf.antt =====
-- hkdf_sha256 of src/crypto.rs (lines 496 to 516).
use webtoken.Common.{
  ℕ, zero, suc, ◌+◌, ◌-◌, ◌*◌, ◌%◌, ◌≤◌, ◌<◌, ◌≡◌, refl, sym, ap, ◌∙◌, inl, inr, [], ◌∷◌, ◌++◌,
  Bytes, ltb, if◌then◌else◌, Bool-cases, length, take, length-append, arith,
}
use webtoken.Signing.{sha256}
use webtoken.Jwe.Ciphers.{CipherSuite}

module _ (c : CipherSuite) where
  -- The loop, on fuel: the output so far grows by one digest while it is short. The counter is a `u8`; a
  -- release build wraps it around.
  unfoldable pub hkdf_rounds : ℕ → ℕ → ℕ → Bytes → Bytes → Bytes → Bytes → Bytes
  hkdf_rounds zero target counter prk info last_t okm = okm
  hkdf_rounds (suc fuel) target counter prk info last_t okm =
      let t = c.hmac sha256 prk (last_t ++ info ++ counter ∷ []) in
      let longer = hkdf_rounds fuel target ((counter + 1) % 256) prk info t (okm ++ t) in
      if ltb (length okm) target then longer else okm

  -- hkdf_sha256; as many rounds as bytes are asked for are more than enough.
  unfoldable pub hkdf_sha256 : Bytes → Bytes → Bytes → ℕ → Bytes
  hkdf_sha256 secret salt info target =
      let prk = c.hmac sha256 salt secret in
      take target (hkdf_rounds target target 1 prk info [] [])

  -- RFC 5869: the blocks T(1), T(2), ..., and their concatenation.
  unfoldable pub block : Bytes → Bytes → ℕ → Bytes
  block prk info zero = []
  block prk info (suc n) = c.hmac sha256 prk (block prk info n ++ info ++ suc n ∷ [])

  unfoldable pub blocks : Bytes → Bytes → ℕ → Bytes
  blocks prk info zero = []
  blocks prk info (suc n) = blocks prk info n ++ block prk info (suc n)

  module _ (digest_length : (key bytes : Bytes) → length (c.hmac sha256 key bytes) ≡ 32) where
    length-blocks : (prk info : Bytes) (n : ℕ) → length (blocks prk info n) ≡ 32 * n
    unfolding block blocks
    length-blocks prk info zero = refl
    length-blocks prk info (suc n) = omega (
      arith,
      length-append (blocks prk info n) (block prk info (suc n)),
      length-blocks prk info n,
      digest_length prk (block prk info n ++ info ++ suc n ∷ []),
    )

    take_prefix :
        (target : ℕ) (xs ys : Bytes) → target ≤ length xs → take target (xs ++ ys) ≡ take target xs
    take_prefix zero xs ys h = refl
    take_prefix (suc n) [] ys h = absurd (omega arith)
    take_prefix (suc n) (x ∷ xs) ys h = ap (λ t. x ∷ t) (take_prefix n xs ys (omega arith))

    -- Further blocks do not change the bytes that are there.
    take-blocks :
        (prk info : Bytes) (target k j : ℕ)
        → target ≤ 32 * k
        → take target (blocks prk info (j + k)) ≡ take target (blocks prk info k)
    unfolding blocks
    take-blocks prk info target k zero h = let same : 0 + k ≡ k = omega arith in rw same
    take-blocks prk info target k (suc j) h =
        let same : suc j + k ≡ suc (j + k) = omega arith in
        rw same (
          take_prefix target (blocks prk info (j + k)) (block prk info (suc (j + k)))
            (omega (arith, length-blocks prk info (j + k)))
          ∙ take-blocks prk info target k j h)

    stop :
        (target k n : ℕ) (prk info : Bytes)
        → target ≤ 32 * k
        → k ≤ n
        → take target (blocks prk info k) ≡ take target (blocks prk info n)
    stop target k n prk info h hk =
        let same : n - k + k ≡ n = omega arith in
        sym (take-blocks prk info target k (n - k) h)
        ∙ ap (λ m. take target (blocks prk info m)) same

    rounds-blocks :
        (fuel target counter k n : ℕ) (prk info : Bytes)
        → target ≤ 32 * (k + fuel)
        → target ≤ 32 * n
        → n ≤ 255
        → k ≤ n
        → (k < n → counter ≡ suc k)
        → take target
            (hkdf_rounds fuel target counter prk info (block prk info k) (blocks prk info k))
          ≡ take target (blocks prk info n)
    unfolding hkdf_rounds block blocks
    rounds-blocks zero target counter k n prk info h fits small hk next =
        stop target k n prk info (omega arith) hk
    rounds-blocks (suc fuel) target counter k n prk info h fits small hk next =
        elim (Bool-cases (ltb (length (blocks prk info k)) target)) [
          | inl short ↦
              let more : k < n = ground (arith, length-blocks prk info k) in
              rw (short, next more)
                (rounds-blocks fuel target ((suc k + 1) % 256) (suc k) n prk info (omega arith) fits
                  small (omega arith) (λ less. omega arith))
          | inr enough ↦
              rw enough (stop target k n prk info (ground (arith, length-blocks prk info k)) hk)
        ]

    -- For up to 255 blocks hkdf_sha256 ends with the bytes of RFC 5869: the first `target` of the blocks
    -- T(1), ..., T(n), where SHA-256 gives 32 bytes.
    pub hkdf_sha256-blocks :
        (secret salt info : Bytes) (target n : ℕ)
        → target ≤ 32 * n
        → n ≤ 255
        → hkdf_sha256 secret salt info target
          ≡ take target (blocks (c.hmac sha256 salt secret) info n)
    unfolding hkdf_sha256
    hkdf_sha256-blocks secret salt info target n h small =
        unfold block blocks in
        rounds-blocks target target 1 0 n (c.hmac sha256 salt secret) info (omega arith) h small
          (omega arith) (λ _. refl)
