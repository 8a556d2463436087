-- ===== src/Jwe/Derivation.antt =====
-- src/crypto.rs: the key derivation functions that src/jwe.rs calls.
use webtoken.Common.{
  ℕ, zero, suc, ◌+◌, ◌-◌, ◌/◌, ◌≤◌, ◌≡◌, inl, inr, [], ◌∷◌, ◌++◌, Bytes, ltb, ◌==◌, if◌then◌else◌,
  Bool-cases, length, take, length-append, length-take, to_be_bytes, arith,
}
use Prim.Native.Nat.{bit_xor, min}
use webtoken.Signing.{Hash, sha256, sha384, sha512}
use webtoken.Jwe.Ciphers.{CipherSuite}

module _ (c : CipherSuite) where
  -- The rounds of concat_kdf_sha256, on fuel: the output so far grows by one digest while it is short.
  unfoldable pub kdf_rounds : ℕ → ℕ → ℕ → Bytes → Bytes → Bytes → Bytes
  kdf_rounds zero target counter shared_secret other_info out = out
  kdf_rounds (suc fuel) target counter shared_secret other_info out =
      let digest = c.sha256_digest (to_be_bytes 4 counter ++ shared_secret ++ other_info) in
      let longer = kdf_rounds fuel target (counter + 1) shared_secret other_info (out ++ digest) in
      if ltb (length out) target then longer else out

  -- The names and lengths behind the shared secret.
  unfoldable pub kdf_info : ℕ → Bytes → Bytes → Bytes → Bytes
  kdf_info key_len_bits alg_id party_u_info party_v_info =
      to_be_bytes 4 (length alg_id)
      ++ alg_id
      ++ to_be_bytes 4 (length party_u_info)
      ++ party_u_info
      ++ to_be_bytes 4 (length party_v_info)
      ++ party_v_info
      ++ to_be_bytes 4 key_len_bits

  -- concat_kdf_sha256; as many rounds as bytes are asked for are more than enough.
  unfoldable pub concat_kdf_sha256 : Bytes → ℕ → Bytes → Bytes → Bytes → Bytes
  concat_kdf_sha256 shared_secret key_len_bits alg_id party_u_info party_v_info =
      let target = key_len_bits / 8 in
      let other_info = kdf_info key_len_bits alg_id party_u_info party_v_info in
      take target (kdf_rounds target target 1 shared_secret other_info [])

  -- `for (b, x) in block.iter_mut().zip(u) { *b ^= *x; }`
  unfoldable pub xor_onto : Bytes → Bytes → Bytes
  xor_onto [] u = []
  xor_onto (b ∷ block) [] = b ∷ block
  xor_onto (b ∷ block) (x ∷ u) = bit_xor b x ∷ xor_onto block u

  -- The rounds of one block of PBKDF2 behind the first.
  unfoldable pub pbkdf2_rounds : Hash → Bytes → ℕ → Bytes → Bytes → Bytes
  pbkdf2_rounds h password zero u_prev block = block
  pbkdf2_rounds h password (suc rounds) u_prev block =
      let u_next = c.hmac h password u_prev in
      pbkdf2_rounds h password rounds u_next (xor_onto block u_next)

  -- One block of PBKDF2, numbered from 1.
  unfoldable pub pbkdf2_block : Hash → Bytes → Bytes → ℕ → ℕ → Bytes
  pbkdf2_block h password salt iterations i =
      let u1 = c.hmac h password (salt ++ to_be_bytes 4 i) in
      pbkdf2_rounds h password (iterations - 1) u1 u1

  -- The blocks that fill `len` bytes, the last one cut; `fuel` bounds their number.
  unfoldable pub pbkdf2_blocks : ℕ → Hash → ℕ → Bytes → Bytes → ℕ → ℕ → ℕ → Bytes
  pbkdf2_blocks zero h size password salt iterations i len = []
  pbkdf2_blocks (suc fuel) h size password salt iterations i len =
      let more = pbkdf2_blocks fuel h size password salt iterations (i + 1) (len - size) in
      if len == 0
      then []
      else take (min size len) (pbkdf2_block h password salt iterations i) ++ more

  -- pbkdf2_manual_sha256, pbkdf2_manual_sha384 and pbkdf2_manual_sha512, with the length of the output.
  unfoldable pub pbkdf2_manual_sha256 : Bytes → Bytes → ℕ → ℕ → Bytes
  pbkdf2_manual_sha256 password salt iterations len =
      pbkdf2_blocks len sha256 32 password salt iterations 1 len

  unfoldable pub pbkdf2_manual_sha384 : Bytes → Bytes → ℕ → ℕ → Bytes
  pbkdf2_manual_sha384 password salt iterations len =
      pbkdf2_blocks len sha384 48 password salt iterations 1 len

  unfoldable pub pbkdf2_manual_sha512 : Bytes → Bytes → ℕ → ℕ → Bytes
  pbkdf2_manual_sha512 password salt iterations len =
      pbkdf2_blocks len sha512 64 password salt iterations 1 len

  module _ (digest_length : (bytes : Bytes) → length (c.sha256_digest bytes) ≡ 32) where
    -- With `fuel` rounds for what is missing, the rounds reach the target.
    kdf_rounds_reach :
        (fuel target counter : ℕ) (shared_secret other_info out : Bytes)
        → target ≤ length out + fuel
        → target ≤ length (kdf_rounds fuel target counter shared_secret other_info out)
    unfolding kdf_rounds
    kdf_rounds_reach zero target counter shared_secret other_info out h = omega arith
    kdf_rounds_reach (suc fuel) target counter shared_secret other_info out h =
        let digest = c.sha256_digest (to_be_bytes 4 counter ++ shared_secret ++ other_info) in
        let grown : length (out ++ digest) ≡ length out + 32 = omega (
          arith,
          length-append out digest,
          digest_length (to_be_bytes 4 counter ++ shared_secret ++ other_info),
        ) in
        let later =
          kdf_rounds_reach fuel target (counter + 1) shared_secret other_info (out ++ digest)
            (omega arith) in
        elim (Bool-cases (ltb (length out) target)) [
          | inl short ↦ rw short later
          | inr enough ↦ rw enough (ground arith)
        ]

    -- `concat_kdf_sha256` terminates with exactly the number of bytes asked for, where SHA-256 gives 32.
    pub length-concat_kdf_sha256 :
        (shared_secret alg_id party_u_info party_v_info : Bytes) (key_len_bits : ℕ)
        → length (concat_kdf_sha256 shared_secret key_len_bits alg_id party_u_info party_v_info)
          ≡ key_len_bits / 8
    unfolding concat_kdf_sha256
    length-concat_kdf_sha256 shared_secret alg_id party_u_info party_v_info key_len_bits =
        let target = key_len_bits / 8 in
        let info = kdf_info key_len_bits alg_id party_u_info party_v_info in
        omega (
          arith,
          length-take target (kdf_rounds target target 1 shared_secret info []),
          kdf_rounds_reach target target 1 shared_secret info [] (omega arith),
        )
