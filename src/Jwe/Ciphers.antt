-- ===== src/Jwe/Ciphers.antt =====
-- src/crypto.rs: the ciphers that src/jwe.rs calls, over those of `aws-lc-rs` and `graviola`.
use webtoken.Common.{
  ℕ, Bool, ◌||◌, ◌++◌, Option, none, some, Bytes, Text, Result, ok, err, ◌>>=◌, ◌>>◌, guard, ok_or,
  leb, ◌==◌, if◌then◌else◌, length, lit, is,
}
use webtoken.Errors.{
  WebtokenError, generic, invalid_key, invalid_token, invalid_algorithm, invalid_signature,
}
use webtoken.Signing.{Hash, sha256, sha384, sha512}
use webtoken.External.{Base64}
use webtoken.KeyBytes.{decode_key_bytes}
use webtoken.Der.{wrap_pkcs1_as_pkcs8}

-- The ciphers of the libraries. Keys and nonces come with the lengths that the callers have checked; an
-- AEAD cipher returns ciphertext and tag. `RsaPublic` and `RsaPrivate` stand for parsed keys.
pub record CipherSuite : Type 1 where
  pub RsaPublic : Type 0
  pub RsaPrivate : Type 0
  pub rsa_public_from_der : Bytes → Option RsaPublic
  pub rsa_private_from_pkcs8 : Bytes → Option RsaPrivate
  pub oaep_takes_public : RsaPublic → Bool
  pub oaep_takes_private : RsaPrivate → Bool
  pub pkcs1_takes_public : RsaPublic → Bool
  pub pkcs1_takes_private : RsaPrivate → Bool
  pub oaep_encrypt : Hash → RsaPublic → Bytes → Option Bytes
  pub oaep_decrypt : Hash → RsaPrivate → Bytes → Option Bytes
  pub pkcs1_encrypt : RsaPublic → Bytes → Option Bytes
  pub pkcs1_decrypt : RsaPrivate → Bytes → Option Bytes
  pub kw_wrap : Bytes → Bytes → Option Bytes
  pub kw_unwrap : Bytes → Bytes → Option Bytes
  pub cbc_encrypt : Bytes → Bytes → Bytes → Option Bytes
  pub cbc_decrypt : Bytes → Bytes → Bytes → Option Bytes
  pub gcm_seal : Bytes → Bytes → Bytes → Bytes → Option (Bytes × Bytes)
  pub gcm_open : Bytes → Bytes → Bytes → Bytes → Option Bytes
  pub c20p_seal : Bytes → Bytes → Bytes → Bytes → Bytes × Bytes
  pub c20p_open : Bytes → Bytes → Bytes → Bytes → Bytes → Option Bytes
  pub xc20p_seal : Bytes → Bytes → Bytes → Bytes → Bytes × Bytes
  pub xc20p_open : Bytes → Bytes → Bytes → Bytes → Bytes → Option Bytes
  pub hmac : Hash → Bytes → Bytes → Bytes
  pub sha256_digest : Bytes → Bytes

-- The key sizes of AES-KW and AES-GCM, and of AES-CBC.
abbrev is_128_or_256 : ℕ → Bool
is_128_or_256 n = n == 16 || n == 32

abbrev is_aes_size : ℕ → Bool
is_aes_size n = n == 16 || (n == 24 || n == 32)

-- The nonce that is given, of this length, or a drawn one.
abbrev nonce_or_draw :
    ℕ → WebtokenError → Option Bytes → (ℕ → Result WebtokenError Bytes) → Result WebtokenError Bytes
nonce_or_draw n e none draw = draw n
nonce_or_draw n e (some nonce) draw = guard (length nonce == n) e >> ok nonce

module _ (c : CipherSuite) where
  -- aes_key_wrap
  unfoldable pub aes_key_wrap : Bytes → Bytes → Result WebtokenError Bytes
  aes_key_wrap kek bytes = do
    guard (is_128_or_256 (length kek)) (invalid_token (lit "AES-KW requires 128 or 256 bit key"))
    ok_or (c.kw_wrap kek bytes) (generic (lit "AES-KW Wrap failed"))

  -- aes_key_unwrap
  unfoldable pub aes_key_unwrap : Bytes → Bytes → Result WebtokenError Bytes
  aes_key_unwrap kek wrapped = do
    guard (is_128_or_256 (length kek)) (invalid_token (lit "AES-KW requires 128 or 256 bit key"))
    guard (leb 8 (length wrapped)) (invalid_token (lit "Wrapped key too short"))
    ok_or (c.kw_unwrap kek wrapped) (generic (lit "AES-KW Unwrap failed"))

  -- aes_cbc_encrypt
  unfoldable pub aes_cbc_encrypt : Bytes → Bytes → Bytes → Result WebtokenError Bytes
  aes_cbc_encrypt key iv plaintext = do
    guard (is_aes_size (length key)) (invalid_token (lit "Invalid AES Key Length"))
    guard (length iv == 16) (invalid_token (lit "IV must be 16 bytes"))
    ok_or (c.cbc_encrypt key iv plaintext) (generic (lit "AES CBC Encrypt failed"))

  -- aes_cbc_decrypt
  unfoldable pub aes_cbc_decrypt : Bytes → Bytes → Bytes → Result WebtokenError Bytes
  aes_cbc_decrypt key iv ciphertext = do
    guard (is_aes_size (length key)) (invalid_token (lit "Invalid AES Key Length"))
    guard (length iv == 16) (invalid_token (lit "IV must be 16 bytes"))
    ok_or (c.cbc_decrypt key iv ciphertext) (invalid_token (lit "AES CBC Decrypt failed"))

  -- hmac_sign
  unfoldable pub hmac_sign : Bytes → Bytes → Text → Result WebtokenError Bytes
  hmac_sign key bytes alg =
      if is alg "HS256"
      then ok (c.hmac sha256 key bytes)
      else if is alg "HS384"
      then ok (c.hmac sha384 key bytes)
      else if is alg "HS512"
      then ok (c.hmac sha512 key bytes)
      else err (generic (lit "Unsupported HMAC"))

  -- aes_gcm_encrypt: ciphertext, tag, nonce.
  unfoldable pub aes_gcm_encrypt :
      (ℕ → Result WebtokenError Bytes)
      → Bytes
      → Option Bytes
      → Bytes
      → Bytes
      → Result WebtokenError (Bytes × Bytes × Bytes)
  aes_gcm_encrypt draw key nonce_opt plaintext aad = do
    guard (is_128_or_256 (length key)) (invalid_token (lit "AES-GCM Key must be 16 or 32 bytes"))
    nonce ← nonce_or_draw 12 (invalid_token (lit "AES-GCM Nonce must be 12 bytes")) nonce_opt draw
    (ciphertext, tag) ←
        ok_or (c.gcm_seal key nonce aad plaintext) (generic (lit "AES-GCM Encrypt Failed"))
    ok (ciphertext, tag, nonce)

  -- aes_gcm_decrypt; a nonce has 12 bytes.
  unfoldable pub aes_gcm_decrypt :
      Bytes → Bytes → Bytes → Bytes → Bytes → Result WebtokenError Bytes
  aes_gcm_decrypt key nonce ciphertext tag aad = do
    guard (is_128_or_256 (length key)) (invalid_token (lit "AES-GCM Key must be 16 or 32 bytes"))
    guard (length nonce == 12) (invalid_token (lit "Invalid Nonce"))
    ok_or (c.gcm_open key nonce aad (ciphertext ++ tag))
        (invalid_token (lit "AES-GCM Decrypt Failed"))

  -- c20p_encrypt
  unfoldable pub c20p_encrypt :
      (ℕ → Result WebtokenError Bytes)
      → Bytes
      → Option Bytes
      → Bytes
      → Bytes
      → Result WebtokenError (Bytes × Bytes × Bytes)
  c20p_encrypt draw key nonce_opt plaintext aad = do
    guard (length key == 32) (invalid_key (lit "C20P requires a 32-byte key"))
    nonce ← nonce_or_draw 12 (invalid_token (lit "C20P Nonce must be 12 bytes")) nonce_opt draw
    let (ciphertext, tag) = c.c20p_seal key nonce aad plaintext
    ok (ciphertext, tag, nonce)

  -- c20p_decrypt
  unfoldable pub c20p_decrypt : Bytes → Bytes → Bytes → Bytes → Bytes → Result WebtokenError Bytes
  c20p_decrypt key nonce ciphertext tag aad = do
    guard (length key == 32) (invalid_key (lit "C20P requires a 32-byte key"))
    guard (length nonce == 12) (generic (lit "C20P Nonce must be 12 bytes"))
    guard (length tag == 16) (generic (lit "C20P Tag must be 16 bytes"))
    ok_or (c.c20p_open key nonce aad ciphertext tag) invalid_signature

  -- encrypt_xchacha20
  unfoldable pub encrypt_xchacha20 :
      (ℕ → Result WebtokenError Bytes)
      → Bytes
      → Bytes
      → Bytes
      → Option Bytes
      → Result WebtokenError (Bytes × Bytes × Bytes)
  encrypt_xchacha20 draw key plaintext aad nonce_opt = do
    guard (length key == 32) (invalid_key (lit "XChaCha20 requires a 32-byte key"))
    nonce ← nonce_or_draw 24 (invalid_token (lit "XChaCha20 Nonce must be 24 bytes")) nonce_opt draw
    let (ciphertext, tag) = c.xc20p_seal key nonce aad plaintext
    ok (ciphertext, tag, nonce)

  -- decrypt_xchacha20
  unfoldable pub decrypt_xchacha20 :
      Bytes → Bytes → Bytes → Bytes → Bytes → Result WebtokenError Bytes
  decrypt_xchacha20 key ciphertext aad nonce tag = do
    guard (length key == 32) (invalid_key (lit "Invalid key"))
    guard (length nonce == 24) (generic (lit "Invalid nonce"))
    guard (length tag == 16) (generic (lit "Invalid tag"))
    ok_or (c.xc20p_open key nonce aad ciphertext tag) invalid_signature

  -- The hash of an RSA-OAEP name.
  unfoldable pub oaep_hash : Text → Result WebtokenError Hash
  oaep_hash alg =
      if is alg "RSA-OAEP" || is alg "RSA-OAEP-256"
      then ok sha256
      else if is alg "RSA-OAEP-384"
      then ok sha384
      else if is alg "RSA-OAEP-512"
      then ok sha512
      else err (invalid_algorithm (lit "Unsupported RSA-OAEP alg"))

  -- A private key in PKCS#8, or in PKCS#1, which is wrapped.
  abbrev or_wrapped : Option c.RsaPrivate → Bytes → Option c.RsaPrivate
  or_wrapped (some key) der = some key
  or_wrapped none der = c.rsa_private_from_pkcs8 (wrap_pkcs1_as_pkcs8 der)

  -- rsa_encrypt_oaep
  unfoldable pub rsa_encrypt_oaep : Base64 → Bytes → Bytes → Text → Result WebtokenError Bytes
  rsa_encrypt_oaep b64 key_pem plaintext alg = do
    hash ← oaep_hash alg
    key ←
        ok_or (c.rsa_public_from_der (decode_key_bytes b64 key_pem))
          (invalid_token (lit "Invalid RSA Public Key"))
    guard (c.oaep_takes_public key) (generic (lit "Failed to create OAEP key"))
    ok_or (c.oaep_encrypt hash key plaintext) (generic (lit "RSA Encrypt failed"))

  -- rsa_decrypt_oaep
  unfoldable pub rsa_decrypt_oaep : Base64 → Bytes → Bytes → Text → Result WebtokenError Bytes
  rsa_decrypt_oaep b64 key_pem ciphertext alg = do
    hash ← oaep_hash alg
    let der = decode_key_bytes b64 key_pem
    key ←
        ok_or (or_wrapped (c.rsa_private_from_pkcs8 der) der)
          (invalid_token (lit "Invalid RSA Private Key"))
    guard (c.oaep_takes_private key) (generic (lit "Failed to create OAEP key"))
    ok_or (c.oaep_decrypt hash key ciphertext) (invalid_token (lit "RSA Decrypt failed"))

  -- rsa_encrypt_pkcs1
  unfoldable pub rsa_encrypt_pkcs1 : Base64 → Bytes → Bytes → Result WebtokenError Bytes
  rsa_encrypt_pkcs1 b64 key_pem plaintext = do
    key ←
        ok_or (c.rsa_public_from_der (decode_key_bytes b64 key_pem))
          (invalid_token (lit "Invalid RSA Public Key"))
    guard (c.pkcs1_takes_public key) (generic (lit "Failed to create PKCS1 key"))
    ok_or (c.pkcs1_encrypt key plaintext) (generic (lit "RSA PKCS1 Encrypt failed"))

  -- rsa_decrypt_pkcs1
  unfoldable pub rsa_decrypt_pkcs1 : Base64 → Bytes → Bytes → Result WebtokenError Bytes
  rsa_decrypt_pkcs1 b64 key_pem ciphertext = do
    let der = decode_key_bytes b64 key_pem
    key ←
        ok_or (or_wrapped (c.rsa_private_from_pkcs8 der) der)
          (invalid_token (lit "Invalid RSA Private Key"))
    guard (c.pkcs1_takes_private key) (generic (lit "Failed to create PKCS1 key"))
    ok_or (c.pkcs1_decrypt key ciphertext) (invalid_token (lit "RSA PKCS1 Decrypt failed"))
