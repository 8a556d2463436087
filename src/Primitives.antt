-- ===== src/Primitives.antt =====
-- The cryptographic primitives that src/paseto.rs and src/crypto.rs call, as a record of functions:
-- `blake2b_simd`, `chacha20`, `argon2` and the X25519 of `graviola`.
use webtoken.Common.{ℕ, ◌≡◌, Bool, Option, Bytes, Text, AreBytes, Result, length}

pub record Primitives : Type 0 where
  -- hash length, message; hash length, key, message
  pub blake2b_hash : ℕ → Bytes → Bytes
  pub blake2b_keyed_hash : ℕ → Bytes → Bytes → Bytes
  -- key, nonce, bytes: the keystream is added to the bytes
  pub xchacha20 : Bytes → Bytes → Bytes → Bytes
  -- memory in KiB, passes, lanes: `Params::new` accepts them; then the hash of password and salt
  pub argon2_params : ℕ → ℕ → ℕ → Bool
  pub argon2id : ℕ → ℕ → ℕ → Bytes → Bytes → Result Text Bytes
  -- private key to public key; private key and public key of the other side to the shared secret
  pub x25519_public : Bytes → Bytes
  pub x25519_shared : Bytes → Bytes → Option Bytes
  pub ed25519_public : Bytes → Result Text Bytes

-- A hash has the length asked for and consists of bytes; the keystream of one key and nonce applied
-- twice gives the bytes back and keeps their length.
pub record PrimitivesLaws (p : Primitives) : Type 0 where
  pub length-blake2b_hash : (n : ℕ) (message : Bytes) → length (p.blake2b_hash n message) ≡ n
  pub blake2b_hash-AreBytes : (n : ℕ) (message : Bytes) → AreBytes (p.blake2b_hash n message)
  pub length-blake2b_keyed_hash :
      (n : ℕ) (key message : Bytes) → length (p.blake2b_keyed_hash n key message) ≡ n
  pub blake2b_keyed_hash-AreBytes :
      (n : ℕ) (key message : Bytes) → AreBytes (p.blake2b_keyed_hash n key message)
  pub xchacha20_involutive :
      (key nonce bytes : Bytes) → p.xchacha20 key nonce (p.xchacha20 key nonce bytes) ≡ bytes
  pub length-xchacha20 :
      (key nonce bytes : Bytes) → length (p.xchacha20 key nonce bytes) ≡ length bytes
  pub xchacha20-AreBytes :
      (key nonce bytes : Bytes) → AreBytes bytes → AreBytes (p.xchacha20 key nonce bytes)
