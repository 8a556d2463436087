-- ===== src/Paseto.antt =====
-- src/paseto.rs and the PASETO part of src/crypto.rs: pre-authentication encoding and the v4.local
-- body. What the random number generator returns is an argument, `draw`.
pub mod Local
pub mod Pae
pub mod Parts
pub mod Paserk
pub mod Public
pub mod KeyTexts
pub mod Wrapping
use webtoken.Common.{
  ℕ, zero, suc, ◌+◌, ◌-◌, ◌*◌, ◌/◌, ◌%◌, ◌^◌, ◌≤◌, ◌<◌, bit_and, ◌≡◌, refl, sym, ap, ◌∙◌, ◌≢◌, ◌↔◌,
  ◌⊎◌, inl, inr, Bool, true, false, not, ◌&&◌, ◌||◌, List, [], ◌∷◌, ◌++◌, append-nil, append_assoc,
  Option, none, some, Bytes, Text, bit_and_low, IsByte, AreBytes, Result, ok, err, panic, ◌>>=◌,
  ◌>>◌, guard, ok_or, map_err, >>=-eq-ok, guard-eq-ok, ltb, leb, ◌==◌, if◌then◌else◌, ==_iff,
  ltb-false, ltb-true, Bool-cases, Option-cases, and_true, length, take, drop, All, length-append,
  take-append-drop, length-take, length-drop, take-length_append, drop-length_append, All-append,
  append_inj, lit, eqb, is, starts_with, eqb_refl, eqb→eq, eqb_iff, is→eq, is_lit,
  starts_with-append, to_be_bytes, to_le_bytes, from_be_bytes, length-to_le_bytes,
  length-to_be_bytes, to_le_bytes_inj, NoDot, ◌⊙◌, split_dots, split_dots-join, split_dots-NoDot,
  arith,
}
use webtoken.Errors.{WebtokenError, invalid_token, invalid_signature}
use webtoken.Primitives.{Primitives}

-- pae
unfoldable pub pae_pieces : List Bytes → Bytes
pae_pieces [] = []
pae_pieces (p ∷ ps) = to_le_bytes 8 (length p) ++ (p ++ pae_pieces ps)

unfoldable pub pae : List Bytes → Bytes
pae pieces = to_le_bytes 8 (length pieces) ++ pae_pieces pieces

-- The bytes of a slice from `i` up to `j`, where the code has checked the length.
abbrev pub slice : ℕ → ℕ → Bytes → Bytes
slice i j bytes = take (j - i) (drop i bytes)

-- The nonce of paseto_v4_encrypt.
unfoldable pub nonce_of : Option Bytes → Result WebtokenError Bytes → Result WebtokenError Bytes
nonce_of none draw = draw
nonce_of (some n) draw =
    guard (length n == 32) (invalid_token (lit "nonce must be 32 bytes long.")) >> ok n

module _ (p : Primitives) where
  -- Steps 1 and 2: the keys for a key and a nonce.
  unfoldable pub encryption_key : Bytes → Bytes → Bytes
  encryption_key key nonce = p.blake2b_keyed_hash 56 key (lit "paseto-encryption-key" ++ nonce)

  unfoldable pub auth_key : Bytes → Bytes → Bytes
  auth_key key nonce = p.blake2b_keyed_hash 32 key (lit "paseto-auth-key-for-aead" ++ nonce)

  -- Step 3: the stream cipher under the first 32 and the next 24 bytes of the derived key.
  unfoldable pub apply_keystream : Bytes → Bytes → Bytes
  apply_keystream derived bytes = p.xchacha20 (take 32 derived) (slice 32 56 derived) bytes

  -- Step 4: the tag.
  unfoldable pub local_tag : Bytes → Bytes → Bytes → Bytes → Bytes → Bytes
  local_tag key nonce ciphertext footer implicit =
      p.blake2b_keyed_hash 32 (auth_key key nonce)
        (pae (lit "v4.local." ∷ nonce ∷ ciphertext ∷ footer ∷ implicit ∷ []))

  -- paseto_v4_encrypt
  unfoldable pub paseto_v4_encrypt :
      Bytes
      → Bytes
      → Bytes
      → Bytes
      → Option Bytes
      → Result WebtokenError Bytes
      → Result WebtokenError Bytes
  paseto_v4_encrypt key payload footer implicit nonce_opt draw = do
    nonce ← nonce_of nonce_opt draw
    let ciphertext = apply_keystream (encryption_key key nonce) payload
    ok (nonce ++ (ciphertext ++ local_tag key nonce ciphertext footer implicit))

  -- paseto_v4_decrypt
  unfoldable pub paseto_v4_decrypt : Bytes → Bytes → Bytes → Bytes → Result WebtokenError Bytes
  paseto_v4_decrypt key body footer implicit = do
    guard (leb 64 (length body)) (invalid_token (lit "Token too short"))
    let nonce = take 32 body
    let ciphertext = slice 32 (length body - 32) body
    let tag = drop (length body - 32) body
    guard (eqb (local_tag key nonce ciphertext footer implicit) tag) invalid_signature
    ok (apply_keystream (encryption_key key nonce) ciphertext)
