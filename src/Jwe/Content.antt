-- ===== src/Jwe/Content.antt =====
-- src/jwe.rs: content encryption, with the composite of AES-CBC and HMAC.
pub mod Authentic
pub mod Output
pub mod RoundTrip
use webtoken.Common.{
  ℕ, zero, suc, ◌+◌, ◌-◌, ◌*◌, ◌/◌, ◌%◌, ◌^◌, ◌≤◌, ◌<◌, bit_and, ◌≡◌, refl, sym, ap, ◌∙◌, ◌≢◌, ◌↔◌,
  ◌⊎◌, inl, inr, Bool, true, false, not, ◌&&◌, ◌||◌, List, [], ◌∷◌, ◌++◌, append-nil, append_assoc,
  Option, none, some, Bytes, Text, bit_and_low, IsByte, AreBytes, Result, ok, err, panic, ◌>>=◌,
  ◌>>◌, guard, ok_or, map_err, >>=-eq-ok, guard-eq-ok, ltb, leb, ◌==◌, if◌then◌else◌, ==_iff,
  ltb-false, ltb-true, Bool-cases, Option-cases, and_true, length, take, drop, All, length-append,
  take-append-drop, length-take, length-drop, take-length_append, drop-length_append, drop-drop,
  drop-past, All-append, append_inj, lit, eqb, is, starts_with, eqb_refl, eqb→eq, eqb_iff, is→eq,
  is_lit, starts_with-append, to_be_bytes, to_le_bytes, from_be_bytes, length-to_le_bytes,
  length-to_be_bytes, to_le_bytes_inj, NoDot, ◌⊙◌, split_dots, split_dots-join, split_dots-NoDot,
  arith,
}
use webtoken.Errors.{
  WebtokenError, generic, invalid_signature, unsupported_algorithm, unsupported_encryption,
}
use webtoken.Jwe.Ciphers.{
  CipherSuite, aes_cbc_encrypt, aes_cbc_decrypt, hmac_sign, aes_gcm_encrypt, aes_gcm_decrypt,
  c20p_encrypt, c20p_decrypt, encrypt_xchacha20, decrypt_xchacha20,
}

unfoldable pub is_gcm : Text → Bool
is_gcm enc = is enc "A128GCM" || (is enc "A192GCM" || is enc "A256GCM")

unfoldable pub is_cbc_hmac : Text → Bool
is_cbc_hmac enc = is enc "A128CBC-HS256" || (is enc "A192CBC-HS384" || is enc "A256CBC-HS512")

-- The HMAC of a composite.
unfoldable pub hmac_alg : Text → Result WebtokenError Text
hmac_alg enc =
    if is enc "A128CBC-HS256"
    then ok (lit "HS256")
    else if is enc "A192CBC-HS384"
    then ok (lit "HS384")
    else if is enc "A256CBC-HS512"
    then ok (lit "HS512")
    else err (generic (lit "Bad composite"))

-- `AAD || IV || Ciphertext || AL`, with the length of the AAD in bits in 64 bits.
unfoldable pub mac_input : Bytes → Bytes → Bytes → Bytes
mac_input aad nonce ciphertext =
    aad ++ (nonce ++ (ciphertext ++ to_be_bytes 8 (length aad * 8 % 2 ^ 64)))

-- The first half of the HMAC.
abbrev pub first_half : Bytes → Bytes
first_half full_tag = take (length full_tag / 2) full_tag

module _ (c : CipherSuite) where
  unfoldable pub composite_tag : Text → Bytes → Bytes → Bytes → Bytes → Result WebtokenError Bytes
  composite_tag enc cek aad nonce ciphertext = do
    alg ← hmac_alg enc
    full_tag ← hmac_sign c (take (length cek / 2) cek) (mac_input aad nonce ciphertext) alg
    ok (first_half full_tag)

  -- The arm of encrypt_content for the composites: ciphertext, tag, nonce.
  unfoldable pub encrypt_cbc_hmac :
      (ℕ → Result WebtokenError Bytes)
      → Text
      → Bytes
      → Bytes
      → Bytes
      → Result WebtokenError (Bytes × Bytes × Bytes)
  encrypt_cbc_hmac draw enc cek payload aad = do
    nonce ← draw 16
    ciphertext ← aes_cbc_encrypt c (drop (length cek / 2) cek) nonce payload
    tag ← composite_tag enc cek aad nonce ciphertext
    ok (ciphertext, tag, nonce)

  -- The arm of decrypt_content for the composites.
  unfoldable pub decrypt_cbc_hmac :
      Text → Bytes → Bytes → Bytes → Bytes → Bytes → Result WebtokenError Bytes
  decrypt_cbc_hmac enc cek ciphertext aad nonce tag = do
    expected_tag ← composite_tag enc cek aad nonce ciphertext
    guard (eqb tag expected_tag) invalid_signature
    aes_cbc_decrypt c (drop (length cek / 2) cek) nonce ciphertext

  -- encrypt_content
  unfoldable pub encrypt_content :
      (ℕ → Result WebtokenError Bytes)
      → Text
      → Bytes
      → Bytes
      → Bytes
      → Result WebtokenError (Bytes × Bytes × Bytes)
  encrypt_content draw enc cek payload aad =
      if is_gcm enc
      then aes_gcm_encrypt c draw cek none payload aad
      else if is enc "XC20P"
      then encrypt_xchacha20 c draw cek payload aad none
      else if is enc "C20P"
      then c20p_encrypt c draw cek none payload aad
      else if is_cbc_hmac enc
      then encrypt_cbc_hmac draw enc cek payload aad
      else err (unsupported_algorithm (lit "Unknown enc: " ++ enc))

  -- decrypt_content
  unfoldable pub decrypt_content :
      Text → Bytes → Bytes → Bytes → Bytes → Bytes → Result WebtokenError Bytes
  decrypt_content enc cek ciphertext aad nonce tag =
      if is_gcm enc
      then aes_gcm_decrypt c cek nonce ciphertext tag aad
      else if is enc "XC20P"
      then decrypt_xchacha20 c cek ciphertext aad nonce tag
      else if is enc "C20P"
      then c20p_decrypt c cek nonce ciphertext tag aad
      else if is_cbc_hmac enc
      then decrypt_cbc_hmac enc cek ciphertext aad nonce tag
      else err (unsupported_algorithm (lit "Unknown enc: " ++ enc))

-- get_cek_length
unfoldable pub get_cek_length : Text → Result WebtokenError ℕ
get_cek_length enc =
    if is enc "A128GCM"
    then ok 16
    else if is enc "A192GCM"
    then ok 24
    else if is enc "A256GCM" || (is enc "XC20P" || is enc "C20P")
    then ok 32
    else if is enc "A128CBC-HS256"
    then ok 32
    else if is enc "A192CBC-HS384"
    then ok 48
    else if is enc "A256CBC-HS512"
    then ok 64
    else err (unsupported_encryption (lit "Unknown enc: " ++ enc))
