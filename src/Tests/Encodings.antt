-- ===== src/Tests/Encodings.antt =====
-- Runs of the DER builders and readers of src/crypto_parsing.rs, of its key readers, and of the HMAC
-- algorithms of src/crypto.rs.
use webtoken.Common.{
  ◌+◌, ◌%◌, ◌^◌, ◌<◌, ◌≡◌, refl, ◌↔◌, false, [], ◌∷◌, ◌++◌, none, Bytes, AreBytes, ok, length, take,
  drop, lit, starts_with, arith,
}
use webtoken.External.{IsKeyPair}
use webtoken.KeyBytes.{decode_key_bytes, unwrap_curve_key, extract_x25519_bytes}
use webtoken.Unicode.{is_utf8, trim, trim_start}
use webtoken.Der.{
  encode_der_int, encode_der_sequence, read_tag, read_sequence, read_integer_bytes, strip_zeros,
  long_length, read_content,
}
use webtoken.Der.Tlv.{tlv, read_tag-tlv, read_sequence_oversize}
use webtoken.Der.Integers.{read_integer_bytes-encode_der_int}
use webtoken.Der.Progress.{read_tag_shrinks}
use webtoken.Signing.{Schemes, Hash, sha256, sign, verify, signer}
use webtoken.Signing.Hmac.{hmac_name, verify-iff-sign, hmac-IsKeyPair}
use webtoken.Tests.Instances.{base, fill, length-fill, fill-AreBytes}

read_tag-tlv_example : read_tag (tlv 0x04 (fill 300 7) ++ 1 ∷ []) ≡ (ok (0x04, fill 300 7), 1 ∷ [])
read_tag-tlv_example = read_tag-tlv 0x04 (fill 300 7) (1 ∷ []) (omega (arith, length-fill 300 7))

abbrev oversize : Bytes
oversize = fill (2 ^ 16) 7

read_sequence_oversize_example :
    read_sequence (encode_der_sequence oversize)
    ≡ (ok (take (length oversize % 2 ^ 16) oversize), drop (length oversize % 2 ^ 16) oversize)
read_sequence_oversize_example =
    read_sequence_oversize oversize (rw (length-fill (2 ^ 16) 7) (omega arith))

read_integer_bytes-encode_der_int_example :
    (out : Bytes) × (encode_der_int (0 ∷ 200 ∷ 1 ∷ []) ≡ ok out)
    × (read_integer_bytes (out ++ 9 ∷ []) ≡ (ok (strip_zeros (0 ∷ 200 ∷ 1 ∷ [])), 9 ∷ []))
read_integer_bytes-encode_der_int_example =
    read_integer_bytes-encode_der_int (0 ∷ 200 ∷ 1 ∷ []) (9 ∷ []) (omega arith) (omega arith)

abbrev long_form : Bytes
long_form = 0x04 ∷ 0x81 ∷ 2 ∷ 8 ∷ 9 ∷ 7 ∷ []

long_form_read : read_tag long_form ≡ (ok (0x04, 8 ∷ 9 ∷ []), 7 ∷ [])
unfolding read_tag read_content long_length
long_form_read = refl

read_tag_shrinks_example : length (read_tag long_form).1 < length long_form
read_tag_shrinks_example = read_tag_shrinks 0x04 (0x81 ∷ 2 ∷ 8 ∷ 9 ∷ 7 ∷ [])

-- A public key in its wrapper of 44 bytes.
abbrev wrapped_key : Bytes
wrapped_key =
    0x30 ∷ 0x2A ∷ 0x30 ∷ 0x05 ∷ 0x06 ∷ 0x03 ∷ 0x2B ∷ 0x65 ∷ 0x6E ∷ 0x03 ∷ 0x21 ∷ 0x00 ∷ fill 32 0x80

wrapped_key_read : extract_x25519_bytes base (λ n. []) wrapped_key ≡ ok (fill 32 0x80)
unfolding extract_x25519_bytes unwrap_curve_key decode_key_bytes is_utf8 trim starts_with lit base
    trim_start
wrapped_key_read = refl

abbrev schemes : Schemes
schemes = record {
  Rsa = Unit {0};
  Ec = Unit {0};
  Ed = Unit {0};
  EdPublic = Unit {0};
  hmac = λ h k m. fill 32 ((length k + length m) % 256);
  rsa_from_pkcs8 = λ d. none;
  rsa_from_der = λ d. none;
  rsa_sign = λ p h k m. none;
  rsa_verify = λ p h k m s. false;
  ec_from_pkcs8 = λ c d. none;
  ec_sign = λ c k m. none;
  ec_verify = λ c k m s. false;
  ed_from_bytes = λ d. none;
  ed_from_pkcs8_der = λ d. none;
  ed_sign = λ k m. [];
  ed_public_from_bytes = λ d. none;
  ed_public_from_spki_der = λ d. none;
  ed_verify = λ k s m. false;
}

verify-iff-sign_example :
    ((made_by : Bytes) × (sign schemes base (hmac_name sha256) (1 ∷ []) (2 ∷ 3 ∷ []) ≡ ok made_by))
    × ((verify schemes base (hmac_name sha256) (1 ∷ []) (2 ∷ 3 ∷ []) (fill 32 3) ≡ ok tt)
        ↔ (sign schemes base (hmac_name sha256) (1 ∷ []) (2 ∷ 3 ∷ []) ≡ ok (fill 32 3)))
verify-iff-sign_example = verify-iff-sign schemes base sha256 (1 ∷ []) (2 ∷ 3 ∷ []) (fill 32 3)

schemes_AreBytes : (hash : Hash) (k message : Bytes) → AreBytes (schemes.hmac hash k message)
schemes_AreBytes hash k message = fill-AreBytes 32 _ (omega arith)

hmac-IsKeyPair_example : IsKeyPair (signer schemes base) (hmac_name sha256) (1 ∷ []) (1 ∷ [])
hmac-IsKeyPair_example = hmac-IsKeyPair schemes base sha256 (1 ∷ []) schemes_AreBytes
