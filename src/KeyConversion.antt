-- ===== src/KeyConversion.antt =====
-- src/key_utils.rs: the DER of public and private keys read into JSON Web Keys. A reader that a function
-- owns is the input that is left, passed on by `try`.
pub mod Ec
pub mod Layers
pub mod Pem
pub mod RsaRoundTrip
pub mod EcRoundTrip
use webtoken.Common.{
  ℕ, zero, suc, ◌+◌, ◌-◌, ◌*◌, ◌/◌, ◌%◌, ◌^◌, ◌≤◌, ◌<◌, bit_and, ◌≡◌, refl, sym, ap, ◌∙◌, ◌≢◌, ◌↔◌,
  ◌⊎◌, inl, inr, Bool, true, false, not, ◌&&◌, ◌||◌, List, [], ◌∷◌, ◌++◌, append-nil, append_assoc,
  Option, none, some, Bytes, Text, bit_and_low, IsByte, AreBytes, Result, ok, err, panic, ◌>>=◌,
  ◌>>◌, guard, ok_or, map_err, >>=-eq-ok, guard-eq-ok, ltb, leb, ◌==◌, if◌then◌else◌, ==_iff,
  ltb-false, ltb-true, Bool-cases, Option-cases, and_true, length, take, drop, All, length-append,
  take-append-drop, length-take, length-drop, take-length_append, drop-length_append, drop-drop,
  drop-past, All-append, append_inj, lit, eqb, is, starts_with, eqb_refl, eqb→eq, eqb_iff, is→eq,
  is_lit, starts_with-append, to_be_bytes, to_le_bytes, from_be_bytes, length-to_le_bytes,
  length-to_be_bytes, to_le_bytes_inj, NoDot, ◌⊙◌, split_dots, split_dots-join, split_dots-NoDot,
  arith,
}
use webtoken.External.{Base64}
use webtoken.Primitives.{Primitives}
use webtoken.KeyBytes.{ed25519_public_from_seed}
use webtoken.Json.{Value, Fields, string, object, end, field}
use webtoken.Der.{
  try, read_sequence, read_integer_bytes, read_oid, read_octet_string, read_bit_string,
}
use webtoken.Der.Oids.{oid_rsa_encryption}

-- `!reader.input.is_empty() && reader.input[0] == 0x30`
abbrev pub at_sequence : Bytes → Bool
at_sequence input = starts_with (0x30 ∷ []) input

-- The inner key of PKCS#8, behind the version.
unfoldable pub rsa_from_pkcs8 : Bytes → Result Text Bytes
rsa_from_pkcs8 reader = do
  (algo, reader) ← map_err (λ e. lit "Failed to read AlgoId: " ++ e) (try read_sequence reader)
  (oid, _) ← map_err (λ e. lit "Failed to read OID: " ++ e) (try read_oid algo)
  guard (eqb oid oid_rsa_encryption) (lit "Not an RSA key in PKCS8")
  (inner_bytes, _) ←
      map_err (λ e. lit "Failed to read PrivateKey octets: " ++ e) (try read_octet_string reader)
  ok inner_bytes

abbrev pub named : Text → Bytes → Result Text (Bytes × Bytes)
named name reader =
    map_err (λ e. lit "Failed to read " ++ (name ++ (lit ": " ++ e)))
      (try read_integer_bytes reader)

-- `b64`, as a JSON text.
abbrev pub encoded : Base64 → Bytes → Value
encoded b64 bytes = string (b64.url_encode bytes)

-- The reader of parse_rsa_public behind SubjectPublicKeyInfo, when there is one.
unfoldable pub pkcs1_reader : Bytes → Result Text Bytes
pkcs1_reader reader =
    if at_sequence reader
    then (do
      (_, reader) ← try read_sequence reader
      (pub_key_bits, _) ← try read_bit_string reader
      (read_sequence pub_key_bits).0)
    else ok reader

abbrev okp_curve : Text → Bytes → Result Text Text
okp_curve message oid =
    if eqb oid (0x2b ∷ 0x65 ∷ 0x70 ∷ [])
    then ok (lit "Ed25519")
    else if eqb oid (0x2b ∷ 0x65 ∷ 0x71 ∷ [])
    then ok (lit "Ed448")
    else err message

module _ (b64 : Base64) where
  abbrev pub rsa_private_object :
      Bytes → Bytes → Bytes → Bytes → Bytes → Bytes → Bytes → Bytes → Value
  rsa_private_object n e d p q dp dq qi = object (
      field (lit "kty") (string (lit "RSA")) (
        field (lit "n") (encoded b64 n) (
          field (lit "e") (encoded b64 e) (
            field (lit "d") (encoded b64 d) (
              field (lit "p") (encoded b64 p) (
                field (lit "q") (encoded b64 q) (
                  field (lit "dp") (encoded b64 dp) (
                    field (lit "dq") (encoded b64 dq)
                      (field (lit "qi") (encoded b64 qi) end)))))))))

  -- The numbers of PKCS#1, behind the version.
  unfoldable pub rsa_private_jwk : Bytes → Result Text Value
  rsa_private_jwk reader = do
    (n, reader) ← named (lit "n") reader
    (e, reader) ← named (lit "e") reader
    (d, reader) ← named (lit "d") reader
    (p, reader) ← named (lit "p") reader
    (q, reader) ← named (lit "q") reader
    (dp, reader) ← named (lit "dp") reader
    (dq, reader) ← named (lit "dq") reader
    (qi, _) ← named (lit "qi") reader
    ok (rsa_private_object n e d p q dp dq qi)

  -- parse_rsa_private, with fuel for the layers of PKCS#8; each takes bytes of the input.
  unfoldable pub parse_rsa_layers : ℕ → Bytes → Result Text Value
  parse_rsa_layers zero der = panic
  parse_rsa_layers (suc fuel) der = do
    reader ← map_err (λ _. lit "Not a sequence") (read_sequence der).0
    (_, reader) ← named (lit "Version") reader
    if at_sequence reader
        then rsa_from_pkcs8 reader >>= parse_rsa_layers fuel
        else rsa_private_jwk reader

  unfoldable pub parse_rsa_private : Bytes → Result Text Value
  parse_rsa_private der = parse_rsa_layers (suc (length der)) der

  abbrev pub rsa_public_object : Bytes → Bytes → Value
  rsa_public_object n e = object (
      field (lit "kty") (string (lit "RSA"))
        (field (lit "n") (encoded b64 n) (field (lit "e") (encoded b64 e) end)))

  -- parse_rsa_public
  unfoldable pub parse_rsa_public : Bytes → Result Text Value
  parse_rsa_public der = do
    reader ← (read_sequence der).0
    reader ← pkcs1_reader reader
    (n, reader) ← try read_integer_bytes reader
    (e, _) ← try read_integer_bytes reader
    ok (rsa_public_object n e)

  -- parse_okp_public
  unfoldable pub parse_okp_public : Bytes → Result Text Value
  parse_okp_public der = do
    reader ← (read_sequence der).0
    (algo, reader) ← try read_sequence reader
    (oid, _) ← try read_oid algo
    crv ← okp_curve (lit "Not an EdDSA key") oid
    (bits, _) ← try read_bit_string reader
    ok (
        object (
          field (lit "kty") (string (lit "OKP"))
            (field (lit "crv") (string crv) (field (lit "x") (encoded b64 bits) end))))

  abbrev with_x : {E : Type 0} → Result E Bytes → Fields
  with_x (ok x) = field (lit "x") (encoded b64 x) end
  with_x _ = end

  -- parse_okp_private
  unfoldable pub parse_okp_private : Primitives → Bytes → Result Text Value
  parse_okp_private prims der = do
    reader ← (read_sequence der).0
    (_, reader) ← try read_integer_bytes reader
    (algo, reader) ← try read_sequence reader
    (oid, _) ← try read_oid algo
    crv ← okp_curve (lit "Not OKP") oid
    (outer, _) ← try read_octet_string reader
    (d, _) ← try read_octet_string outer
    let x = if is crv "Ed25519" then with_x (ed25519_public_from_seed prims d) else end
    ok (
        object (
          field (lit "kty") (string (lit "OKP"))
            (field (lit "crv") (string crv) (field (lit "d") (encoded b64 d) x))))
