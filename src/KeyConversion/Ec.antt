-- ===== src/KeyConversion/Ec.antt =====
-- parse_ec_public and parse_ec_private of src/key_utils.rs.
use webtoken.Common.{
  ℕ, ◌+◌, ◌-◌, ◌*◌, ◌/◌, Bool, ◌&&◌, [], ◌∷◌, Option, none, some, Bytes, Text, Result, ok, ◌>>=◌,
  ◌>>◌, guard, ok_or, leb, if◌then◌else◌, length, take, drop, lit, eqb, starts_with,
}
use webtoken.External.{Base64}
use webtoken.Json.{Value, Fields, string, object, end, field}
use webtoken.Der.{
  try, read_sequence, read_integer_bytes, read_oid, read_octet_string, read_bit_string,
  read_optional_explicit,
}
use webtoken.Der.Oids.{oid_to_curve_info, oid_ec_public_key}
use webtoken.KeyConversion.{at_sequence, encoded}

abbrev is_uncompressed : Bytes → Bool
is_uncompressed bits = starts_with (0x04 ∷ []) bits

-- parse_ec_public
unfoldable pub parse_ec_public : Base64 → Bytes → Result Text Value
parse_ec_public b64 der = do
  reader ← (read_sequence der).0
  (algo, reader) ← try read_sequence reader
  (_, algo) ← try read_oid algo
  (oid, _) ← try read_oid algo
  (crv, len) ← ok_or (oid_to_curve_info oid) (lit "Unknown Curve OID")
  (bits, _) ← try read_bit_string reader
  guard (leb (1 + 2 * len) (length bits) && is_uncompressed bits) (lit "Invalid EC point")
  ok (
      object (
        field (lit "kty") (string (lit "EC")) (
          field (lit "crv") (string crv) (
            field (lit "x") (encoded b64 (take len (drop 1 bits)))
              (field (lit "y") (encoded b64 (take len (drop (1 + len) bits))) end)))))

abbrev pub name_of : Option (Text × ℕ) → Option Text
name_of none = none
name_of (some (name, _)) = some name

abbrev pub named_curve : Result Text Bytes → Option Text
named_curve (ok oid) = name_of (oid_to_curve_info oid)
named_curve _ = none

abbrev pub inner_or : Bytes → Result Text Bytes → Bytes
inner_or der (ok inner) = inner
inner_or der _ = der

-- The nested `if let` of parse_ec_private: the name of the curve and the inner key, of PKCS#8.
unfoldable pub pkcs8_header : Bytes → Result Text (Option Text × Bytes)
pkcs8_header der = do
  seq ← (read_sequence der).0
  (ver, seq) ← try read_integer_bytes seq
  guard (eqb ver (0x00 ∷ []) && at_sequence seq) []
  (algo, seq) ← try read_sequence seq
  (oid, algo) ← try read_oid algo
  guard (eqb oid (drop 2 oid_ec_public_key)) []
  ok (named_curve (read_oid algo).0, inner_or der (read_octet_string seq).0)

abbrev header_or : Bytes → Result Text (Option Text × Bytes) → Option Text × Bytes
header_or der (ok found) = found
header_or der _ = (none, der)

-- The name in the SEC1 parameters goes before the one of PKCS#8.
abbrev pub sec1_curve : Option Text → Result Text (Option Bytes) → Option Text
sec1_curve crv (ok (some params)) = elim (named_curve (read_oid params).0) [
  | none ↦ crv
  | some inner_crv ↦ some inner_crv
]
sec1_curve crv _ = crv

abbrev pub coordinates : Base64 → Result Text Bytes → Fields
coordinates b64 (ok bits) =
    let len = (length bits - 1) / 2 in
    if is_uncompressed bits
    then field (lit "x") (encoded b64 (take len (drop 1 bits)))
        (field (lit "y") (encoded b64 (drop (1 + len) bits)) end)
    else end
coordinates b64 _ = end

abbrev pub public_coordinates : Base64 → Result Text (Option Bytes) → Fields
public_coordinates b64 (ok (some pubk)) = coordinates b64 (read_bit_string pubk).0
public_coordinates b64 _ = end

-- The SEC1 structure of parse_ec_private, behind the private number and from the start.
unfoldable pub sec1_jwk : Base64 → Option Text → Bytes → Bytes → Result Text Value
sec1_jwk b64 crv d reader =
    let (params, reader) = read_optional_explicit 0 reader in
    let (pubk, _) = read_optional_explicit 1 reader in
    ok_or (sec1_curve crv params) (lit "Could not determine Curve OID from PKCS#8 or SEC1")
    >>= λ crv_name. ok (
        object (
          field (lit "kty") (string (lit "EC")) (
            field (lit "crv") (string crv_name)
              (field (lit "d") (encoded b64 d) (public_coordinates b64 pubk)))))

unfoldable pub parse_sec1 : Base64 → Option Text → Bytes → Result Text Value
parse_sec1 b64 crv input = do
  reader ← (read_sequence input).0
  (_, reader) ← try read_integer_bytes reader
  (d, reader) ← try read_octet_string reader
  sec1_jwk b64 crv d reader

-- parse_ec_private
unfoldable pub parse_ec_private : Base64 → Bytes → Result Text Value
parse_ec_private b64 der =
    let (crv, input) = header_or der (pkcs8_header der) in parse_sec1 b64 crv input
