-- ===== src/Jwk/Ec.antt =====
-- The arm for EC keys of extract_key_bytes of src/jwk.rs.
use webtoken.Common.{
  Bool, [], ◌∷◌, ◌++◌, Option, none, some, Bytes, Text, Result, ok, err, ◌>>=◌, ok_or, map_err,
  if◌then◌else◌, lit, is,
}
use webtoken.External.{Base64}
use webtoken.Json.{Value}
use webtoken.Der.Tlv.{tlv}
use webtoken.Der.Oids.{oid_ec_public_key, oid_p256, oid_p384, oid_p521, oid_secp256k1}
use webtoken.Jwk.{text_at}

unfoldable pub curve_oid_of : Text → Result Text Bytes
curve_oid_of crv =
    if is crv "P-256"
    then ok oid_p256
    else if is crv "P-384"
    then ok oid_p384
    else if is crv "P-521"
    then ok oid_p521
    else if is crv "secp256k1"
    then ok oid_secp256k1
    else err (lit "Unsupported curve: " ++ crv)

-- The uncompressed point.
abbrev pub pub_key : Bytes → Bytes → Bytes
pub_key x_bytes y_bytes = 0x04 ∷ x_bytes ++ y_bytes

abbrev decoded_point : Result Text Bytes → Result Text Bytes → Option (Bytes × Bytes)
decoded_point (ok x_bytes) (ok y_bytes) = some (x_bytes, y_bytes)
decoded_point _ _ = none

abbrev point_at : Base64 → Option Text → Option Text → Option (Bytes × Bytes)
point_at b64 (some x_b64) (some y_b64) = decoded_point (b64.url_decode x_b64) (b64.url_decode y_b64)
point_at b64 _ _ = none

-- The public key in SEC1, when both coordinates decode.
unfoldable pub public_part : Option (Bytes × Bytes) → Bytes
public_part none = []
public_part (some (x_bytes, y_bytes)) = tlv 0xA1 (tlv 0x03 (0x00 ∷ pub_key x_bytes y_bytes))

-- SEC1 in PKCS#8. The OIDs of the source hold their tag and length.
unfoldable pub ec_private_der : Bytes → Bytes → Option (Bytes × Bytes) → Bytes
ec_private_der curve_oid d_bytes point =
    let sec1 =
      (0x02 ∷ 0x01 ∷ 0x01 ∷ [])
      ++ (tlv 0x04 d_bytes ++ (tlv 0xA0 curve_oid ++ public_part point)) in
    let sec1_seq = tlv 0x30 sec1 in
    let alg_seq = tlv 0x30 (oid_ec_public_key ++ curve_oid) in
    tlv 0x30 ((0x02 ∷ 0x01 ∷ 0x00 ∷ []) ++ (alg_seq ++ tlv 0x04 sec1_seq))

unfoldable pub ec_private_bytes : Base64 → Value → Text → Result Text Bytes
ec_private_bytes b64 jwk d = do
  d_bytes ← map_err (λ e. lit "Invalid d: " ++ e) (b64.url_decode d)
  crv ← ok_or (text_at jwk "crv") (lit "Missing crv")
  curve_oid ← curve_oid_of crv
  ok (ec_private_der curve_oid d_bytes (point_at b64 (text_at jwk "x") (text_at jwk "y")))

unfoldable pub ec_public_bytes : Base64 → Option Text → Option Text → Result Text Bytes
ec_public_bytes b64 none y = err (lit "Missing parameters for EC")
ec_public_bytes b64 (some x_b64) none = err (lit "Missing parameters for EC")
ec_public_bytes b64 (some x_b64) (some y_b64) = do
  x_bytes ← map_err (λ e. lit "Invalid x: " ++ e) (b64.url_decode x_b64)
  y_bytes ← map_err (λ e. lit "Invalid y: " ++ e) (b64.url_decode y_b64)
  ok (pub_key x_bytes y_bytes)

unfoldable pub ec_bytes : Base64 → Value → Bool → Result Text Bytes
ec_bytes b64 jwk public_only = elim (if public_only then none else text_at jwk "d") [
  | some d ↦ ec_private_bytes b64 jwk d
  | none ↦ ec_public_bytes b64 (text_at jwk "x") (text_at jwk "y")
]
