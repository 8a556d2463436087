-- ===== src/Ssh.antt =====
-- ssh_to_pem of src/crypto_parsing.rs (lines 129 to 186).
use webtoken.Common.{
  ◌&&◌, List, [], ◌∷◌, ◌++◌, Bytes, Text, Result, ok, err, ◌>>=◌, ◌>>◌, guard, map_err, ltb, ◌==◌,
  if◌then◌else◌, length, take, drop, lit, is, starts_with, from_be_bytes,
}
use webtoken.External.{Base64}
use webtoken.Unicode.{is_utf8}
use webtoken.Unicode.Words.{split_whitespace}
use webtoken.KeyBytes.{to_pem}
use webtoken.Der.{encode_der_int, encode_der_sequence}
use webtoken.Der.Tlv.{tlv}
use webtoken.Der.Oids.{oid_ec_public_key, oid_p256, oid_p384, oid_p521}

-- The closure `read_string`: the text, and the buffer after it.
unfoldable pub read_string : Bytes → Result Text (Bytes × Bytes)
read_string buf =
    let len = from_be_bytes 0 (take 4 buf) in
    let rest = drop 4 buf in
    if ltb (length buf) 4
    then err (lit "Truncated")
    else if ltb (length rest) len
    then err (lit "Truncated")
    else ok (take len rest, drop len rest)

unfoldable pub ssh_rsa_der : Bytes → Result Text Bytes
ssh_rsa_der cursor = do
  (e, cursor) ← read_string cursor
  (n, _) ← read_string cursor
  n_int ← encode_der_int n
  e_int ← encode_der_int e
  ok (encode_der_sequence (n_int ++ e_int))

unfoldable pub ssh_ed25519_der : Bytes → Result Text Bytes
ssh_ed25519_der cursor = do
  (key, _) ← read_string cursor
  guard (length key == 32) (lit "Invalid Ed25519 len")
  let alg_id = 0x06 ∷ 0x03 ∷ 0x2b ∷ 0x65 ∷ 0x70 ∷ []
  let bit_string = 0x03 ∷ 0x21 ∷ 0x00 ∷ key
  ok (encode_der_sequence (encode_der_sequence alg_id ++ bit_string))

module _ (b64 : Base64) (debug_lossy : Bytes → Text) where
  -- `debug_lossy` prints the `String::from_utf8_lossy` of a name with `{:?}`.
  unfoldable pub ssh_curve_oid : Bytes → Result Text Bytes
  ssh_curve_oid curve_id =
      if is curve_id "nistp256"
      then ok oid_p256
      else if is curve_id "nistp384"
      then ok oid_p384
      else if is curve_id "nistp521"
      then ok oid_p521
      else err (lit "Unsupported ECDSA curve: " ++ debug_lossy curve_id)

  unfoldable pub ssh_ecdsa_der : Bytes → Result Text Bytes
  ssh_ecdsa_der cursor = do
    (curve_id_bytes, cursor) ← read_string cursor
    (q, _) ← read_string cursor
    curve_oid ← ssh_curve_oid curve_id_bytes
    ok (
        encode_der_sequence
          (encode_der_sequence (oid_ec_public_key ++ curve_oid) ++ tlv 0x03 (0x00 ∷ q)))

  abbrev as_pem : Text → Result Text Bytes → Result Text Text
  as_pem tag made = made >>= λ der. ok (to_pem b64 tag der)

  -- The arms of ssh_to_pem, on the kind and the decoded key.
  unfoldable pub ssh_key_pem : Text → Bytes → Result Text Text
  ssh_key_pem kind decoded = do
    (header, cursor) ← read_string decoded
    if is kind "ssh-rsa" && is header "ssh-rsa"
        then as_pem (lit "RSA PUBLIC KEY") (ssh_rsa_der cursor)
        else if is kind "ssh-ed25519" && is header "ssh-ed25519"
        then as_pem (lit "PUBLIC KEY") (ssh_ed25519_der cursor)
        else if starts_with (lit "ecdsa-sha2-") kind
        then as_pem (lit "PUBLIC KEY") (ssh_ecdsa_der cursor)
        else err (lit "Unsupported SSH key type: " ++ kind)

  abbrev on_parts : List Text → Result Text Text
  on_parts (kind ∷ body ∷ more) =
      map_err (λ _. lit "Invalid Base64") (b64.std_decode body) >>= ssh_key_pem kind
  on_parts _ = err (lit "Invalid SSH key")

  -- ssh_to_pem
  unfoldable pub ssh_to_pem : Bytes → Result Text Text
  ssh_to_pem input =
      guard (is_utf8 input) (lit "Invalid UTF-8") >> on_parts (split_whitespace input)
