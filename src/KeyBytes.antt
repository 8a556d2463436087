-- ===== src/KeyBytes.antt =====
-- src/crypto_parsing.rs: `decode_key_bytes`, `to_pem`, and the X25519 and Ed25519 keys in their DER
-- wrappers; and the X25519 and Ed25519 functions of src/crypto.rs that read keys with them.
use webtoken.Common.{
  ℕ, zero, suc, ◌≡◌, not, ◌&&◌, List, [], ◌∷◌, ◌++◌, Bytes, Text, Result, ok, err, ◌>>=◌, ok_or,
  map_err, ◌==◌, if◌then◌else◌, length, take, drop, length-drop, lit, starts_with, arith,
}
use webtoken.Errors.{WebtokenError, generic, invalid_key}
use webtoken.External.{Base64}
use webtoken.Primitives.{Primitives}
use webtoken.Unicode.{is_utf8, trim, contains_text, lines}

-- The lines of a PEM text that are not its armour, joined.
unfoldable pub pem_body : List Text → Text
pem_body [] = []
pem_body (l ∷ ls) =
    let rest = pem_body ls in
    if not (contains_text (lit "-----BEGIN") l) && not (contains_text (lit "-----END") l)
    then l ++ rest
    else rest

abbrev decoded_or : Bytes → Result Text Bytes → Bytes
decoded_or bytes (ok der) = der
decoded_or bytes _ = bytes

-- decode_key_bytes
unfoldable pub decode_key_bytes : Base64 → Bytes → Bytes
decode_key_bytes b64 bytes =
    let trimmed = trim (if is_utf8 bytes then bytes else []) in
    if starts_with (lit "-----BEGIN") trimmed
    then decoded_or bytes (b64.std_decode (pem_body (lines trimmed)))
    else bytes

-- The lines of 64 characters of to_pem; `fuel` is the number of characters.
unfoldable pub chunk_lines : ℕ → Text → Text
chunk_lines fuel [] = []
chunk_lines zero (c ∷ cs) = []
chunk_lines (suc fuel) (c ∷ cs) = take 64 (c ∷ cs) ++ b'\n' ∷ chunk_lines fuel (drop 64 (c ∷ cs))

-- to_pem
unfoldable pub to_pem : Base64 → Text → Bytes → Text
to_pem b64 tag bytes =
    let body = b64.std_encode bytes in
    lit "-----BEGIN "
    ++ tag
    ++ lit "-----\n"
    ++ chunk_lines (length body) body
    ++ lit "-----END "
    ++ tag
    ++ lit "-----\n"

-- A key of 32 bytes, or in the wrappers for a public key (44 bytes) or a private one (48 bytes).
unfoldable pub unwrap_curve_key : WebtokenError → Bytes → Bytes → Bytes → Result WebtokenError Bytes
unwrap_curve_key e spki pkcs8 bytes =
    if length bytes == 32
    then ok bytes
    else if length bytes == 44 && starts_with spki bytes
    then ok (drop 12 bytes)
    else if length bytes == 48 && starts_with pkcs8 bytes
    then ok (drop 16 bytes)
    else err e

-- extract_x25519_bytes; `to_text` prints the length in the error.
unfoldable pub extract_x25519_bytes : Base64 → (ℕ → Text) → Bytes → Result WebtokenError Bytes
extract_x25519_bytes b64 to_text key =
    let bytes = decode_key_bytes b64 key in
    unwrap_curve_key
      (generic (lit "Invalid X25519 key length or format: " ++ to_text (length bytes)))
      (0x30 ∷ 0x2A ∷ 0x30 ∷ 0x05 ∷ 0x06 ∷ 0x03 ∷ 0x2B ∷ 0x65 ∷ 0x6E ∷ 0x03 ∷ 0x21 ∷ 0x00 ∷ [])
      (0x30 ∷ 0x2E ∷ 0x02 ∷ 0x01 ∷ 0x00 ∷ 0x30 ∷ 0x05 ∷ 0x06 ∷ 0x03 ∷ 0x2B ∷ 0x65 ∷ 0x6E ∷ 0x04
        ∷ 0x22 ∷ 0x04 ∷ 0x20 ∷ [])
      bytes

-- extract_ed25519_bytes
unfoldable pub extract_ed25519_bytes : Base64 → (ℕ → Text) → Bytes → Result WebtokenError Bytes
extract_ed25519_bytes b64 to_text key =
    let bytes = decode_key_bytes b64 key in
    unwrap_curve_key
      (generic (lit "Invalid Ed25519 key length or format: " ++ to_text (length bytes)))
      (0x30 ∷ 0x2A ∷ 0x30 ∷ 0x05 ∷ 0x06 ∷ 0x03 ∷ 0x2B ∷ 0x65 ∷ 0x70 ∷ 0x03 ∷ 0x21 ∷ 0x00 ∷ [])
      (0x30 ∷ 0x2E ∷ 0x02 ∷ 0x01 ∷ 0x00 ∷ 0x30 ∷ 0x05 ∷ 0x06 ∷ 0x03 ∷ 0x2B ∷ 0x65 ∷ 0x70 ∷ 0x04
        ∷ 0x22 ∷ 0x04 ∷ 0x20 ∷ [])
      bytes

module _ (b64 : Base64) (p : Primitives) (to_text : ℕ → Text) where
  -- x25519_derive; `extract_x25519_bytes` leaves 32 bytes, which the key types accept.
  unfoldable pub x25519_derive : Bytes → Bytes → Result WebtokenError Bytes
  x25519_derive private_key peer_public_key = do
    secret ← extract_x25519_bytes b64 to_text private_key
    public ← extract_x25519_bytes b64 to_text peer_public_key
    ok_or (p.x25519_shared secret public) (generic (lit "ECDH failed"))

  -- x25519_public_from_private
  unfoldable pub x25519_public_from_private : Bytes → Result WebtokenError Bytes
  x25519_public_from_private private_key = do
    raw ← extract_x25519_bytes b64 to_text private_key
    ok (p.x25519_public raw)

-- ed25519_public_from_seed
unfoldable pub ed25519_public_from_seed : Primitives → Bytes → Result WebtokenError Bytes
ed25519_public_from_seed p seed =
    map_err (λ _. invalid_key (lit "Invalid Ed25519 seed")) (p.ed25519_public seed)

-- A result of unwrap_curve_key has 32 bytes, whatever the input.
pub length-unwrap_curve_key :
    (e : WebtokenError) (spki pkcs8 bytes key : Bytes)
    → unwrap_curve_key e spki pkcs8 bytes ≡ ok key
    → length key ≡ 32
unfolding unwrap_curve_key
length-unwrap_curve_key e spki pkcs8 bytes key h =
    ground (arith, length-drop 12 bytes, length-drop 16 bytes)

-- `extract_x25519_bytes` returns keys of exactly 32 bytes, from raw, PEM and DER input alike.
pub length-extract_x25519_bytes :
    (b64 : Base64) (to_text : ℕ → Text) (input key : Bytes)
    → extract_x25519_bytes b64 to_text input ≡ ok key
    → length key ≡ 32
unfolding extract_x25519_bytes
length-extract_x25519_bytes b64 to_text input key h =
    length-unwrap_curve_key _ _ _ (decode_key_bytes b64 input) key h
