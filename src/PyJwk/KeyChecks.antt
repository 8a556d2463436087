-- ===== src/PyJwk/KeyChecks.antt =====
-- The checks of src/pyjwt_jwk_api.rs on a JWK: validate_rsa_consistency and validate_key_properties.
use webtoken.Common.{
  Bool, true, false, not, ◌&&◌, List, [], ◌∷◌, ◌++◌, Option, none, some, Text, Result, ok, ◌>>=◌,
  ◌>>◌, guard, ok_or, map_err, ltb, ◌==◌, if◌then◌else◌, length, lit, eqb, is,
}
use Prim.Native.String.{String}
use webtoken.External.{Base64}
use webtoken.Json.{Value, get, as_str}
use webtoken.Jwk.{text_at, is_some}
use webtoken.PyJwk.{PyError, PyJwk, key_type, text_or_empty, invalid_key_error}

abbrev pub crt_members : List Text
crt_members = lit "p" ∷ lit "q" ∷ lit "dp" ∷ lit "dq" ∷ lit "qi" ∷ []

-- The members that are there, or are not.
unfoldable pub members_in : Bool → Value → List Text → List Text
members_in present v [] = []
members_in present v (k ∷ ks) =
    let rest = members_in present v ks in
    if (if is_some (get v k) then present else not present) then k ∷ rest else rest

-- A list of texts by its `Debug`.
abbrev quoted : Text → Text
quoted t = lit "\"" ++ (t ++ lit "\"")

unfoldable pub debug_items : List Text → Text
debug_items [] = []
debug_items (t ∷ []) = quoted t
debug_items (t ∷ u ∷ ts) = quoted t ++ (lit ", " ++ debug_items (u ∷ ts))

abbrev debug_texts : List Text → Text
debug_texts ts = lit "[" ++ (debug_items ts ++ lit "]")

-- The checks of validate_rsa_consistency behind the one of the type.
unfoldable pub rsa_checks : Value → Result PyError (Unit {0})
rsa_checks v = do
  guard (is_some (get v (lit "n")) && is_some (get v (lit "e")))
      (invalid_key_error (lit "Missing RSA public key components"))
  guard (not (is_some (get v (lit "oth"))))
      (invalid_key_error (lit "RSA keys with 'oth' (other primes) are not supported"))
  let count = length (members_in true v crt_members)
  let missing = members_in false v crt_members
  guard (not (ltb 0 count && ltb count 5))
      (invalid_key_error (lit "Missing RSA private key component: " ++ debug_texts missing))

-- validate_rsa_consistency
unfoldable pub validate_rsa_consistency : PyJwk → Result PyError (Unit {0})
validate_rsa_consistency key = do
  kty ← key_type key
  if not (is kty "RSA") then ok tt else rsa_checks key.inner

-- map_curve_name_for_error
unfoldable pub map_curve_name_for_error : Text → Text
map_curve_name_for_error name =
    if is name "P-256"
    then lit "secp256r1"
    else if is name "P-384"
    then lit "secp384r1"
    else if is name "P-521"
    then lit "secp521r1"
    else if is name "P-192"
    then lit "secp192r1"
    else name

-- The curve against the one that is expected.
unfoldable pub check_curve : Value → Text → Option Text → Result PyError (Unit {0})
check_curve v expected_kty none = ok tt
check_curve v expected_kty (some req_crv) = do
  crv ← ok_or (text_at v "crv") (invalid_key_error (expected_kty ++ lit " key missing 'crv'"))
  guard (eqb crv req_crv) (
      invalid_key_error (
        lit "Key curve "
        ++ (map_curve_name_for_error crv
            ++ (lit " does not match algorithm curve "
                ++ (map_curve_name_for_error req_crv ++ lit ".")))))

-- The members of an EC key.
unfoldable pub check_ec_members : Value → Result PyError (Unit {0})
check_ec_members v = do
  guard (is_some (get v (lit "crv"))) (invalid_key_error (lit "Key must be EC and have 'crv'"))
  guard (is_some (get v (lit "x")) && is_some (get v (lit "y")))
      (invalid_key_error (lit "Invalid Key: Missing EC public key components"))

-- The private component of an Ed25519 key.
unfoldable pub check_d : Base64 → Option Value → Result PyError (Unit {0})
check_d b64 none = ok tt
check_d b64 (some d_val) = do
  d_b64 ← ok_or (as_str d_val) (invalid_key_error (lit "Invalid d encoding"))
  d_bytes ← map_err (λ _. invalid_key_error (lit "Invalid d encoding")) (b64.url_decode d_b64)
  guard (length d_bytes == 32) (invalid_key_error (lit "Invalid d length"))

-- The components of an Ed25519 key.
unfoldable pub check_ed25519 : Base64 → Value → Result PyError (Unit {0})
check_ed25519 b64 v = do
  x_b64 ← ok_or (text_at v "x") (invalid_key_error (lit "Missing x component"))
  x_bytes ← map_err (λ _. invalid_key_error (lit "Invalid x encoding")) (b64.url_decode x_b64)
  guard (length x_bytes == 32) (invalid_key_error (lit "Invalid x length"))
  check_d b64 (get v (lit "d"))

abbrev pub is_curve : Option Text → String → Bool
is_curve none name = false
is_curve (some crv) name = is crv name

-- validate_key_properties
unfoldable pub validate_key_properties :
    Base64 → PyJwk → Text → Option Text → Result PyError (Unit {0})
validate_key_properties b64 key expected_kty expected_crv = do
  let kty = text_or_empty (text_at key.inner "kty")
  guard (eqb kty expected_kty) (
      invalid_key_error
        (lit "Invalid key type: " ++ (kty ++ (lit ". Expected " ++ (expected_kty ++ lit ".")))))
  check_curve key.inner expected_kty expected_crv
  (if is kty "EC" then check_ec_members key.inner else ok tt)
  if is kty "OKP" && is_curve expected_crv "Ed25519" then check_ed25519 b64 key.inner else ok tt
