-- ===== src/Jwk.antt =====
-- src/jwk.rs: reading and checking JSON Web Keys. The bytes of a key: Jwk/Extract.
pub mod Rsa
pub mod Ec
pub mod Extract
use webtoken.Common.{
  ℕ, zero, suc, ◌+◌, ◌-◌, ◌*◌, ◌/◌, ◌%◌, ◌^◌, ◌≤◌, ◌<◌, bit_and, ◌≡◌, refl, sym, ap, ◌∙◌, ◌≢◌, ◌↔◌,
  ◌⊎◌, inl, inr, Bool, true, false, not, ◌&&◌, ◌||◌, List, [], ◌∷◌, ◌++◌, append-nil, append_assoc,
  Option, none, some, Bytes, Text, bit_and_low, IsByte, AreBytes, Result, ok, err, panic, ◌>>=◌,
  ◌>>◌, guard, ok_or, map_err, >>=-eq-ok, guard-eq-ok, ltb, leb, ◌==◌, if◌then◌else◌, ==_iff,
  ltb-false, ltb-true, Bool-cases, Option-cases, and_true, length, take, drop, All, length-append,
  take-append-drop, length-take, length-drop, take-length_append, drop-length_append, drop-drop,
  drop-past, All-append, append_inj, lit, eqb, is, starts_with, eqb_refl, eqb→eq, eqb_iff, is→eq,
  is_lit, starts_with-append, to_be_bytes, to_le_bytes, from_be_bytes, length-to_le_bytes,
  length-to_be_bytes, to_le_bytes_inj, NoDot, ◌⊙◌, split_dots, split_dots-join, split_dots-NoDot,
  arith,
}
use Prim.Native.String.{String}
use webtoken.External.{Base64, JsonCodec}
use webtoken.Json.{
  Value, Values, nil, cons, string, array, object, get, as_str, and_then_str, is_object,
}

-- `jwk.get(field).and_then(|v| v.as_str())`
abbrev pub text_at : Value → String → Option Text
text_at jwk name = and_then_str (get jwk (lit name))

-- parse_json
unfoldable pub parse_json : JsonCodec → Text → Result Text Value
parse_json codec json = map_err (λ e. lit "Invalid JWK JSON: " ++ e) (codec.from_slice json)

-- deduce_algorithm, by the curve of an EC key.
unfoldable pub ec_algorithm : Text → Result Text (Option Text)
ec_algorithm crv =
    if is crv "P-256"
    then ok (some (lit "ES256"))
    else if is crv "P-384"
    then ok (some (lit "ES384"))
    else if is crv "P-521"
    then ok (some (lit "ES512"))
    else if is crv "secp256k1"
    then ok (some (lit "ES256K"))
    else if is crv "P-192"
    then ok none
    else err (lit "Unsupported crv: " ++ crv)

unfoldable pub okp_algorithm : Text → Result Text (Option Text)
okp_algorithm crv =
    if is crv "Ed25519" || is crv "Ed448"
    then ok (some (lit "EdDSA"))
    else err (lit "Unsupported crv for OKP: " ++ crv)

-- deduce_algorithm
unfoldable pub deduce_algorithm : Value → Result Text (Option Text)
deduce_algorithm jwk = do
  kty ← ok_or (text_at jwk "kty") (lit "kty missing")
  if is kty "EC"
      then ok_or (text_at jwk "crv") (lit "crv missing for EC key") >>= ec_algorithm
      else if is kty "RSA"
      then ok none
      else if is kty "oct"
      then ok (some (lit "HS256"))
      else if is kty "OKP"
      then ok_or (text_at jwk "crv") (lit "crv missing for OKP") >>= okp_algorithm
      else err (lit "Unknown key type: " ++ kty)

-- The length of a coordinate, for the curves that have one.
unfoldable pub coordinate_length : Text → Option ℕ
coordinate_length crv =
    if is crv "P-256" || is crv "secp256k1"
    then some 32
    else if is crv "P-384"
    then some 48
    else if is crv "P-521"
    then some 66
    else none

abbrev pub is_some {ℓ} : {A : Type ℓ} → Option A → Bool
is_some none = false
is_some (some a) = true

abbrev is_ec : Option Text → Bool
is_ec none = false
is_ec (some kty) = is kty "EC"

abbrev text_or_empty : Option Text → Text
text_or_empty none = []
text_or_empty (some t) = t

module _ (b64 : Base64) (to_text : ℕ → Text) where
  -- One round of the loop of `validate_ec_coordinates`; `to_text` prints a length.
  unfoldable pub check_coordinate : Text → ℕ → Text → Option Text → Result Text (Unit {0})
  check_coordinate crv expected_len param none = ok tt
  check_coordinate crv expected_len param (some val) = do
    bytes ← map_err (λ _. lit "Invalid base64 for " ++ param) (b64.url_decode val)
    guard (length bytes == expected_len) (
        lit "Invalid coordinate length for curve "
        ++ (crv
            ++ (lit ". Expected "
                ++ (to_text expected_len ++ (lit ", got " ++ to_text (length bytes))))))

  -- validate_ec_coordinates
  unfoldable pub check_coordinates : Value → Text → Option ℕ → Result Text (Unit {0})
  check_coordinates jwk crv none = ok tt
  check_coordinates jwk crv (some expected_len) =
      check_coordinate crv expected_len (lit "x") (text_at jwk "x")
      >> (check_coordinate crv expected_len (lit "y") (text_at jwk "y")
          >> check_coordinate crv expected_len (lit "d") (text_at jwk "d"))

  unfoldable pub validate_ec_coordinates : Value → Result Text (Unit {0})
  validate_ec_coordinates jwk =
      let crv = text_or_empty (text_at jwk "crv") in
      if is_ec (text_at jwk "kty") then check_coordinates jwk crv (coordinate_length crv) else ok tt

  -- The algorithm of `normalize`: the hint, the key's own, or the one that its type gives.
  unfoldable pub algorithm_of : Value → Option Text → Option Text → Result Text (Option Text)
  algorithm_of jwk (some hint) own = ok (some hint)
  algorithm_of jwk none (some own) = ok (some own)
  algorithm_of jwk none none = deduce_algorithm jwk

  -- normalize
  unfoldable pub normalize : Value → Option Text → Result Text (Value × Option Text)
  normalize jwk algorithm_hint = do
    guard (is_object jwk) (lit "JWK must be an object")
    guard (is_some (get jwk (lit "kty"))) (lit "Key type (kty) not found")
    validate_ec_coordinates jwk
    alg ← algorithm_of jwk algorithm_hint (text_at jwk "alg")
    ok (jwk, alg)

  abbrev is_enc : Option Text → Bool
  is_enc none = false
  is_enc (some use_text) = is use_text "enc"

  -- normalize_key_set: the keys that are for encryption and those that normalize refuses are left out.
  unfoldable pub normalize_key_set : Values → Result Text (List (Value × Option Text))
  normalize_key_set nil = ok []
  normalize_key_set (cons k keys) =
      let rest = normalize_key_set keys in
      if is_enc (text_at k "use") then rest else elim (normalize k none) [
        | ok pair ↦ rest >>= λ pairs. ok (pair ∷ pairs)
        | err e ↦ rest
        | panic ↦ panic
      ]
