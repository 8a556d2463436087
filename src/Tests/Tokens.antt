-- ===== src/Tests/Tokens.antt =====
-- Runs of the token functions of src/jwt.rs and src/lib.rs.
use webtoken.Common.{
  ◌≡◌, refl, ◌≢◌, ◌↔◌, true, false, [], ◌∷◌, none, some, Bytes, Text, ok, if◌then◌else◌, lit, eqb,
  is, ◌⊙◌, split_dots,
}
use webtoken.Json.{Value, Fields, bool, string, object, end, field, lookup, remove, get, is_object}
use webtoken.Json.Maps.{IsUnique, lookup-remove}
use webtoken.PyUtils.{decode_base64_permissive, without_whitespace}
use webtoken.Algorithms.{from_str, is_supported_algorithm}
use webtoken.Jws.{eq_ignore_ascii_case}
use webtoken.Jwt.Claims.{
  Validation, Flags, Expected, contains, validate_claims, check_numeric_claims, check_numeric,
  date_of, check_expiration, check_not_future, check_issuer, check_audience, check_subject,
  check_jti, check_present, check_required,
}
use webtoken.Jwt.Claims.Acceptable.{IsAcceptable, validate_claims-iff-IsAcceptable}
use webtoken.Jwt.{
  CompleteToken, TokenPayload, raw, claims, parse_parts, parse_jws, verify_signature, payload_of,
  decode,
}
use webtoken.Jwt.Verified.{IsVerified, decode-IsVerified, decode_claims_valid, decode_none_rejected}
use webtoken.Jwt.Headers.{sort_map, prepare_headers}
use webtoken.Jwt.Headers.Sorting.{IsSorted, sort_map_sorts}
use webtoken.Jwt.Headers.Prepared.{prepared_entry, prepare_headers_entries}
use webtoken.Api.{sign_prepared}
use webtoken.Api.RoundTrip.{HeaderText, decode-sign_prepared}
use webtoken.Tests.Instances.{
  are_bytes, are_bytes-AreBytes, hex_encode, hex_decode, base, base_laws, header_map, header_text,
  claims_object, claims_text, json, signer, signer_keys, floats,
}

abbrev pub key : Bytes
key = 1 ∷ 2 ∷ []

abbrev validation : Validation
validation = record {
  leeway = 0;
  required_spec_claims = lit "sub" ∷ [];
  algorithms = lit "HS256" ∷ [];
}

abbrev flags : Flags
flags = record {
  check_iat = true;
  check_exp = true;
  check_nbf = true;
  check_aud = true;
  check_iss = true;
  check_sub = true;
  strict_aud = false;
}

abbrev pub expected : Expected
expected = record { aud = none; iss = none; sub = some (lit "me") }

header : HeaderText json header_map
unfolding json lit eqb
header = record {
  text = header_text;
  text_AreBytes = are_bytes-AreBytes header_text refl;
  written = refl;
  read = refl;
}

claims_are_bytes : are_bytes claims_text ≡ true
unfolding lit
claims_are_bytes = refl

abbrev pub token : Text
token = hex_encode header_text ⊙ hex_encode claims_text ⊙ hex_encode (55 ∷ key)

-- The token that `decode` makes of it, with the payload as bytes or as claims.
abbrev pub decoded : TokenPayload → CompleteToken
decoded payload = record { header = object header_map; payload = payload; signature = 55 ∷ key }

decode-sign_prepared_example :
    (t : Text) × (sig : Bytes) × (sign_prepared base json signer header_map claims_text key
        (lit "HS256")
      ≡ ok t)
    × (decode floats 0 base json signer t (some key) validation true flags expected none false
        ≡ ok (record { header = object header_map; payload = raw claims_text; signature = sig }))
unfolding is_supported_algorithm from_str contains eq_ignore_ascii_case lookup eqb lit is
decode-sign_prepared_example =
    decode-sign_prepared base_laws json signer (lit "HS256") key key
      (signer_keys (lit "HS256") key (are_bytes-AreBytes key refl)) refl refl header_map header refl
      validation refl floats 0 flags expected none claims_text
      (are_bytes-AreBytes claims_text claims_are_bytes) refl

decoded_raw :
    decode floats 0 base json signer token (some key) validation true flags expected none false
    ≡ ok (decoded (raw claims_text))
unfolding decode parse_jws parse_parts verify_signature payload_of is_supported_algorithm from_str
    contains eq_ignore_ascii_case lookup eqb lit is split_dots hex_encode hex_decode base json
    signer floats decode_base64_permissive without_whitespace
decoded_raw = refl

decode-IsVerified_example :
    (first second third alg : Text) × (split_dots token ≡ first ∷ second ∷ third ∷ [])
    × (decode_base64_permissive base third ≡ ok (55 ∷ key))
    × (get (object header_map) (lit "alg") ≡ some (string alg))
    × IsVerified signer validation (some key) alg (first ⊙ second) (55 ∷ key)
decode-IsVerified_example =
    decode-IsVerified floats 0 base json signer token (some key) validation flags expected none
      false (decoded (raw claims_text)) decoded_raw

decoded_claims :
    decode floats 0 base json signer token (some key) validation true flags expected none true
    ≡ ok (decoded (claims claims_object))
unfolding decode parse_jws parse_parts verify_signature payload_of is_supported_algorithm from_str
    contains eq_ignore_ascii_case lookup eqb lit is split_dots hex_encode hex_decode base json
    signer floats decode_base64_permissive without_whitespace validate_claims check_numeric_claims
    check_numeric date_of check_expiration check_not_future check_issuer check_audience
    check_subject check_jti check_present check_required get
decoded_claims = refl

decode_claims_valid_example :
    (first second third : Text) × (payload_bytes : Bytes) × (value : Value) × (split_dots token
      ≡ first ∷ second ∷ third ∷ [])
    × (decode_base64_permissive base second ≡ ok payload_bytes)
    × (json.from_slice payload_bytes ≡ ok value)
    × (claims claims_object ≡ claims value)
    × (is_object value ≡ true)
    × (validate_claims floats 0 value validation flags expected ≡ ok tt)
decode_claims_valid_example =
    decode_claims_valid floats 0 base json signer token (some key) validation true flags expected
      none (decoded (claims claims_object)) decoded_claims

abbrev unsigned : CompleteToken
unsigned = record {
  header = object (field (lit "alg") (string (lit "NoNe")) end);
  payload = raw claims_text;
  signature = [];
}

decode_none_rejected_example :
    decode floats 0 base json signer token (some key) validation true flags expected none false
    ≢ ok unsigned
unfolding eq_ignore_ascii_case get lookup eqb lit
decode_none_rejected_example =
    decode_none_rejected floats 0 base json signer token (some key) validation flags expected none
      false unsigned (lit "NoNe") refl refl

validate_claims-iff-IsAcceptable_example :
    (validate_claims floats 0 claims_object validation flags expected ≡ ok tt)
    ↔ IsAcceptable floats 0 claims_object validation flags expected
validate_claims-iff-IsAcceptable_example =
    validate_claims-iff-IsAcceptable floats 0 claims_object validation flags expected

-- A header with "typ" and an algorithm of its own, out of order.
abbrev custom : Fields
custom =
    field (lit "typ") (string [])
      (field (lit "kid") (string (lit "k1")) (field (lit "b64") (bool true) end))

prepare_headers_entries_example :
    (out : Fields) × (prepare_headers (lit "ES256") custom true ≡ ok out)
    × IsUnique out
    × ((k : Text) → lookup k out ≡ prepared_entry (lit "ES256") custom k)
    × (true ≡ true → IsSorted out)
unfolding lookup eqb lit
prepare_headers_entries_example =
    prepare_headers_entries (lit "ES256") custom true (refl, (refl, (refl, tt))) refl

sort_map_sorts_example :
    IsSorted (sort_map custom)
    × IsUnique (sort_map custom)
    × ((k : Text) → lookup k (sort_map custom) ≡ lookup k custom)
unfolding lookup eqb lit
sort_map_sorts_example = sort_map_sorts custom (refl, (refl, (refl, tt)))

lookup-remove_example :
    lookup (lit "kid") (remove (lit "typ") custom)
    ≡ (if eqb (lit "typ") (lit "kid") then none else lookup (lit "kid") custom)
unfolding lookup eqb lit
lookup-remove_example = lookup-remove (lit "typ") (lit "kid") custom (refl, (refl, (refl, tt)))
