-- ===== src/Tests/Calls.antt =====
-- A call of decode_complete at a concrete token.
use webtoken.Common.{
  ℕ, ◌≡◌, refl, Bool, false, Option, none, some, [], ◌∷◌, Bytes, Text, Result, ok, lit, eqb, is,
  starts_with, split_dots,
}
use webtoken.PyUtils.{decode_base64_permissive, without_whitespace}
use webtoken.Json.{lookup}
use webtoken.Algorithms.{from_str, is_supported_algorithm}
use webtoken.Jws.{eq_ignore_ascii_case}
use webtoken.Jwt.Claims.{contains}
use webtoken.Jwt.{
  raw, parse_parts, parse_jws, verify_signature, payload_of, decode, handle_detached_content,
}
use webtoken.Unicode.{is_utf8, trim, trim_start}
use webtoken.PyJwk.{PyError}
use webtoken.PyJwk.KeyChoice.{
  Key, bytes_key, key_slice, is_hmac, get_key_bytes, other_key_bytes, plain_key_bytes, checked_key,
  min_len, bytes_look_like_public_key,
}
use webtoken.Bindings.{
  Conversions, Options, base64url_decode_inner, peek_algorithm, looks_like_public_key, get_flag,
  leeway_of, required_of, prepare_validation, soft_flag, check_call, decoding_key, decode_peeked,
  decode_complete,
}
use webtoken.Bindings.Complete.{IsDecoded, decode_complete-IsDecoded}
use webtoken.Tests.Instances.{hex_encode, hex_decode, base, claims_text, json, signer, floats}
use webtoken.Tests.Numbers.{numbers}
use webtoken.Tests.Keys.{no_draws}
use webtoken.Tests.PyKeys.{upper, no_digits, no_lossy}
use webtoken.Tests.Tokens.{key, token, expected, decoded}

-- Options are Booleans, and a leeway of zero is not positive.
abbrev conversions : Conversions Bool ℕ
conversions = record {
  extract_bool = λ b. ok b;
  extract_u64 = λ b. ok 0;
  extract_strings = λ b. ok [];
  positive_u64 = λ n. none;
}

abbrev no_options : Options Bool
no_options = none

abbrev hs256_header : Bytes → Option Text
hs256_header bytes = some (lit "HS256")

abbrev key_bytes_of : Key → Text → Bool → Bool → Result PyError Bytes
key_bytes_of = get_key_bytes upper no_digits base numbers no_draws no_lossy

completed :
    decode_complete conversions floats 0 base json signer hs256_header key_bytes_of token
      (some (bytes_key key))
      (some (lit "HS256" ∷ []))
      no_options
      (ok expected)
      none
      none
      false
      0
    ≡ ok (decoded (raw claims_text))
unfolding decode_complete decode_peeked handle_detached_content peek_algorithm
    base64url_decode_inner check_call prepare_validation get_flag leeway_of required_of soft_flag
    decoding_key looks_like_public_key starts_with key_slice is_hmac get_key_bytes other_key_bytes
    plain_key_bytes checked_key min_len bytes_look_like_public_key is_utf8 trim trim_start decode
    parse_jws parse_parts verify_signature payload_of is_supported_algorithm from_str contains
    eq_ignore_ascii_case lookup eqb lit is split_dots hex_encode hex_decode base json signer floats
    decode_base64_permissive without_whitespace
completed = refl

decode_complete-IsDecoded_example :
    IsDecoded conversions floats 0 base json signer hs256_header key_bytes_of token
      (some (bytes_key key))
      (some (lit "HS256" ∷ []))
      no_options
      none
      false
      (decoded (raw claims_text))
unfolding soft_flag
decode_complete-IsDecoded_example =
    decode_complete-IsDecoded conversions floats 0 base json signer hs256_header key_bytes_of token
      (some (bytes_key key)) (some (lit "HS256" ∷ [])) no_options (ok expected) none none false 0
      (decoded (raw claims_text)) refl completed
