-- ===== src/Api.antt =====
-- src/lib.rs, `sign` (lines 491 to 499) behind the conversions from Python.
pub mod RoundTrip
use webtoken.Common.{
  ℕ, zero, suc, ◌+◌, ◌-◌, ◌*◌, ◌/◌, ◌%◌, ◌^◌, ◌≤◌, ◌<◌, bit_and, ◌≡◌, refl, sym, ap, ◌∙◌, ◌≢◌, ◌↔◌,
  ◌⊎◌, inl, inr, Bool, true, false, not, ◌&&◌, ◌||◌, List, [], ◌∷◌, ◌++◌, append-nil, append_assoc,
  Option, none, some, Bytes, Text, bit_and_low, IsByte, AreBytes, Result, ok, err, panic, ◌>>=◌,
  ◌>>◌, guard, ok_or, map_err, >>=-eq-ok, guard-eq-ok, ltb, leb, ◌==◌, if◌then◌else◌, ==_iff,
  ltb-false, ltb-true, Bool-cases, Option-cases, and_true, length, take, drop, All, length-append,
  take-append-drop, length-take, length-drop, take-length_append, drop-length_append, All-append,
  append_inj, lit, eqb, is, starts_with, eqb_refl, eqb→eq, eqb_iff, is→eq, is_lit,
  starts_with-append, to_be_bytes, to_le_bytes, from_be_bytes, length-to_le_bytes,
  length-to_be_bytes, to_le_bytes_inj, NoDot, ◌⊙◌, split_dots, split_dots-join, split_dots-NoDot,
  arith,
}
use webtoken.Errors.{WebtokenError, decode_error}
use webtoken.Json.{Value, object, bool, string, Fields, lookup, remove}
use webtoken.External.{Base64, Base64Laws, JsonCodec, Signer, IsKeyPair}
use webtoken.PyUtils.{decode_base64_permissive, url_text-NoDot, decode_base64_permissive-url_encode}
use webtoken.Algorithms.{is_supported_algorithm}
use webtoken.Jws.{
  three_parts, permissive_or, prepare_jws_parts, sign_output, verify_bytes, eq_ignore_ascii_case,
}
use webtoken.Jwt.Claims.{Validation, Flags, Expected, Floats, contains}
use webtoken.Jwt.{
  TokenPayload, CompleteToken, ParsedJws, raw, check_b64, object_or, alg_of,
  handle_detached_content, parse_parts, parse_jws, verify_signature, payload_of, decode,
}
use webtoken.Jwt.Headers.{prepare_headers}

abbrev pub is_false : Option Value → Bool
is_false (some (bool b)) = not b
is_false _ = false

module _ (b64 : Base64) (json : JsonCodec) (signer : Signer) where
  -- `sign` behind `prepare_headers`; `header_map.get("b64") == Some(false)` makes the token detached.
  unfoldable pub sign_prepared : Fields → Bytes → Bytes → Text → Result WebtokenError Text
  sign_prepared header_map payload key algorithm = do
    (header_b64, payload_b64, signing_input) ← prepare_jws_parts b64 json header_map payload
    sign_output b64 signer signing_input header_b64 payload_b64 key algorithm
        (is_false (lookup (lit "b64") header_map))

  -- sign
  unfoldable pub sign : Fields → Bytes → Bytes → Text → Bool → Result WebtokenError Text
  sign headers payload key algorithm sort_headers = do
    header_map ← prepare_headers algorithm headers sort_headers
    sign_prepared header_map payload key algorithm
