-- ===== src/Jwt.antt =====
-- src/jwt.rs: parsing, the signature check and `decode`. The claim checks are in `Jwt.Claims`.
pub mod Claims
pub mod Verified
pub mod Headers
use webtoken.Common.{
  ℕ, zero, suc, ◌+◌, ◌-◌, ◌*◌, ◌/◌, ◌%◌, ◌^◌, ◌≤◌, ◌<◌, bit_and, ◌≡◌, refl, sym, ap, ◌∙◌, ◌≢◌, ◌↔◌,
  ◌⊎◌, inl, inr, Bool, true, false, not, ◌&&◌, ◌||◌, List, [], ◌∷◌, ◌++◌, append-nil, append_assoc,
  Option, none, some, Bytes, Text, bit_and_low, IsByte, AreBytes, Result, ok, err, panic, ◌>>=◌,
  ◌>>◌, guard, ok_or, map_err, >>=-eq-ok, guard-eq-ok, ltb, leb, ◌==◌, if◌then◌else◌, ==_iff,
  ltb-false, ltb-true, Bool-cases, Option-cases, and_true, length, take, drop, All, length-append,
  take-append-drop, length-take, length-drop, take-length_append, drop-length_append, All-append,
  append_inj, lit, eqb, is, starts_with, eqb_refl, eqb→eq, eqb_iff, is→eq, is_lit,
  starts_with-append, to_be_bytes, to_le_bytes, from_be_bytes, length-to_le_bytes,
  length-to_be_bytes, to_le_bytes_inj, NoDot, ◌⊙◌, split_dots, split_dots-join, split_dots-NoDot,
  arith,
}
use webtoken.Errors.{WebtokenError, generic, decode_error, invalid_algorithm, invalid_token}
use webtoken.Json.{
  Value, object, null, bool, string, Fields, lookup, remove, as_str, as_bool, is_object,
}
use webtoken.External.{Base64, JsonCodec, Signer}
use webtoken.Algorithms.{is_supported_algorithm}
use webtoken.Jws.{three_parts, permissive_or}
use webtoken.Jwt.Claims.{Validation, Flags, Expected, Floats, contains, validate_claims}

-- TokenPayload, CompleteToken and ParsedJws
pub data TokenPayload : Type 0 where
  claims : Value → TokenPayload
  raw : Bytes → TokenPayload

pub record CompleteToken : Type 0 where
  pub header : Value
  pub payload : TokenPayload
  pub signature : Bytes

pub record ParsedJws : Type 0 where
  pub header : Fields
  pub payload_bytes : Bytes
  pub signature_bytes : Bytes
  pub signing_input : Text

-- handle_detached_content
unfoldable pub handle_detached_content : Base64 → Text → Option Bytes → Result WebtokenError Text
handle_detached_content b64 token none = ok token
handle_detached_content b64 token (some c) =
    three_parts (decode_error (lit "Not enough segments"))
      (λ first second third. ok (first ⊙ b64.url_encode c ⊙ third)) (split_dots token)

abbrev pub object_or : WebtokenError → Value → Result WebtokenError Fields
object_or e (object m) = ok m
object_or e v = err e

-- The b64 header: `false` wants detached content, and is then taken out.
abbrev pub check_b64 : Option Bytes → Fields → Option Value → Result WebtokenError Fields
check_b64 detached header_map none = ok header_map
check_b64 detached header_map (some (bool true)) = ok header_map
check_b64 none header_map (some (bool false)) = err (
    decode_error (
      lit
        "It is required that you pass in a value for the \"detached_payload\" argument to decode a message having the b64 header set to false."))
check_b64 (some _) header_map (some (bool false)) = ok (remove (lit "b64") header_map)
check_b64 detached header_map (some v) =
    err (decode_error (lit "Invalid b64 header: must be boolean"))

module _ (b64 : Base64) (json : JsonCodec) where
  -- `parse_jws` behind the test for three parts.
  unfoldable pub parse_parts : Option Bytes → Text → Text → Text → Result WebtokenError ParsedJws
  parse_parts detached_content first second third = do
    header_bytes ← permissive_or b64 (decode_error (lit "Invalid header padding")) first
    header_val ←
        map_err (λ e. decode_error (lit "Invalid header string: " ++ e))
          (json.from_slice header_bytes)
    parsed ←
        object_or (decode_error (lit "Invalid header string: must be a json object")) header_val
    header_map ← check_b64 detached_content parsed (lookup (lit "b64") parsed)
    payload_bytes ← permissive_or b64 (decode_error (lit "Invalid payload padding")) second
    signature_bytes ← permissive_or b64 (decode_error (lit "Invalid crypto padding")) third
    ok (record {
      header = header_map;
      payload_bytes = payload_bytes;
      signature_bytes = signature_bytes;
      signing_input = first ⊙ second;
    })

  -- parse_jws
  unfoldable pub parse_jws : Text → Option Bytes → Result WebtokenError ParsedJws
  parse_jws token detached_content =
      three_parts (decode_error (lit "Not enough segments")) (parse_parts detached_content)
        (split_dots token)

-- verify_signature
unfoldable pub verify_signature :
    Signer → Text → Text → Bytes → Option Bytes → Validation → Result WebtokenError (Unit {0})
verify_signature signer alg signing_input signature key validation = do
  guard (is_supported_algorithm alg) (invalid_algorithm (lit "Algorithm not supported"))
  guard (contains validation.algorithms alg) (invalid_algorithm (lit "Algorithm not allowed"))
  key_bytes ← ok_or key (generic (lit "Key required for verification"))
  signer.verify alg key_bytes signing_input signature

-- The field `alg` of `LenientHeader`, after the test that there is one.
abbrev pub alg_of : JsonCodec → Fields → Option Value → Result WebtokenError Text
alg_of json header none = err (invalid_algorithm (lit "Missing 'alg' in header"))
alg_of json header (some (string s)) = ok s
alg_of json header (some _) =
    err (decode_error (lit "Invalid header string: " ++ json.alg_error (object header)))

-- The claims of a payload, or the raw bytes.
unfoldable pub payload_of :
    {F : Type 0}
    → Floats F
    → F
    → JsonCodec
    → Bytes
    → Validation
    → Flags
    → Expected
    → Bool
    → Result WebtokenError TokenPayload
payload_of fl now json payload_bytes validation flags expected false = ok (raw payload_bytes)
payload_of fl now json payload_bytes validation flags expected true = do
  payload ←
      map_err (λ _. decode_error (lit "Invalid payload string: must be a json object"))
        (json.from_slice payload_bytes)
  guard (is_object payload) (decode_error (lit "Invalid payload string: must be a json object"))
  validate_claims fl now payload validation flags expected
  ok (claims payload)

-- decode; `now` is what `current_time` returns.
unfoldable pub decode :
    {F : Type 0}
    → Floats F
    → F
    → Base64
    → JsonCodec
    → Signer
    → Text
    → Option Bytes
    → Validation
    → Bool
    → Flags
    → Expected
    → Option Bytes
    → Bool
    → Result WebtokenError CompleteToken
decode fl now b64 json signer token key_bytes validation verify flags expected detached_content
      convert_to_json =
    do
      parsed ← parse_jws b64 json token detached_content
      alg_norm ← alg_of json parsed.header (lookup (lit "alg") parsed.header)
      if verify
          then verify_signature signer alg_norm parsed.signing_input parsed.signature_bytes
              key_bytes validation
          else ok tt
      payload ←
          payload_of fl now json parsed.payload_bytes validation flags expected convert_to_json
      ok (record {
        header = object parsed.header;
        payload = payload;
        signature = parsed.signature_bytes;
      })
