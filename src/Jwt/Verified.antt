-- ===== src/Jwt/Verified.antt =====
-- What `decode` of src/jwt.rs has checked when it returns a token.
use webtoken.Common.{
  ◌≡◌, refl, ◌≢◌, inl, inr, Bool, true, false, [], ◌∷◌, Option, none, some, Bytes, Text, Result, ok,
  err, panic, guard, map_err, >>=-eq-ok, guard-eq-ok, if◌then◌else◌, lit, ◌⊙◌, split_dots, arith,
}
use webtoken.Errors.{decode_error}
use webtoken.Json.{Value, object, string, Fields, lookup, get, is_object}
use webtoken.External.{Base64, JsonCodec, Signer}
use webtoken.PyUtils.{decode_base64_permissive}
use webtoken.Algorithms.{
  Algorithm, hs256, to_string, is_supported_algorithm, supported-from_str, to_string-from_str,
}
use webtoken.Jws.{three_parts-eq-ok, eq_ignore_ascii_case}
use webtoken.Jwt.Claims.{Validation, Flags, Expected, Floats, contains, validate_claims}
use webtoken.Jwt.{
  TokenPayload, CompleteToken, ParsedJws, claims, parse_parts, parse_jws, verify_signature, alg_of,
  payload_of, decode,
}

map_err-eq-ok {ℓ} :
    {E F : Type 0} {A : Type ℓ} (f : E → F) (r : Result E A) {a : A} → map_err f r ≡ ok a → r ≡ ok a
map_err-eq-ok f (ok b) h = cc
map_err-eq-ok f (err e) h = cc
map_err-eq-ok f panic h = cc

-- What a successful `parse_jws` says of the token.
abbrev pub Parses : Base64 → Text → ParsedJws → Type 0
Parses b64 token parsed =
    (first second third : Text) × (split_dots token ≡ first ∷ second ∷ third ∷ [])
    × (parsed.signing_input ≡ first ⊙ second)
    × (decode_base64_permissive b64 second ≡ ok parsed.payload_bytes)
    × (decode_base64_permissive b64 third ≡ ok parsed.signature_bytes)

module _ (b64 : Base64) (json : JsonCodec) where
  parse_parts_reads :
      (content : Option Bytes) (first second third : Text) (parsed : ParsedJws)
      → parse_parts b64 json content first second third ≡ ok parsed
      → (parsed.signing_input ≡ first ⊙ second)
        × (decode_base64_permissive b64 second ≡ ok parsed.payload_bytes)
        × (decode_base64_permissive b64 third ≡ ok parsed.signature_bytes)
  unfolding parse_parts
  parse_parts_reads content first second third parsed h = ground arith

  pub parse_jws-Parses :
      (token : Text) (content : Option Bytes) (parsed : ParsedJws)
      → parse_jws b64 json token content ≡ ok parsed
      → Parses b64 token parsed
  unfolding parse_jws
  parse_jws-Parses token content parsed h =
      let (first, second, third, parts, e) =
        three_parts-eq-ok (decode_error (lit "Not enough segments")) (parse_parts b64 json content)
          (split_dots token) h in
      let (p, q, r) = parse_parts_reads content first second third parsed e in
      (first, second, third, parts, p, q, r)

-- The signature check of `decode` passed for this algorithm name: the name is supported and allowed,
-- a key was given, and the signature over `first.second` was accepted under it.
abbrev pub IsVerified : Signer → Validation → Option Bytes → Text → Text → Bytes → Type 0
IsVerified signer validation key_bytes alg signing_input signature =
    (key : Bytes) × (key_bytes ≡ some key)
    × (is_supported_algorithm alg ≡ true)
    × (contains validation.algorithms alg ≡ true)
    × (signer.verify alg key signing_input signature ≡ ok tt)

verify_signature-IsVerified :
    (signer : Signer) (alg signing_input : Text) (signature : Bytes) (key : Option Bytes)
    (validation : Validation)
    → verify_signature signer alg signing_input signature key validation ≡ ok tt
    → IsVerified signer validation key alg signing_input signature
unfolding verify_signature
verify_signature-IsVerified signer alg signing_input signature none validation h = ground arith
verify_signature-IsVerified signer alg signing_input signature (some key) validation h =
    (key, refl, ground arith, ground arith, ground arith)

name-ne-none : (a : Algorithm) → eq_ignore_ascii_case (to_string a) (lit "none") ≡ false
unfolding to_string eq_ignore_ascii_case lit
name-ne-none hs256 = refl
name-ne-none _ = refl

ed25519-ne-none : eq_ignore_ascii_case (lit "Ed25519") (lit "none") ≡ false
unfolding eq_ignore_ascii_case lit
ed25519-ne-none = refl

supported-ne-none :
    (s : Text) → is_supported_algorithm s ≡ true → eq_ignore_ascii_case s (lit "none") ≡ false
supported-ne-none s h =
    let (a, e) = supported-from_str s h in
    elim (to_string-from_str s a e) [
      | inl named ↦ rw named (name-ne-none a)
      | inr (named, _) ↦ rw named ed25519-ne-none
    ]

alg_of-eq-ok :
    (json : JsonCodec) (header : Fields) (found : Option Value) (alg : Text)
    → alg_of json header found ≡ ok alg
    → found ≡ some (string alg)
alg_of-eq-ok json header found alg h = ground arith

module _ {F : Type 0} (fl : Floats F) (now : F) (b64 : Base64) (json : JsonCodec)
    (signer : Signer) where
  decode_steps :
      (token : Text) (key_bytes : Option Bytes) (validation : Validation) (verify : Bool)
      (flags : Flags) (expected : Expected) (content : Option Bytes) (convert : Bool)
      (t : CompleteToken)
      → decode fl now b64 json signer token key_bytes validation verify flags expected content
          convert
        ≡ ok t
      → (parsed : ParsedJws) × (alg : Text) × (parse_jws b64 json token content ≡ ok parsed)
        × (lookup (lit "alg") parsed.header ≡ some (string alg))
        × ((if verify
              then verify_signature signer alg parsed.signing_input parsed.signature_bytes key_bytes
                  validation
              else ok tt)
            ≡ ok tt)
        × (payload_of fl now json parsed.payload_bytes validation flags expected convert
            ≡ ok t.payload)
        × (t.header ≡ object parsed.header)
        × (t.signature ≡ parsed.signature_bytes)
  unfolding decode
  decode_steps token key_bytes validation verify flags expected content convert t h =
      let (parsed, e1, h1) = >>=-eq-ok (parse_jws b64 json token content) _ h in
      let (alg, e2, h2) =
        >>=-eq-ok (alg_of json parsed.header (lookup (lit "alg") parsed.header)) _ h1 in
      let (_, e3, h3) =
        >>=-eq-ok
          (if verify
            then verify_signature signer alg parsed.signing_input parsed.signature_bytes key_bytes
                validation
            else ok tt)
          _ h2 in
      let (payload, e4, h4) =
        >>=-eq-ok (payload_of fl now json parsed.payload_bytes validation flags expected convert) _
          h3 in
      (
        parsed,
        alg,
        e1,
        alg_of-eq-ok json parsed.header (lookup (lit "alg") parsed.header) alg e2,
        e3,
        ground arith,
        ground arith,
        ground arith,
      )

  -- When `decode` with `verify` returns a token, the text has three parts `first.second.third`, the
  -- returned header names an algorithm that is supported and among the allowed ones, and the signature
  -- in the third part, which is returned, was accepted over `first.second` under the given key.
  pub decode-IsVerified :
      (token : Text) (key_bytes : Option Bytes) (validation : Validation) (flags : Flags)
      (expected : Expected) (content : Option Bytes) (convert : Bool) (t : CompleteToken)
      → decode fl now b64 json signer token key_bytes validation true flags expected content convert
        ≡ ok t
      → (first second third alg : Text) × (split_dots token ≡ first ∷ second ∷ third ∷ [])
        × (decode_base64_permissive b64 third ≡ ok t.signature)
        × (get t.header (lit "alg") ≡ some (string alg))
        × IsVerified signer validation key_bytes alg (first ⊙ second) t.signature
  unfolding get
  decode-IsVerified token key_bytes validation flags expected content convert t h =
      let (parsed, alg, e1, e2, e3, _, same_header, same_signature) =
        decode_steps token key_bytes validation true flags expected content convert t h in
      let (first, second, third, parts, input, _, sig) =
        parse_jws-Parses b64 json token content parsed e1 in
      let (key, given, supported, allowed, accepted) =
        verify_signature-IsVerified signer alg parsed.signing_input parsed.signature_bytes key_bytes
          validation e3 in
      (
        first,
        second,
        third,
        alg,
        parts,
        rw same_signature sig,
        rw same_header e2,
        (key, given, supported, allowed, rw (same_signature, ← input) accepted),
      )

  payload_steps :
      (payload_bytes : Bytes) (validation : Validation) (flags : Flags) (expected : Expected)
      (payload : TokenPayload)
      → payload_of fl now json payload_bytes validation flags expected true ≡ ok payload
      → (value : Value) × (payload ≡ claims value)
        × (json.from_slice payload_bytes ≡ ok value)
        × (is_object value ≡ true)
        × (validate_claims fl now value validation flags expected ≡ ok tt)
  unfolding payload_of
  payload_steps payload_bytes validation flags expected payload h =
      let (value, e1, h1) =
        >>=-eq-ok
          (map_err (λ _. decode_error (lit "Invalid payload string: must be a json object"))
            (json.from_slice payload_bytes))
          _ h in
      let (_, e2, h2) =
        >>=-eq-ok
          (guard (is_object value)
            (decode_error (lit "Invalid payload string: must be a json object")))
          _ h1 in
      let (_, e3, h3) = >>=-eq-ok (validate_claims fl now value validation flags expected) _ h2 in
      (
        value,
        cc,
        map_err-eq-ok _ (json.from_slice payload_bytes) e1,
        guard-eq-ok (is_object value) _ e2,
        e3,
      )

  -- When `decode` with `convert_to_json` returns a token, verified or not, its payload is the JSON object
  -- that the second part of the text encodes, and its claims passed `validate_claims`.
  pub decode_claims_valid :
      (token : Text) (key_bytes : Option Bytes) (validation : Validation) (verify : Bool)
      (flags : Flags) (expected : Expected) (content : Option Bytes) (t : CompleteToken)
      → decode fl now b64 json signer token key_bytes validation verify flags expected content true
        ≡ ok t
      → (first second third : Text) × (payload_bytes : Bytes) × (value : Value) × (split_dots token
          ≡ first ∷ second ∷ third ∷ [])
        × (decode_base64_permissive b64 second ≡ ok payload_bytes)
        × (json.from_slice payload_bytes ≡ ok value)
        × (t.payload ≡ claims value)
        × (is_object value ≡ true)
        × (validate_claims fl now value validation flags expected ≡ ok tt)
  decode_claims_valid token key_bytes validation verify flags expected content t h =
      let (parsed, alg, e1, _, _, paid, _, _) =
        decode_steps token key_bytes validation verify flags expected content true t h in
      let (first, second, third, parts, _, body, _) =
        parse_jws-Parses b64 json token content parsed e1 in
      let (value, same, read, object_value, valid) =
        payload_steps parsed.payload_bytes validation flags expected t.payload paid in
      (
        first, second, third, parsed.payload_bytes, value, parts, body, read, same, object_value,
        valid,
      )

  -- No name in any spelling of "none" is accepted by `decode` with `verify`, whatever the allowed names are.
  pub decode_none_rejected :
      (token : Text) (key_bytes : Option Bytes) (validation : Validation) (flags : Flags)
      (expected : Expected) (content : Option Bytes) (convert : Bool) (t : CompleteToken)
      (alg : Text)
      → eq_ignore_ascii_case alg (lit "none") ≡ true
      → get t.header (lit "alg") ≡ some (string alg)
      → decode fl now b64 json signer token key_bytes validation true flags expected content convert
        ≢ ok t
  decode_none_rejected token key_bytes validation flags expected content convert t alg spelled named
        h =
      let (_, _, _, alg', _, _, named', (_, _, supported, _, _)) =
        decode-IsVerified token key_bytes validation flags expected content convert t h in
      let same : alg ≡ alg' = ground arith in
      cc (rw same at spelled, supported-ne-none alg' supported)
