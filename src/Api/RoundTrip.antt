-- ===== src/Api/RoundTrip.antt =====
-- What `decode` of src/jwt.rs makes of the tokens of `sign` of src/lib.rs.
use webtoken.Common.{
  ◌≡◌, ap, ◌∙◌, Bool, true, false, [], ◌∷◌, Option, none, some, Bytes, Text, AreBytes, ok,
  if◌then◌else◌, lit, ◌⊙◌, split_dots, split_dots-join, split_dots-NoDot,
}
use webtoken.Json.{object, string, Fields, lookup}
use webtoken.External.{Base64, Base64Laws, JsonCodec, Signer, IsKeyPair}
use webtoken.PyUtils.{url_text-NoDot, decode_base64_permissive-url_encode}
use webtoken.Algorithms.{is_supported_algorithm}
use webtoken.Jws.{prepare_jws_parts, sign_output, eq_ignore_ascii_case}
use webtoken.Jwt.Claims.{Validation, Flags, Expected, Floats, contains}
use webtoken.Jwt.{raw, check_b64, parse_parts, parse_jws, verify_signature, payload_of, decode}
use webtoken.Api.{sign_prepared}

-- The JSON text of a header, and that it is read back.
pub record HeaderText (json : JsonCodec) (header_map : Fields) : Type 0 where
  pub text : Bytes
  pub text_AreBytes : AreBytes text
  pub written : json.to_vec (object header_map) ≡ ok text
  pub read : json.from_slice text ≡ ok (object header_map)

module _ {b64 : Base64} (laws : Base64Laws b64) where
  split_dots-encoded :
      (h p s : Bytes)
      → AreBytes h
      → AreBytes p
      → AreBytes s
      → split_dots (b64.url_encode h ⊙ b64.url_encode p ⊙ b64.url_encode s)
        ≡ b64.url_encode h ∷ b64.url_encode p ∷ b64.url_encode s ∷ []
  split_dots-encoded h p s hh hp hs =
      split_dots-join (b64.url_encode h) _ (url_text-NoDot _ (laws.url_alphabet h hh))
      ∙ ap (λ t. b64.url_encode h ∷ t)
          (split_dots-join (b64.url_encode p) _ (url_text-NoDot _ (laws.url_alphabet p hp))
            ∙ ap (λ t. b64.url_encode p ∷ t)
                (split_dots-NoDot (b64.url_encode s) (url_text-NoDot _ (laws.url_alphabet s hs))))

  parse_jws-encoded :
      (json : JsonCodec) (content : Option Bytes) (header_map kept : Fields)
      (h : HeaderText json header_map) (p s : Bytes)
      → AreBytes p
      → AreBytes s
      → check_b64 content header_map (lookup (lit "b64") header_map) ≡ ok kept
      → parse_jws b64 json (b64.url_encode h.text ⊙ b64.url_encode p ⊙ b64.url_encode s) content
        ≡ ok (record {
          header = kept;
          payload_bytes = p;
          signature_bytes = s;
          signing_input = b64.url_encode h.text ⊙ b64.url_encode p;
        })
  unfolding parse_jws parse_parts
  parse_jws-encoded json content header_map kept h p s hp hs keep =
      rw (split_dots-encoded h.text p s h.text_AreBytes hp hs) (
        rw (decode_base64_permissive-url_encode laws h.text h.text_AreBytes) (
          rw h.read (
            rw keep (
              rw (decode_base64_permissive-url_encode laws p hp)
                (rw (decode_base64_permissive-url_encode laws s hs))))))

sign_output-encoded :
    (b64 : Base64) (signer : Signer) (input header payload : Text) (key sig : Bytes) (alg : Text)
    (detached : Bool)
    → eq_ignore_ascii_case alg (lit "none") ≡ false
    → signer.sign alg key input ≡ ok sig
    → sign_output b64 signer input header payload key alg detached
      ≡ ok (
          if detached
          then header ⊙ [] ⊙ b64.url_encode sig
          else header ⊙ payload ⊙ b64.url_encode sig)
unfolding sign_output
sign_output-encoded b64 signer input header payload key sig alg detached plain signed =
    rw plain (rw signed)

verify_signature_accepts :
    (signer : Signer) (alg input : Text) (sig key : Bytes) (validation : Validation)
    → is_supported_algorithm alg ≡ true
    → contains validation.algorithms alg ≡ true
    → signer.verify alg key input sig ≡ ok tt
    → verify_signature signer alg input sig (some key) validation ≡ ok tt
unfolding verify_signature
verify_signature_accepts signer alg input sig key validation h k v = rw h (rw k v)

-- What the two directions need: the laws of the codec, a key pair for the algorithm `alg`, which is
-- supported, allowed and not "none", and a header with its JSON text that names `alg`.
module _ {b64 : Base64} (laws : Base64Laws b64) (json : JsonCodec) (signer : Signer) (alg : Text)
    (secret public : Bytes) (keys : IsKeyPair signer alg secret public)
    (plain : eq_ignore_ascii_case alg (lit "none") ≡ false)
    (supported : is_supported_algorithm alg ≡ true) (header_map : Fields)
    (h : HeaderText json header_map) (named : lookup (lit "alg") header_map ≡ some (string alg))
    (validation : Validation) (allowed : contains validation.algorithms alg ≡ true) where
  -- With a base64 codec that keeps its laws, a pair of keys for an algorithm that is supported,
  -- allowed and not "none", and a header that names it, has no "b64" and whose JSON text is read
  -- back: a payload of bytes is signed to a token, and `decode` with the public key returns the
  -- header, the payload and the signature.
  pub decode-sign_prepared :
      {F : Type 0} (fl : Floats F) (now : F) (flags : Flags) (expected : Expected)
      (content : Option Bytes) (payload : Bytes)
      → AreBytes payload
      → lookup (lit "b64") header_map ≡ none
      → (token : Text) × (sig : Bytes) × (sign_prepared b64 json signer header_map payload secret
            alg
          ≡ ok token)
        × (decode fl now b64 json signer token
              (some public)
              validation
              true
              flags
              expected
              content
              false
            ≡ ok (record { header = object header_map; payload = raw payload; signature = sig }))
  unfolding sign_prepared prepare_jws_parts decode payload_of
  decode-sign_prepared fl now flags expected content payload hp no_b64 =
      let input = b64.url_encode h.text ⊙ b64.url_encode payload in
      let (sig, signed, sig_bytes) = keys.signs input in
      let parsed =
        parse_jws-encoded laws json content header_map header_map h payload sig hp sig_bytes
          (rw no_b64) in
      let verified =
        verify_signature_accepts signer alg input sig public validation supported allowed
          (keys.accepts input sig signed) in
      (
        b64.url_encode h.text ⊙ b64.url_encode payload ⊙ b64.url_encode sig,
        sig,
        rw h.written (
            rw no_b64 (
              sign_output-encoded b64 signer input (b64.url_encode h.text) (b64.url_encode payload)
                secret sig alg false plain signed)),
        rw parsed (rw named (rw verified)),
      )
