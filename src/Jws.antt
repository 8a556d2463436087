-- ===== src/Jws.antt =====
-- src/jws.rs: the compact form of a signed token.
use webtoken.Common.{
  ℕ, ◌+◌, ◌≡◌, refl, Bool, true, false, ◌&&◌, List, [], ◌∷◌, Bytes, Text, Result, ok, err, ◌>>=◌,
  ◌>>◌, map_err, leb, ◌==◌, if◌then◌else◌, lit, ◌⊙◌, split_dots,
}
use webtoken.Errors.{WebtokenError, generic, decode_error}
use webtoken.Json.{Value, object, Fields}
use webtoken.External.{Base64, JsonCodec, Signer}
use webtoken.PyUtils.{decode_base64_permissive}

-- str::eq_ignore_ascii_case
abbrev to_ascii_lowercase : ℕ → ℕ
to_ascii_lowercase c = if leb b'A' c && leb c b'Z' then c + 32 else c

unfoldable pub eq_ignore_ascii_case : Text → Text → Bool
eq_ignore_ascii_case [] [] = true
eq_ignore_ascii_case [] (d ∷ ds) = false
eq_ignore_ascii_case (c ∷ cs) [] = false
eq_ignore_ascii_case (c ∷ cs) (d ∷ ds) =
    to_ascii_lowercase c == to_ascii_lowercase d && eq_ignore_ascii_case cs ds

-- `text.split('.')` with the test for three parts.
abbrev pub three_parts {ℓ} :
    {A : Type ℓ}
    → WebtokenError
    → (Text → Text → Text → Result WebtokenError A)
    → List Text
    → Result WebtokenError A
three_parts e k (a ∷ b ∷ c ∷ []) = k a b c
three_parts e k _ = err e

pub three_parts-eq-ok {ℓ} :
    {A : Type ℓ} (e : WebtokenError) (k : Text → Text → Text → Result WebtokenError A)
    (parts : List Text) {r : A}
    → three_parts e k parts ≡ ok r
    → (a b c : Text) × (parts ≡ a ∷ b ∷ c ∷ []) × (k a b c ≡ ok r)
three_parts-eq-ok e k [] h = cc
three_parts-eq-ok e k (a ∷ []) h = cc
three_parts-eq-ok e k (a ∷ b ∷ []) h = cc
three_parts-eq-ok e k (a ∷ b ∷ c ∷ []) h = (a, b, c, refl, h)
three_parts-eq-ok e k (a ∷ b ∷ c ∷ d ∷ rest) h = cc

module _ (b64 : Base64) (json : JsonCodec) where
  -- prepare_jws_parts: the header, the payload and the signing input.
  unfoldable pub prepare_jws_parts : Fields → Bytes → Result WebtokenError (Text × Text × Text)
  prepare_jws_parts header_map payload_bytes = do
    header_json ← map_err generic (json.to_vec (object header_map))
    let header_b64 = b64.url_encode header_json
    let payload_b64 = b64.url_encode payload_bytes
    ok (header_b64, payload_b64, header_b64 ⊙ payload_b64)

module _ (b64 : Base64) (signer : Signer) where
  -- sign_output
  unfoldable pub sign_output : Text → Text → Text → Bytes → Text → Bool → Result WebtokenError Text
  sign_output signing_input header_b64 payload_b64 key alg_name detached =
      if eq_ignore_ascii_case alg_name (lit "none")
      then ok (if detached then header_b64 ⊙ [] ⊙ [] else header_b64 ⊙ payload_b64 ⊙ [])
      else do
        sig_bytes ← signer.sign alg_name key signing_input
        let sig_b64 = b64.url_encode sig_bytes
        ok (if detached then header_b64 ⊙ [] ⊙ sig_b64 else header_b64 ⊙ payload_b64 ⊙ sig_b64)

-- A call of `decode_base64_permissive` with its error replaced.
abbrev pub permissive_or : Base64 → WebtokenError → Text → Result WebtokenError Bytes
permissive_or b64 e part = map_err (λ _. e) (decode_base64_permissive b64 part)

module _ (b64 : Base64) (json : JsonCodec) (signer : Signer) where
  -- verify_bytes: the header and the payload of a token with a good signature.
  unfoldable pub verify_bytes : Text → Bytes → Text → Result WebtokenError (Value × Bytes)
  verify_bytes token key alg_name =
      three_parts (generic (lit "Invalid Token Format"))
        (λ header_b64 payload_b64 signature_b64. do
          sig_bytes ← permissive_or b64 (decode_error (lit "Invalid crypto padding")) signature_b64
          signer.verify alg_name key (header_b64 ⊙ payload_b64) sig_bytes
          header_bytes ← permissive_or b64 (decode_error (lit "Invalid header padding")) header_b64
          header ←
              map_err (λ _. decode_error (lit "Invalid header string"))
                (json.from_slice header_bytes)
          payload_bytes ←
              permissive_or b64 (decode_error (lit "Invalid payload padding")) payload_b64
          ok (header, payload_bytes))
        (split_dots token)
