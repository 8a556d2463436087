-- ===== src/Jwe.antt =====
-- src/jwe.rs: `encrypt_compact` and `decrypt_compact`.
pub mod Ciphers
pub mod Content
pub mod Derivation
pub mod KeyManagement
pub mod RoundTrip
use webtoken.Common.{
  ℕ, zero, suc, ◌+◌, ◌-◌, ◌*◌, ◌/◌, ◌%◌, ◌^◌, ◌≤◌, ◌<◌, bit_and, ◌≡◌, refl, sym, ap, ◌∙◌, ◌≢◌, ◌↔◌,
  ◌⊎◌, inl, inr, Bool, true, false, not, ◌&&◌, ◌||◌, List, [], ◌∷◌, ◌++◌, append-nil, append_assoc,
  Option, none, some, Bytes, Text, bit_and_low, IsByte, AreBytes, Result, ok, err, panic, ◌>>=◌,
  ◌>>◌, guard, ok_or, map_err, >>=-eq-ok, guard-eq-ok, ltb, leb, ◌==◌, if◌then◌else◌, ==_iff,
  ltb-false, ltb-true, Bool-cases, Option-cases, and_true, length, take, drop, All, length-append,
  take-append-drop, length-take, length-drop, take-length_append, drop-length_append, drop-drop,
  drop-past, All-append, append_inj, lit, eqb, is, starts_with, eqb_refl, eqb→eq, eqb_iff, is→eq,
  is_lit, starts_with-append, to_be_bytes, to_le_bytes, from_be_bytes, length-to_le_bytes,
  length-to_be_bytes, to_le_bytes_inj, NoDot, ◌⊙◌, split_dots, split_dots-join, split_dots-NoDot,
  arith,
}
use webtoken.Errors.{WebtokenError, generic, invalid_token}
use webtoken.External.{Base64, JsonCodec}
use webtoken.Json.{Value, Fields, string, lookup, get, and_then_str}
use webtoken.Jws.{permissive_or}
use webtoken.Primitives.{Primitives}
use webtoken.Jwe.Ciphers.{CipherSuite}
use webtoken.Jwe.Content.{encrypt_content, decrypt_content}
use webtoken.Jwe.KeyManagement.{JweDraws, JsonNumbers, manage_cek_encrypt, manage_cek_decrypt}

-- The compression of `flate2`.
pub record Deflate : Type 0 where
  pub deflate : Bytes → Result Text Bytes
  pub inflate : Bytes → Result Text Bytes

-- `protected["alg"].as_str()`
unfoldable pub text_of : Value → Text → Result WebtokenError Text
text_of header name =
    ok_or (and_then_str (get header name)) (invalid_token (lit "Missing " ++ name))

-- `if let Some("DEF") = header.get("zip").and_then(|v| v.as_str())`
abbrev pub is_def : Option Text → Bool
is_def none = false
is_def (some s) = is s "DEF"

unfoldable pub compress : Deflate → Value → Bytes → Result WebtokenError Bytes
compress z header payload =
    if is_def (and_then_str (get header (lit "zip")))
    then map_err generic (z.deflate payload)
    else ok payload

unfoldable pub decompress : Deflate → Value → Bytes → Result WebtokenError Bytes
decompress z header plaintext =
    if is_def (and_then_str (get header (lit "zip")))
    then map_err (λ _. generic (lit "Decompression failed")) (z.inflate plaintext)
    else ok plaintext

-- `text.split('.')` with the test for five parts.
abbrev pub five_parts {ℓ} :
    {A : Type ℓ}
    → WebtokenError
    → (Text → Text → Text → Text → Text → Result WebtokenError A)
    → List Text
    → Result WebtokenError A
five_parts e k (a ∷ b ∷ c ∷ d ∷ f ∷ []) = k a b c d f
five_parts e k _ = err e

module _ (b64 : Base64) (json : JsonCodec) (c : CipherSuite) (p : Primitives) (n : JsonNumbers)
    (z : Deflate) where
  -- encrypt_compact
  unfoldable pub encrypt_compact : JweDraws → Value → Bytes → Bytes → Result WebtokenError Text
  encrypt_compact draws protected payload key = do
    alg ← text_of protected (lit "alg")
    enc ← text_of protected (lit "enc")
    (cek, encrypted_key, header) ← manage_cek_encrypt b64 c p n draws alg enc key protected
    header_json ← map_err generic (json.to_vec header)
    let encoded_header = b64.url_encode header_json
    final_payload ← compress z header payload
    (ciphertext, tag, nonce) ← encrypt_content c draws.nonce enc cek final_payload encoded_header
    ok (
        encoded_header
        ⊙ b64.url_encode encrypted_key
        ⊙ b64.url_encode nonce
        ⊙ b64.url_encode ciphertext
        ⊙ b64.url_encode tag)

  -- `decrypt_compact` behind the test for five parts.
  unfoldable pub decrypt_parts :
      Bytes → Text → Text → Text → Text → Text → Result WebtokenError Bytes
  decrypt_parts key b64_header b64_ek b64_iv b64_ct b64_tag = do
    header_bytes ← permissive_or b64 (invalid_token (lit "Bad header")) b64_header
    header ← map_err (λ _. invalid_token (lit "Bad header JSON")) (json.from_slice header_bytes)
    encrypted_key ← permissive_or b64 (invalid_token (lit "Bad key")) b64_ek
    nonce ← permissive_or b64 (invalid_token (lit "Bad IV")) b64_iv
    ciphertext ← permissive_or b64 (invalid_token (lit "Bad ciphertext")) b64_ct
    tag ← permissive_or b64 (invalid_token (lit "Bad tag")) b64_tag
    alg ← text_of header (lit "alg")
    enc ← text_of header (lit "enc")
    cek ← manage_cek_decrypt b64 c p n alg enc key encrypted_key header
    plaintext ← decrypt_content c enc cek ciphertext b64_header nonce tag
    decompress z header plaintext

  -- decrypt_compact
  unfoldable pub decrypt_compact : Text → Bytes → Result WebtokenError Bytes
  decrypt_compact token key =
      five_parts (invalid_token (lit "Invalid JWE compact format")) (decrypt_parts key)
        (split_dots token)
