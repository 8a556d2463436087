-- ===== src/Paseto/KeyTexts.antt =====
-- src/paseto.rs: decode_paserk_key, and the functions on tokens with the reading of their keys.
use webtoken.Common.{
  ℕ, Bool, false, List, ◌∷◌, ◌++◌, Option, none, some, Bytes, Text, Result, ok, err, panic, ◌>>=◌,
  map_err, leb, if◌then◌else◌, length, lit, is, starts_with, split_dots,
}
use webtoken.Errors.{WebtokenError, invalid_key}
use webtoken.External.{Base64, JsonCodec, Signer}
use webtoken.Primitives.{Primitives}
use webtoken.BigNumbers.{BigNumbers}
use webtoken.Json.{Value}
use webtoken.Unicode.{is_utf8, trim, contains_text}
use webtoken.Jwk.Extract.{extract_key_bytes}
use webtoken.KeyConversion.Pem.{pem_to_jwk}
use webtoken.Paseto.Paserk.Reading.{decode_paserk}
use webtoken.Paseto.Local.{encrypt_v4_local, decrypt_v4_local}
use webtoken.Paseto.Public.{sign_v4_public, verify_v4_public}

-- What decode_paserk_key calls: the engines and numbers, the random draws of the recovery of primes, and
-- the texts of numbers, of lossy names and of JSON values.
pub record KeyReading : Type 0 where
  pub b64 : Base64
  pub codec : JsonCodec
  pub prims : Primitives
  pub big : BigNumbers
  pub fill : ℕ → ℕ → ℕ → Option Bytes
  pub to_text : ℕ → Text
  pub debug_lossy : Bytes → Text
  pub to_string : Value → Text

module _ (r : KeyReading) where
  -- The bytes of a JSON key, or what comes next when the text is not JSON.
  abbrev jwk_bytes : Text → Bool → Text → Result WebtokenError Bytes → Result WebtokenError Bytes
  jwk_bytes text public_only failed next = elim (r.codec.from_slice text) [
    | ok jwk_json ↦
        map_err (λ e. invalid_key (failed ++ e))
          (extract_key_bytes r.b64 r.big r.fill jwk_json public_only)
    | err e ↦ next
    | panic ↦ panic
  ]

  unfoldable pub pem_bytes : Text → Bool → Result WebtokenError Bytes
  pem_bytes s_trim public_only =
      let unsupported = err (invalid_key (lit "Invalid or unsupported PEM format.")) in
      elim (pem_to_jwk r.b64 r.prims r.debug_lossy r.to_string s_trim) [
        | ok jwk_str ↦ jwk_bytes jwk_str public_only (lit "PEM Extraction failed: ") unsupported
        | err e ↦ unsupported
        | panic ↦ panic
      ]

  abbrev is_paserk : List Text → Bool
  is_paserk (version ∷ kind ∷ body ∷ more) = leb (length version) 4
  is_paserk _ = false

  -- `expected_header == Some("public")`
  abbrev names_public : Option Text → Bool
  names_public none = false
  names_public (some expected) = is expected "public"

  -- The key as a text: PEM, PASERK, or raw bytes.
  unfoldable pub pem_or_paserk : Bytes → Text → Option Text → Result WebtokenError Bytes
  pem_or_paserk key s_trim expected =
      if contains_text (lit "-----BEGIN") s_trim
      then pem_bytes s_trim (names_public expected)
      else if is_paserk (split_dots s_trim)
      then decode_paserk r.b64 r.prims r.to_text s_trim expected none none none
      else ok key

  -- decode_paserk_key
  unfoldable pub decode_paserk_key : Bytes → Option Text → Result WebtokenError Bytes
  decode_paserk_key key expected =
      let s_trim = trim key in
      let other = pem_or_paserk key s_trim expected in
      if is_utf8 key
      then (if starts_with (lit "{") s_trim
          then jwk_bytes s_trim (names_public expected) (lit "JWK Extraction failed: ") other
          else other)
      else ok key

  -- encrypt_v4_local, from the key as it is given.
  unfoldable pub encrypt_with_key :
      Bytes
      → Bytes
      → Bytes
      → Bytes
      → Option Bytes
      → Result WebtokenError Bytes
      → Result WebtokenError Text
  encrypt_with_key payload key footer implicit nonce_opt draw = do
    raw_key ← decode_paserk_key key (some (lit "local"))
    encrypt_v4_local r.b64 r.prims raw_key payload footer implicit nonce_opt draw

  -- decrypt_v4_local
  unfoldable pub decrypt_with_key : Text → Bytes → Bytes → Result WebtokenError (Bytes × Bytes)
  decrypt_with_key token key implicit = do
    raw_key ← decode_paserk_key key (some (lit "local"))
    decrypt_v4_local r.b64 r.prims token raw_key implicit

  -- sign_v4_public
  unfoldable pub sign_with_key : Signer → Bytes → Bytes → Bytes → Bytes → Result WebtokenError Text
  sign_with_key signer payload key footer implicit = do
    raw_key ← decode_paserk_key key (some (lit "secret"))
    sign_v4_public r.b64 signer raw_key payload footer implicit

  -- verify_v4_public
  unfoldable pub verify_with_key :
      Signer → Text → Bytes → Bytes → Result WebtokenError (Bytes × Bytes)
  verify_with_key signer token key implicit = do
    raw_key ← decode_paserk_key key (some (lit "public"))
    verify_v4_public r.b64 signer token raw_key implicit
