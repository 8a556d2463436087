-- ===== src/Jwk/Extract.antt =====
-- extract_key_bytes of src/jwk.rs.
use webtoken.Common.{
  ℕ, Bool, not, ◌&&◌, [], ◌++◌, Option, none, some, Bytes, Text, Result, err, ◌>>=◌, ok_or, map_err,
  if◌then◌else◌, lit, is,
}
use webtoken.Errors.{display}
use webtoken.External.{Base64}
use webtoken.BigNumbers.{BigNumbers}
use webtoken.Json.{Value, get}
use webtoken.Jwk.{text_at, is_some}
use webtoken.Jwk.Rsa.{
  get_biguint, extract_or_recover_rsa_components, rsa_private_der, rsa_public_der,
}
use webtoken.Jwk.Ec.{ec_bytes}

abbrev kty_or_default : Option Text → Text
kty_or_default none = []
kty_or_default (some kty) = kty

unfoldable pub oct_bytes : Base64 → Value → Result Text Bytes
oct_bytes b64 jwk = do
  k ← ok_or (text_at jwk "k") (lit "Missing 'k' parameter")
  map_err (λ e. lit "Invalid base64 k: " ++ e) (b64.url_decode k)

unfoldable pub okp_bytes : Base64 → Value → Bool → Result Text Bytes
okp_bytes b64 jwk public_only = elim (if public_only then none else text_at jwk "d") [
  | some d ↦ map_err (λ e. lit "Invalid base64 d: " ++ e) (b64.url_decode d)
  | none ↦ ok_or (text_at jwk "x") (lit "Missing parameters for OKP") >>= λ x.
      map_err (λ e. lit "Invalid base64 x: " ++ e) (b64.url_decode x)
]

module _ (b64 : Base64) (big : BigNumbers) (fill : ℕ → ℕ → ℕ → Option Bytes) where
  unfoldable pub rsa_bytes : Value → Bool → Result Text Bytes
  rsa_bytes jwk public_only = do
    n ← map_err display (get_biguint b64 jwk "n")
    e ← map_err display (get_biguint b64 jwk "e")
    if not public_only && is_some (get jwk (lit "d"))
        then map_err display (extract_or_recover_rsa_components b64 big fill jwk)
          >>= rsa_private_der big
        else rsa_public_der big n e

  -- extract_key_bytes
  unfoldable pub extract_key_bytes : Value → Bool → Result Text Bytes
  extract_key_bytes jwk public_only =
      let kty = kty_or_default (text_at jwk "kty") in
      if is kty "oct"
      then oct_bytes b64 jwk
      else if is kty "OKP"
      then okp_bytes b64 jwk public_only
      else if is kty "RSA"
      then rsa_bytes jwk public_only
      else if is kty "EC"
      then ec_bytes b64 jwk public_only
      else err (lit "Unsupported key type for raw extraction: " ++ kty)
