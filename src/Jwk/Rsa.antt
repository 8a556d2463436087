-- ===== src/Jwk/Rsa.antt =====
-- src/key_utils.rs: the numbers of an RSA key (lines 12 to 70), and the DER of RSA keys that
-- extract_key_bytes of src/jwk.rs builds.
use webtoken.Common.{
  ℕ, Bool, false, List, [], ◌∷◌, ◌++◌, Option, none, some, Bytes, Text, Result, ok, ◌>>=◌, ok_or,
  map_err, ltb, if◌then◌else◌, lit, is, from_be_bytes,
}
use Prim.Native.String.{String}
use webtoken.Errors.{WebtokenError, generic}
use webtoken.External.{Base64}
use webtoken.BigNumbers.{BigNumbers}
use webtoken.RsaMath.{recover_primes, compute_crt}
use webtoken.Json.{Value, get}
use webtoken.Der.{encode_der_int}
use webtoken.Der.Tlv.{tlv}
use webtoken.Der.Oids.{oid_rsa_encryption}
use webtoken.Jwk.{text_at, is_some}

-- RsaPrivateComponents
pub record RsaPrivateComponents : Type 0 where
  pub n : ℕ
  pub e : ℕ
  pub d : ℕ
  pub p : ℕ
  pub q : ℕ
  pub dp : ℕ
  pub dq : ℕ
  pub qi : ℕ

-- get_biguint
unfoldable pub get_biguint : Base64 → Value → String → Result WebtokenError ℕ
get_biguint b64 jwk name = do
  s ← ok_or (text_at jwk name) (generic (lit "Missing '" ++ (lit name ++ lit "'")))
  bytes ← map_err generic (b64.url_decode s)
  ok (from_be_bytes 0 bytes)

-- get_rsa_bits_from_value, with the bits of the modulus when it decodes.
abbrev bits_of : BigNumbers → Result Text Bytes → Option ℕ
bits_of big (ok bytes) = some (big.bits (from_be_bytes 0 bytes))
bits_of big _ = none

abbrev is_rsa : Option Text → Bool
is_rsa none = false
is_rsa (some kty) = is kty "RSA"

unfoldable pub get_rsa_bits_from_value : Base64 → BigNumbers → Value → Option ℕ
get_rsa_bits_from_value b64 big inner =
    if is_rsa (text_at inner "kty")
    then elim (text_at inner "n") [ none ↦ none | some n_b64 ↦ bits_of big (b64.url_decode n_b64) ]
    else none

abbrev pub ordered : ℕ × ℕ → ℕ × ℕ
ordered (p, q) = if ltb p q then (q, p) else (p, q)

module _ (b64 : Base64) (big : BigNumbers) (fill : ℕ → ℕ → ℕ → Option Bytes) where
  unfoldable pub recovered : ℕ → ℕ → ℕ → Result WebtokenError RsaPrivateComponents
  recovered n e d = do
    primes ← map_err generic (recover_primes big fill n e d)
    let (p, q) = ordered primes
    (dp, dq, qi) ← map_err generic (compute_crt p q d)
    ok record { n = n; e = e; d = d; p = p; q = q; dp = dp; dq = dq; qi = qi }

  unfoldable pub given : Value → ℕ → ℕ → ℕ → Result WebtokenError RsaPrivateComponents
  given jwk n e d = do
    p ← get_biguint b64 jwk "p"
    q ← get_biguint b64 jwk "q"
    dp ← get_biguint b64 jwk "dp"
    dq ← get_biguint b64 jwk "dq"
    qi ← get_biguint b64 jwk "qi"
    ok record { n = n; e = e; d = d; p = p; q = q; dp = dp; dq = dq; qi = qi }

  -- extract_or_recover_rsa_components; `fill` is the random generator of recover_primes.
  unfoldable pub extract_or_recover_rsa_components :
      Value → Result WebtokenError RsaPrivateComponents
  extract_or_recover_rsa_components jwk = do
    n ← get_biguint b64 jwk "n"
    e ← get_biguint b64 jwk "e"
    d ← get_biguint b64 jwk "d"
    if is_some (get jwk (lit "p")) then given jwk n e d else recovered n e d

-- The calls of `encode_der_int` on one vector.
unfoldable pub encode_der_ints : List Bytes → Result Text Bytes
encode_der_ints [] = ok []
encode_der_ints (bytes ∷ more) = do
  first ← encode_der_int bytes
  rest ← encode_der_ints more
  ok (first ++ rest)

-- PKCS#1 RsaPrivateKey
unfoldable pub rsa_private_der : BigNumbers → RsaPrivateComponents → Result Text Bytes
rsa_private_der big comps = do
  seq ← encode_der_ints (
      (0x00 ∷ [])
      ∷ big.to_bytes_be comps.n
      ∷ big.to_bytes_be comps.e
      ∷ big.to_bytes_be comps.d
      ∷ big.to_bytes_be comps.p
      ∷ big.to_bytes_be comps.q
      ∷ big.to_bytes_be comps.dp
      ∷ big.to_bytes_be comps.dq
      ∷ big.to_bytes_be comps.qi
      ∷ [])
  ok (tlv 0x30 seq)

abbrev pub rsa_algo_wrap : Bytes
rsa_algo_wrap = tlv 0x30 (tlv 0x06 oid_rsa_encryption ++ 0x05 ∷ 0x00 ∷ [])

-- SubjectPublicKeyInfo of an RSA key; `bit_string` has the byte of the unused bits before the PKCS#1 key.
unfoldable pub rsa_public_der : BigNumbers → ℕ → ℕ → Result Text Bytes
rsa_public_der big n e = do
  pkcs1_seq ← encode_der_ints (big.to_bytes_be n ∷ big.to_bytes_be e ∷ [])
  let bit_string = tlv 0x03 (0x00 ∷ tlv 0x30 pkcs1_seq)
  ok (tlv 0x30 (rsa_algo_wrap ++ bit_string))
