-- ===== src/Signing.antt =====
-- src/crypto.rs: `sign` and `verify`, over the signature schemes of `graviola` and `aws-lc-rs`.
pub mod Hmac
use webtoken.Common.{
  ℕ, zero, suc, ◌+◌, ◌-◌, ◌*◌, ◌/◌, ◌%◌, ◌^◌, ◌≤◌, ◌<◌, bit_and, ◌≡◌, refl, sym, ap, ◌∙◌, ◌≢◌, ◌↔◌,
  ◌⊎◌, inl, inr, Bool, true, false, not, ◌&&◌, ◌||◌, List, [], ◌∷◌, ◌++◌, append-nil, append_assoc,
  Option, none, some, Bytes, Text, bit_and_low, IsByte, AreBytes, Result, ok, err, panic, ◌>>=◌,
  ◌>>◌, guard, ok_or, map_err, >>=-eq-ok, guard-eq-ok, ltb, leb, ◌==◌, if◌then◌else◌, ==_iff,
  ltb-false, ltb-true, Bool-cases, Option-cases, and_true, length, take, drop, All, length-append,
  take-append-drop, length-take, length-drop, take-length_append, drop-length_append, drop-drop,
  drop-past, All-append, append_inj, lit, eqb, is, starts_with, eqb_refl, eqb→eq, eqb_iff, is→eq,
  is_lit, starts_with-append, to_be_bytes, to_le_bytes, from_be_bytes, length-to_le_bytes,
  length-to_be_bytes, to_le_bytes_inj, NoDot, ◌⊙◌, split_dots, split_dots-join, split_dots-NoDot,
  arith,
}
use webtoken.Errors.{WebtokenError, generic, invalid_key, invalid_algorithm, invalid_signature}
use webtoken.External.{Base64, Signer}
use webtoken.KeyBytes.{decode_key_bytes}
use webtoken.Der.{wrap_pkcs1_as_pkcs8}

pub data Hash : Type 0 where
  sha256 sha384 sha512 : Hash

pub data Curve : Type 0 where
  p256 p384 p521 p256k1 : Curve

pub data Padding : Type 0 where
  pkcs1 pss : Padding

-- The schemes of the libraries, with their keys in the forms they parse. `Rsa`, `Ec`, `Ed` and `EdPublic`
-- stand for parsed keys; the random draws of a signature are part of the function.
pub record Schemes : Type 1 where
  pub Rsa : Type 0
  pub Ec : Type 0
  pub Ed : Type 0
  pub EdPublic : Type 0
  pub hmac : Hash → Bytes → Bytes → Bytes
  pub rsa_from_pkcs8 : Bytes → Option Rsa
  pub rsa_from_der : Bytes → Option Rsa
  pub rsa_sign : Padding → Hash → Rsa → Bytes → Option Bytes
  pub rsa_verify : Padding → Hash → Bytes → Bytes → Bytes → Bool
  pub ec_from_pkcs8 : Curve → Bytes → Option Ec
  pub ec_sign : Curve → Ec → Bytes → Option Bytes
  pub ec_verify : Curve → Bytes → Bytes → Bytes → Bool
  pub ed_from_bytes : Bytes → Option Ed
  pub ed_from_pkcs8_der : Bytes → Option Ed
  pub ed_sign : Ed → Bytes → Bytes
  pub ed_public_from_bytes : Bytes → Option EdPublic
  pub ed_public_from_spki_der : Bytes → Option EdPublic
  pub ed_verify : EdPublic → Bytes → Bytes → Bool

-- `or_else`
abbrev or_else {ℓ} : {A : Type ℓ} → Option A → Option A → Option A
or_else (some a) other = some a
or_else none other = other

module _ (s : Schemes) where
  -- sign_aws_rsa; `wrap_pkcs1_as_pkcs8` is tried when both readings fail.
  abbrev read_rsa : Option s.Rsa → Bytes → Result WebtokenError (Option s.Rsa)
  read_rsa (some key) der = ok (some key)
  read_rsa none der = ok (s.rsa_from_pkcs8 (wrap_pkcs1_as_pkcs8 der))

  unfoldable pub sign_aws_rsa : Padding → Hash → Bytes → Bytes → Result WebtokenError Bytes
  sign_aws_rsa padding hash der message = do
    found ← read_rsa (or_else (s.rsa_from_pkcs8 der) (s.rsa_from_der der)) der
    kp ← ok_or found (invalid_key (lit "Invalid RSA key"))
    ok_or (s.rsa_sign padding hash kp message) (generic (lit "RSA sign failed"))

  -- sign_aws_ec
  unfoldable pub sign_aws_ec : Curve → Bytes → Bytes → Result WebtokenError Bytes
  sign_aws_ec curve der message = do
    kp ← ok_or (s.ec_from_pkcs8 curve der) (invalid_key (lit "Invalid EC key"))
    ok_or (s.ec_sign curve kp message) (generic (lit "EC sign failed"))

  -- The arm for EdDSA.
  unfoldable pub sign_ed : Bytes → Bytes → Result WebtokenError Bytes
  sign_ed der message = do
    kp ←
        (if length der == 32
          then ok_or (s.ed_from_bytes der) (invalid_key (lit "Invalid Ed25519 seed"))
          else ok_or (s.ed_from_pkcs8_der der) (invalid_key (lit "Invalid Ed25519 PKCS8")))
    ok (s.ed_sign kp message)

  unfoldable pub verify_ed : Bytes → Bytes → Bytes → Result WebtokenError (Unit {0})
  verify_ed der message signature = do
    vk ←
        (if length der == 32
          then ok_or (s.ed_public_from_bytes der)
              (invalid_key (lit "Invalid Ed25519 public key bytes"))
          else ok_or (s.ed_public_from_spki_der der) (invalid_key (lit "Invalid Ed25519 SPKI")))
    guard (s.ed_verify vk signature message) invalid_signature

  -- The arms of `sign`, with the key decoded.
  unfoldable pub sign_der : Text → Bytes → Bytes → Result WebtokenError Bytes
  sign_der alg der message =
      if is alg "HS256"
      then ok (s.hmac sha256 der message)
      else if is alg "HS384"
      then ok (s.hmac sha384 der message)
      else if is alg "HS512"
      then ok (s.hmac sha512 der message)
      else if is alg "RS256"
      then sign_aws_rsa pkcs1 sha256 der message
      else if is alg "RS384"
      then sign_aws_rsa pkcs1 sha384 der message
      else if is alg "RS512"
      then sign_aws_rsa pkcs1 sha512 der message
      else if is alg "PS256"
      then sign_aws_rsa pss sha256 der message
      else if is alg "PS384"
      then sign_aws_rsa pss sha384 der message
      else if is alg "PS512"
      then sign_aws_rsa pss sha512 der message
      else if is alg "ES256"
      then sign_aws_ec p256 der message
      else if is alg "ES384"
      then sign_aws_ec p384 der message
      else if is alg "ES512"
      then sign_aws_ec p521 der message
      else if is alg "ES256K"
      then sign_aws_ec p256k1 der message
      else if is alg "EdDSA" || is alg "Ed25519"
      then sign_ed der message
      else err (invalid_algorithm (lit "Algorithm not supported"))

  -- The arms of `verify`, with the key decoded.
  unfoldable pub verify_der : Text → Bytes → Bytes → Bytes → Result WebtokenError (Unit {0})
  verify_der alg der message signature =
      if is alg "HS256"
      then guard (eqb (s.hmac sha256 der message) signature) invalid_signature
      else if is alg "HS384"
      then guard (eqb (s.hmac sha384 der message) signature) invalid_signature
      else if is alg "HS512"
      then guard (eqb (s.hmac sha512 der message) signature) invalid_signature
      else if is alg "RS256"
      then guard (s.rsa_verify pkcs1 sha256 der message signature) invalid_signature
      else if is alg "RS384"
      then guard (s.rsa_verify pkcs1 sha384 der message signature) invalid_signature
      else if is alg "RS512"
      then guard (s.rsa_verify pkcs1 sha512 der message signature) invalid_signature
      else if is alg "PS256"
      then guard (s.rsa_verify pss sha256 der message signature) invalid_signature
      else if is alg "PS384"
      then guard (s.rsa_verify pss sha384 der message signature) invalid_signature
      else if is alg "PS512"
      then guard (s.rsa_verify pss sha512 der message signature) invalid_signature
      else if is alg "ES256"
      then guard (s.ec_verify p256 der message signature) invalid_signature
      else if is alg "ES384"
      then guard (s.ec_verify p384 der message signature) invalid_signature
      else if is alg "ES512"
      then guard (s.ec_verify p521 der message signature) invalid_signature
      else if is alg "ES256K"
      then guard (s.ec_verify p256k1 der message signature) invalid_signature
      else if is alg "EdDSA" || is alg "Ed25519"
      then verify_ed der message signature
      else err (invalid_algorithm (lit "Algorithm not supported"))

-- sign
unfoldable pub sign : Schemes → Base64 → Text → Bytes → Bytes → Result WebtokenError Bytes
sign s b64 alg key message = sign_der s alg (decode_key_bytes b64 key) message

-- verify
unfoldable pub verify :
    Schemes → Base64 → Text → Bytes → Bytes → Bytes → Result WebtokenError (Unit {0})
verify s b64 alg key message signature =
    verify_der s alg (decode_key_bytes b64 key) message signature

-- The two as the other files take them.
unfoldable pub signer : Schemes → Base64 → Signer
signer s b64 = record { sign = sign s b64; verify = verify s b64 }
