-- ===== src/PyJwk/KeyChoice.antt =====
-- The key bytes of src/lib.rs: get_key_bytes and the functions that it calls, get_jwe_key_bytes, and
-- raw_sign and raw_verify over them.
use webtoken.Common.{
  ℕ, Bool, true, false, not, ◌&&◌, ◌||◌, [], ◌++◌, Option, none, some, Bytes, Text, Result, ok, err,
  panic, ◌>>=◌, ◌>>◌, guard, map_err, leb, if◌then◌else◌, length, lit, eqb, is, starts_with,
}
use webtoken.Errors.{
  WebtokenError, display, generic, invalid_signature, expired_signature, immature_signature,
  invalid_issuer, invalid_audience, invalid_algorithm, invalid_token, missing_required_claim,
  decode_error, invalid_key, invalid_subject, invalid_jti, invalid_issued_at, unsupported_algorithm,
  unsupported_encryption,
}
use webtoken.External.{Base64, Signer}
use webtoken.BigNumbers.{BigNumbers}
use webtoken.Unicode.{is_utf8, trim}
use webtoken.Algorithms.{is_supported_algorithm}
use webtoken.Jws.{eq_ignore_ascii_case}
use webtoken.Ssh.{ssh_to_pem}
use webtoken.PyJwk.{
  PyError, raise, PyJwk, value_error, type_error, invalid_key_error, invalid_algorithm_error,
  to_key_bytes, perform_signature_jwk, perform_verification_jwk,
}

-- A Python object as a key: a JWK object, a str by its UTF-8 text, bytes, another object that pyo3 reads
-- as a Vec<u8>, such as a bytearray or a list of small numbers, or any other object.
pub data Key : Type 0 where
  jwk_key : PyJwk → Key
  text_key : Text → Key
  bytes_key : Bytes → Key
  byte_list_key : Bytes → Key
  other_key : Key

-- bytes_look_like_public_key
unfoldable pub bytes_look_like_public_key : Bytes → Bool
bytes_look_like_public_key key =
    is_utf8 key
    && (starts_with (lit "-----BEGIN") (trim key)
        || (starts_with (lit "ssh-") (trim key) || starts_with (lit "ecdsa-") (trim key)))

-- A key text that get_key_bytes takes for one of SSH.
abbrev pub is_ssh_text : Bytes → Bool
is_ssh_text key =
    is_utf8 key && (starts_with (lit "ssh-") (trim key) || starts_with (lit "ecdsa-") (trim key))

-- The class and message of the exception for an error of the library.
unfoldable pub exception_of : WebtokenError → PyError
exception_of (generic s) = value_error s
exception_of invalid_signature =
    raise (lit "InvalidSignatureError") (lit "Signature verification failed")
exception_of expired_signature = raise (lit "ExpiredSignatureError") (lit "Signature has expired")
exception_of immature_signature =
    raise (lit "ImmatureSignatureError") (lit "The token is not yet valid (iat/nbf)")
exception_of (invalid_issuer msg) = raise (lit "InvalidIssuerError") msg
exception_of (invalid_audience msg) = raise (lit "InvalidAudienceError") msg
exception_of (invalid_algorithm msg) = invalid_algorithm_error msg
exception_of (invalid_token msg) = raise (lit "InvalidTokenError") msg
exception_of (missing_required_claim c) = raise (lit "MissingRequiredClaimError") c
exception_of (decode_error msg) = raise (lit "DecodeError") msg
exception_of (invalid_key msg) = invalid_key_error msg
exception_of (invalid_subject msg) = raise (lit "InvalidSubjectError") msg
exception_of (invalid_jti msg) = raise (lit "InvalidJTIError") msg
exception_of (invalid_issued_at msg) = raise (lit "InvalidIssuedAtError") msg
exception_of (unsupported_algorithm msg) = invalid_algorithm_error msg
exception_of (unsupported_encryption msg) = value_error msg

-- The least length of a secret, by the name in upper case.
unfoldable pub min_len : Text → ℕ
min_len upper =
    if is upper "HS256"
    then 32
    else if is upper "HS384"
    then 48
    else if is upper "HS512"
    then 64
    else if is upper "BLAKE2b512"
    then 64
    else if is upper "BLAKE2b256"
    then 32
    else 0

-- The bytes of a str or bytes object.
unfoldable pub key_slice : Key → Result PyError Bytes
key_slice (text_key s) = ok s
key_slice (bytes_key b) = ok b
key_slice _ = err (type_error (lit "Key must be string or bytes"))

-- `if let Ok(pem) = ssh_to_pem(..)` with what is done otherwise.
abbrev pub or_checked : Result Text Text → Result PyError Bytes → Result PyError Bytes
or_checked (ok pem) rest = ok pem
or_checked (err e) rest = rest
or_checked panic rest = panic

module _ (to_uppercase : Text → Text) (shown : ℕ → Text) where
  -- is_hmac
  unfoldable pub is_hmac : Text → Bool
  is_hmac alg =
      is (to_uppercase alg) "HS256"
      || (is (to_uppercase alg) "HS384"
          || (is (to_uppercase alg) "HS512"
              || (is (to_uppercase alg) "BLAKE2b512" || is (to_uppercase alg) "BLAKE2b256")))

  -- The least length where it is checked.
  abbrev pub least : Text → Bool → ℕ
  least alg_name check_length = if check_length then min_len (to_uppercase alg_name) else 0

  abbrev too_short : Text → Bytes → PyError
  too_short alg_name key = invalid_key_error (
      lit "The specified key is "
      ++ (shown (length key)
          ++ (lit " bytes long, which is below the minimum recommended length of "
              ++ (shown (min_len (to_uppercase alg_name)) ++ lit " bytes."))))

  -- The checks behind the branch for SSH.
  unfoldable pub checked_key : Text → Bool → Bytes → Result PyError Bytes
  checked_key alg_name check_length key = do
    guard (is_supported_algorithm alg_name)
        (invalid_algorithm_error (lit "Algorithm not supported"))
    guard (not (is_hmac alg_name && bytes_look_like_public_key key)) (
        invalid_key_error (
          lit
            "The specified key is an asymmetric key or x509 certificate and should not be used as an HMAC secret."))
    guard (not (is_hmac alg_name) || leb (least alg_name check_length) (length key))
        (too_short alg_name key)
    ok key

  -- `jwk_alg` against the algorithm of the token.
  unfoldable pub check_jwk_alg : Option Text → Text → Result PyError (Unit {0})
  check_jwk_alg none alg_name = ok tt
  check_jwk_alg (some jwk_alg) alg_name =
      let msg =
        lit "The specified key is for algorithm "
        ++ (jwk_alg ++ (lit " but the token is signed with " ++ (alg_name ++ lit "."))) in
      guard (eqb (to_uppercase jwk_alg) (to_uppercase alg_name)) (
        if starts_with (lit "ES") jwk_alg && starts_with (lit "ES") alg_name
        then invalid_key_error msg
        else invalid_algorithm_error msg)

  module _ (b64 : Base64) (big : BigNumbers) (fill : ℕ → ℕ → ℕ → Option Bytes)
      (debug_lossy : Bytes → Text) where
    -- The part for str and bytes.
    unfoldable pub plain_key_bytes : Text → Bool → Bytes → Result PyError Bytes
    plain_key_bytes alg_name check_length key =
        let rest = checked_key alg_name check_length key in
        if is_ssh_text key then or_checked (ssh_to_pem b64 debug_lossy key) rest else rest

    -- The part behind the branch for JWK objects.
    unfoldable pub other_key_bytes : Key → Text → Bool → Result PyError Bytes
    other_key_bytes key alg_name check_length =
        if eq_ignore_ascii_case alg_name (lit "none")
        then ok []
        else (key_slice key >>= plain_key_bytes alg_name check_length)

    -- get_key_bytes
    unfoldable pub get_key_bytes : Key → Text → Bool → Bool → Result PyError Bytes
    get_key_bytes (jwk_key jwk) alg_name is_signing check_length =
        check_jwk_alg jwk.algorithm_name alg_name >> to_key_bytes b64 big fill jwk (not is_signing)
    get_key_bytes key alg_name is_signing check_length = other_key_bytes key alg_name check_length

    -- get_jwe_key_bytes
    unfoldable pub get_jwe_key_bytes : Key → Bool → Result PyError Bytes
    get_jwe_key_bytes (jwk_key jwk) is_public_only = to_key_bytes b64 big fill jwk is_public_only
    get_jwe_key_bytes (bytes_key b) is_public_only = ok b
    get_jwe_key_bytes (byte_list_key b) is_public_only = ok b
    get_jwe_key_bytes (text_key s) is_public_only = ok s
    get_jwe_key_bytes other_key is_public_only =
        err (type_error (lit "JWE key must be bytes, str (PEM), or a PyJWK object"))

    abbrev with_display {ℓ} : {A : Type ℓ} → Result WebtokenError A → Result PyError A
    with_display r = map_err (λ e. value_error (display e)) r

    -- The outcome of a check: a wrong signature is false.
    unfoldable pub accepted : Result WebtokenError (Unit {0}) → Result PyError Bool
    accepted (ok u) = ok true
    accepted (err invalid_signature) = ok false
    accepted (err e) = err (value_error (display e))
    accepted panic = panic

    -- raw_sign
    unfoldable pub raw_sign : Signer → Bytes → Key → Text → Result PyError Bytes
    raw_sign signer message key algorithm = do
      key_bytes ← get_key_bytes key algorithm true false
      signed key key_bytes
      where
        signed : Key → Bytes → Result PyError Bytes
        signed (jwk_key jwk) key_bytes =
            map_err exception_of (perform_signature_jwk b64 big fill signer message jwk algorithm)
        signed _ key_bytes = with_display (signer.sign algorithm key_bytes message)

    -- raw_verify
    unfoldable pub raw_verify : Signer → Bytes → Bytes → Key → Text → Result PyError Bool
    raw_verify signer message signature key algorithm = do
      key_bytes ← get_key_bytes key algorithm false false
      verified key key_bytes
      where
        verified : Key → Bytes → Result PyError Bool
        verified (jwk_key jwk) key_bytes =
            map_err exception_of
              (perform_verification_jwk b64 big fill signer message signature jwk algorithm)
        verified _ key_bytes = accepted (signer.verify algorithm key_bytes message signature)
