-- ===== src/Bindings.antt =====
-- src/lib.rs: decode_complete with prepare_validation, and peek_algorithm and what it calls.
pub mod Complete
use webtoken.Common.{
  ℕ, zero, suc, ◌+◌, ◌-◌, ◌*◌, ◌/◌, ◌%◌, ◌^◌, ◌≤◌, ◌<◌, bit_and, ◌≡◌, refl, sym, ap, ◌∙◌, ◌≢◌, ◌↔◌,
  ◌⊎◌, inl, inr, Bool, true, false, not, ◌&&◌, ◌||◌, List, [], ◌∷◌, ◌++◌, append-nil, append_assoc,
  Option, none, some, Bytes, Text, bit_and_low, IsByte, AreBytes, Result, ok, err, panic, ◌>>=◌,
  ◌>>◌, guard, ok_or, map_err, >>=-eq-ok, guard-eq-ok, ltb, leb, ◌==◌, if◌then◌else◌, ==_iff,
  ltb-false, ltb-true, Bool-cases, Option-cases, and_true, length, take, drop, All, length-append,
  take-append-drop, length-take, length-drop, take-length_append, drop-length_append, drop-drop,
  drop-past, All-append, append_inj, lit, eqb, is, starts_with, eqb_refl, eqb→eq, eqb_iff, is→eq,
  is_lit, starts_with-append, to_be_bytes, to_le_bytes, from_be_bytes, length-to_le_bytes,
  length-to_be_bytes, to_le_bytes_inj, NoDot, ◌⊙◌, split_dots, split_dots-join, split_dots-NoDot,
  arith,
}
use webtoken.Errors.{WebtokenError}
use webtoken.External.{Base64, JsonCodec, Signer}
use webtoken.BigNumbers.{BigNumbers}
use webtoken.PyUtils.{without_whitespace}
use webtoken.Jws.{eq_ignore_ascii_case}
use webtoken.Jwt.Claims.{Floats, Validation, Flags, Expected}
use webtoken.Jwt
use webtoken.Jwt.{CompleteToken, handle_detached_content}
use webtoken.PyJwk.{PyError, raise, value_error, invalid_key_error}
use webtoken.PyJwk.KeyChoice.{
  Key, jwk_key, text_key, bytes_key, byte_list_key, other_key, bytes_look_like_public_key,
  exception_of, get_key_bytes,
}

-- What pyo3 reads from a Python object, and the Rust cast of a float that is positive.
pub record Conversions (O F : Type 0) : Type 0 where
  pub extract_bool : O → Result PyError Bool
  pub extract_u64 : O → Result PyError ℕ
  pub extract_strings : O → Result PyError (List Text)
  pub positive_u64 : F → Option ℕ

-- The dictionary of options: its lookup, where there is one.
abbrev pub Options : Type 0 → Type 0
Options O = Option (Text → Option O)

abbrev pub item : {O : Type 0} → Options O → Text → Option O
item none name = none
item (some opts) name = opts name

-- base64url_decode_inner
abbrev or_standard : Base64 → Text → Result Text Bytes → Result Text Bytes
or_standard b64 clean (ok v) = ok v
or_standard b64 clean panic = panic
or_standard b64 clean (err e) =
    map_err (λ _. lit "Invalid padding or alphabet") (b64.std_decode clean)

unfoldable pub base64url_decode_inner : Base64 → Text → Result Text Bytes
base64url_decode_inner b64 input =
    let clean = without_whitespace input in or_standard b64 clean (b64.url_decode clean)

abbrev first_of : List Text → Option Text
first_of [] = none
first_of (part ∷ parts) = some part

-- peek_algorithm; `partial_header` is the reader that serde derives for the one field `alg`.
unfoldable pub peek_algorithm : Base64 → (Bytes → Option Text) → Text → Result PyError Text
peek_algorithm b64 partial_header token = do
  part ← ok_or (first_of (split_dots token)) (value_error (lit "Invalid Token Format"))
  bytes ←
      map_err (λ _. value_error (lit "Invalid Header Encoding")) (base64url_decode_inner b64 part)
  ok_or (partial_header bytes) (value_error (lit "Invalid Header JSON"))

-- looks_like_public_key
unfoldable pub looks_like_public_key : Key → Bool
looks_like_public_key (bytes_key b) = bytes_look_like_public_key b
looks_like_public_key (byte_list_key b) = bytes_look_like_public_key b
looks_like_public_key (text_key s) = bytes_look_like_public_key s
looks_like_public_key _ = false

module _ {O F : Type 0} (py : Conversions O F) where
  -- An option by its name, or the default.
  unfoldable pub get_flag : Options O → Text → Bool → Result PyError Bool
  get_flag options key default = elim (item options key) [
    | some val ↦ py.extract_bool val
    | none ↦ ok default
  ]

  abbrev not_false : Option Bool → Bool
  not_false (some false) = false
  not_false _ = true

  abbrev given_or : List Text → Option (List Text) → List Text
  given_or names none = names
  given_or names (some algorithms) = algorithms

  unfoldable pub leeway_of : Options O → F → Result PyError ℕ
  leeway_of options leeway_arg = elim (py.positive_u64 leeway_arg) [
    | some l ↦ ok l
    | none ↦ elim (item options (lit "leeway")) [ some val ↦ py.extract_u64 val | none ↦ ok 0 ]
  ]

  unfoldable pub required_of : Options O → Result PyError (List Text)
  required_of options = elim (item options (lit "require")) [
    | some val ↦ py.extract_strings val
    | none ↦ ok []
  ]

  -- prepare_validation
  unfoldable pub prepare_validation :
      Option (List Text) → Options O → Option Bool → F → Result PyError (Validation × Flags)
  prepare_validation algorithms options verify_arg leeway_arg = do
    verify_signature ← get_flag options (lit "verify_signature") (not_false verify_arg)
    check_exp ← get_flag options (lit "verify_exp") verify_signature
    check_nbf ← get_flag options (lit "verify_nbf") verify_signature
    check_iat ← get_flag options (lit "verify_iat") verify_signature
    check_aud ← get_flag options (lit "verify_aud") verify_signature
    check_iss ← get_flag options (lit "verify_iss") verify_signature
    check_sub ← get_flag options (lit "verify_sub") verify_signature
    strict_aud ← get_flag options (lit "strict_aud") false
    leeway ← leeway_of options leeway_arg
    required ← required_of options
    let validation : Validation = record {
      leeway = leeway;
      required_spec_claims = required;
      algorithms = given_or (lit "HS256" ∷ []) algorithms;
    }
    let flags : Flags = record {
      check_iat = check_iat;
      check_exp = check_exp;
      check_nbf = check_nbf;
      check_aud = strict_aud || check_aud;
      check_iss = check_iss;
      check_sub = check_sub;
      strict_aud = strict_aud;
    }
    ok (validation, flags)

  abbrev read_or : Bool → Result PyError Bool → Bool
  read_or default (ok b) = b
  read_or default _ = default

  -- An option that is left out where it is no Boolean.
  unfoldable pub soft_flag : Options O → Text → Bool → Bool
  soft_flag options key default = elim (item options key) [
    | some val ↦ read_or default (py.extract_bool val)
    | none ↦ default
  ]

abbrev pub is_jwk : Option Key → Bool
is_jwk (some (jwk_key jwk)) = true
is_jwk _ = false

abbrev pub is_given : {A : Type 0} → Option A → Bool
is_given none = false
is_given (some a) = true

abbrev pub looks_public : Option Key → Bool
looks_public none = false
looks_public (some key) = looks_like_public_key key

abbrev or_hs256 : Result PyError Text → Result PyError Text
or_hs256 (ok alg) = ok alg
or_hs256 (err e) = ok (lit "HS256")
or_hs256 panic = panic

-- The three checks before the options are read.
unfoldable pub check_call :
    Bool → Option (List Text) → Option Key → Text → Result PyError (Unit {0})
check_call effective_verify algorithms key alg_str = do
  guard (not effective_verify || (is_given algorithms || is_jwk key)) (
      raise (lit "DecodeError") (
        lit
          "It is required that you pass in a value for the \"algorithms\" argument when calling decode()."))
  guard (not (eq_ignore_ascii_case alg_str (lit "none") && effective_verify))
      (raise (lit "DecodeError") (lit "Signature verification failed"))
  guard (not (starts_with (lit "HS") alg_str && looks_public key)) (
      invalid_key_error (
        lit
          "The specified key is an asymmetric key or x509 certificate and should not be used as an HMAC secret."))

-- The keys with which get_key_bytes is called, as an argument.
unfoldable pub decoding_key :
    (Key → Text → Bool → Bool → Result PyError Bytes)
    → Bool
    → Option Key
    → Text
    → Bool
    → Result PyError (Option Bytes)
decoding_key key_bytes_of effective_verify key alg_str check_length =
    if effective_verify && not (eq_ignore_ascii_case alg_str (lit "none"))
    then (do
      k ← ok_or key (value_error (lit "Key required"))
      key_bytes ← key_bytes_of k alg_str false check_length
      ok (some key_bytes))
    else ok none

module _ {O F : Type 0} (py : Conversions O F) (fl : Floats F) (now : F) (b64 : Base64)
    (json : JsonCodec) (signer : Signer) (partial_header : Bytes → Option Text)
    (key_bytes_of : Key → Text → Bool → Bool → Result PyError Bytes) where
  abbrev pub effective : Options O → Option Bool → Bool
  effective options none = soft_flag py options (lit "verify_signature") true
  effective options (some verify) = soft_flag py options (lit "verify_signature") verify

  -- The part of decode_complete behind the reading of the two options.
  unfoldable pub decode_peeked :
      Text
      → Text
      → Bool
      → Option Key
      → Option (List Text)
      → Options O
      → Result PyError Expected
      → Option Bool
      → Option Bytes
      → Bool
      → F
      → Result PyError CompleteToken
  decode_peeked token_final alg_str effective_verify key algorithms options expected_of verify
        content return_dict leeway =
      let check_length = soft_flag py options (lit "enforce_minimum_key_length") false in
      check_call effective_verify algorithms key alg_str
      >> (prepare_validation py algorithms options verify leeway >>= (λ prepared.
          expected_of >>= (λ expected.
            decoding_key key_bytes_of effective_verify key alg_str check_length >>= (λ key_bytes.
              map_err exception_of (
                Jwt.decode fl now b64 json signer token_final key_bytes prepared.0 effective_verify
                  prepared.1 expected content return_dict)))))

  -- decode_complete behind the conversion of its arguments; `expected` is what extract_aud_iss gives, and
  -- `key_bytes_of` is get_key_bytes with its parameters.
  unfoldable pub decode_complete :
      Text
      → Option Key
      → Option (List Text)
      → Options O
      → Result PyError Expected
      → Option Bool
      → Option Bytes
      → Bool
      → F
      → Result PyError CompleteToken
  decode_complete token_str key algorithms options expected_of verify content return_dict leeway =
      do
        token_final ← map_err exception_of (handle_detached_content b64 token_str content)
        alg_str ← or_hs256 (peek_algorithm b64 partial_header token_final)
        decode_peeked token_final alg_str (effective options verify) key algorithms options
            expected_of verify content return_dict leeway
