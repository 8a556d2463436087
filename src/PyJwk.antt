-- ===== src/PyJwk.antt =====
-- src/pyjwt_jwk_api.rs: the classes PyJWK and PyJWKSet behind the conversion of Python objects, and the
-- signing with them. The key bytes of src/lib.rs: PyJwk/KeyChoice.
pub mod Public
pub mod KeyChoice
pub mod HmacKeys
pub mod KeyChecks
pub mod CheckedKeys
use webtoken.Common.{
  ℕ, zero, suc, ◌+◌, ◌-◌, ◌*◌, ◌/◌, ◌%◌, ◌^◌, ◌≤◌, ◌<◌, bit_and, ◌≡◌, refl, sym, ap, ◌∙◌, ◌≢◌, ◌↔◌,
  ◌⊎◌, inl, inr, Bool, true, false, not, ◌&&◌, ◌||◌, List, [], ◌∷◌, ◌++◌, append-nil, append_assoc,
  Option, none, some, Bytes, Text, bit_and_low, IsByte, AreBytes, Result, ok, err, panic, ◌>>=◌,
  ◌>>◌, guard, ok_or, map_err, >>=-eq-ok, guard-eq-ok, ltb, leb, ◌==◌, if◌then◌else◌, ==_iff,
  ltb-false, ltb-true, Bool-cases, Option-cases, and_true, length, take, drop, All, length-append,
  take-append-drop, length-take, length-drop, take-length_append, drop-length_append, drop-drop,
  drop-past, All-append, append_inj, lit, eqb, is, starts_with, eqb_refl, eqb→eq, eqb_iff, is→eq,
  is_lit, starts_with-append, to_be_bytes, to_le_bytes, from_be_bytes, length-to_le_bytes,
  length-to_be_bytes, to_le_bytes_inj, NoDot, ◌⊙◌, split_dots, split_dots-join, split_dots-NoDot,
  arith,
}
use Prim.Native.String.{String}
use webtoken.Errors.{WebtokenError, generic, invalid_signature}
use webtoken.External.{Base64, JsonCodec, Signer}
use webtoken.BigNumbers.{BigNumbers}
use webtoken.Json.{
  Value, Values, Fields, string, array, object, get, lookup, remove, as_str, and_then_str,
}
use webtoken.Jwk.{text_at, is_some, parse_json, normalize, normalize_key_set}
use webtoken.Jwk.Extract.{extract_key_bytes}

-- A Python exception, by the name of its class and its message.
pub record PyError : Type 0 where
  pub class_name : Text
  pub message : Text

abbrev pub raise : Text → Text → PyError
raise c m = record { class_name = c; message = m }

abbrev pub value_error : Text → PyError
value_error m = raise (lit "ValueError") m

abbrev pub type_error : Text → PyError
type_error m = raise (lit "TypeError") m

abbrev pub key_error : Text → PyError
key_error m = raise (lit "KeyError") m

abbrev pub jwk_set_error : Text → PyError
jwk_set_error m = raise (lit "PyJWKSetError") m

abbrev pub invalid_key_error : Text → PyError
invalid_key_error m = raise (lit "InvalidKeyError") m

abbrev pub invalid_algorithm_error : Text → PyError
invalid_algorithm_error m = raise (lit "InvalidAlgorithmError") m

-- PyJWK
pub record PyJwk : Type 0 where
  pub inner : Value
  pub algorithm_name : Option Text

module _ (b64 : Base64) (to_text : ℕ → Text) where
  -- `PyJWK::new` behind the conversion of the dictionary.
  unfoldable pub from_value : Value → Option Text → Result PyError PyJwk
  from_value raw algorithm = do
    (inner, alg) ← map_err invalid_key_error (normalize b64 to_text raw algorithm)
    ok record { inner = inner; algorithm_name = alg }

  -- PyJWK::from_json
  unfoldable pub jwk_from_json : JsonCodec → Text → Option Text → Result PyError PyJwk
  jwk_from_json codec json algorithm = do
    raw ← map_err value_error (parse_json codec json)
    from_value raw algorithm

  abbrev as_keys : List (Value × Option Text) → List PyJwk
  as_keys [] = []
  as_keys ((inner, alg) ∷ pairs) = record { inner = inner; algorithm_name = alg } ∷ as_keys pairs

  abbrev is_empty : List (Value × Option Text) → Bool
  is_empty [] = true
  is_empty (p ∷ ps) = false

  -- PyJWKSet::from_values; the set is the list of its keys.
  unfoldable pub from_values : Values → Result PyError (List PyJwk)
  from_values values = do
    valid_keys ← map_err value_error (normalize_key_set b64 to_text values)
    guard (not (is_empty valid_keys))
        (jwk_set_error (lit "The JWK Set did not contain any usable keys"))
    ok (as_keys valid_keys)

  abbrev array_at : Option Value → Option Values
  array_at (some (array vs)) = some vs
  array_at _ = none

  -- PyJWKSet::from_json
  unfoldable pub set_from_json : JsonCodec → Text → Result PyError (List PyJwk)
  set_from_json codec json = do
    val ← map_err value_error (parse_json codec json)
    keys_array ←
        ok_or (array_at (get val (lit "keys")))
          (value_error (lit "JWK Set must have a 'keys' array"))
    from_values keys_array

-- The getters of PyJWK.
unfoldable pub key_id : PyJwk → Option Text
key_id key = text_at key.inner "kid"

unfoldable pub public_key_use : PyJwk → Option Text
public_key_use key = text_at key.inner "use"

unfoldable pub key_type : PyJwk → Result PyError Text
key_type key = ok_or (text_at key.inner "kty") (value_error (lit "kty missing"))

abbrev is_ok_rsa : Result PyError Text → Bool
is_ok_rsa (ok kty) = is kty "RSA"
is_ok_rsa _ = false

-- The getter `algorithm_name`.
unfoldable pub shown_algorithm : PyJwk → Option Text
shown_algorithm key = elim (key.algorithm_name) [
  | some alg ↦ some alg
  | none ↦ if is_ok_rsa (key_type key) then some (lit "RS256") else none
]

abbrev pub text_or_empty : Option Text → Text
text_or_empty none = []
text_or_empty (some t) = t

unfoldable pub curve_bits : Text → ℕ
curve_bits crv =
    if is crv "P-256" || is crv "secp256k1"
    then 256
    else if is crv "P-384"
    then 384
    else if is crv "P-521"
    then 521
    else 0

-- The getter `bit_length`.
unfoldable pub bit_length : Base64 → BigNumbers → PyJwk → Result PyError ℕ
bit_length b64 big key = do
  kty ← key_type key
  if is kty "RSA"
      then (do
        n_b64 ← ok_or (text_at key.inner "n") (invalid_key_error (lit "RSA key missing 'n'"))
        n_bytes ←
            map_err (λ _. invalid_key_error (lit "Invalid 'n' encoding")) (b64.url_decode n_b64)
        ok (big.bits (from_be_bytes 0 n_bytes)))
      else if is kty "EC"
      then ok (curve_bits (text_or_empty (text_at key.inner "crv")))
      else if is kty "oct"
      then (do
        k_b64 ← ok_or (text_at key.inner "k") (invalid_key_error (lit "HMAC key missing 'k'"))
        k_bytes ←
            map_err (λ _. invalid_key_error (lit "Invalid 'k' encoding")) (b64.url_decode k_b64)
        ok (length k_bytes * 8))
      else ok 0

-- `PyJWKSet::__getitem__`: the first key with the identifier.
abbrev has_id : Text → Option Text → Bool
has_id kid none = false
has_id kid (some k) = eqb k kid

unfoldable pub key_with_id : List PyJwk → Text → Result PyError PyJwk
key_with_id [] kid = err (key_error (lit "keyset has no key for kid: " ++ kid))
key_with_id (key ∷ keys) kid =
    let later = key_with_id keys kid in if has_id kid (key_id key) then ok key else later

abbrev is_k1 : Option Text → Bool
is_k1 none = false
is_k1 (some crv) = is crv "secp256k1"

-- `alg_compat_name`
unfoldable pub compat_name : PyJwk → Text → Text
compat_name key algorithm =
    if is algorithm "ES256" && is_k1 (text_at key.inner "crv") then lit "ES256K" else algorithm

module _ (b64 : Base64) (big : BigNumbers) (fill : ℕ → ℕ → ℕ → Option Bytes) where
  -- PyJWK::to_key_bytes
  unfoldable pub to_key_bytes : PyJwk → Bool → Result PyError Bytes
  to_key_bytes key public_only =
      map_err value_error (extract_key_bytes b64 big fill key.inner public_only)

  -- The text of a `PyErr` is that of its exception, behind the name of the class.
  abbrev as_generic : PyError → WebtokenError
  as_generic e = generic (e.class_name ++ (lit ": " ++ e.message))

  -- perform_signature_jwk
  unfoldable pub perform_signature_jwk : Signer → Bytes → PyJwk → Text → Result WebtokenError Bytes
  perform_signature_jwk signer message key algorithm = do
    key_bytes ← map_err as_generic (to_key_bytes key false)
    signer.sign (compat_name key algorithm) key_bytes message

  -- A wrong signature is false, other errors stay.
  abbrev pub verdict : Result WebtokenError (Unit {0}) → Result WebtokenError Bool
  verdict (ok u) = ok true
  verdict (err invalid_signature) = ok false
  verdict (err e) = err e
  verdict panic = panic

  -- perform_verification_jwk
  unfoldable pub perform_verification_jwk :
      Signer → Bytes → Bytes → PyJwk → Text → Result WebtokenError Bool
  perform_verification_jwk signer payload signature key alg_name = do
    key_bytes ← map_err as_generic (to_key_bytes key true)
    verdict (signer.verify (compat_name key alg_name) key_bytes payload signature)
