-- ===== src/Tests/PyKeys.antt =====
-- The key objects and the choice of key bytes at concrete inputs.
use webtoken.Common.{
  ℕ, err, false, ◌≡◌, refl, ◌⊎◌, ◌↔◌, none, true, [], ◌∷◌, Bytes, Text, ok, lit, eqb, is,
  starts_with, if◌then◌else◌, leb, ◌&&◌, ◌-◌,
}
use webtoken.Json.{Fields, string, object, end, field, get, lookup}
use webtoken.Unicode.{is_utf8, trim, trim_start}
use webtoken.Ssh.{ssh_to_pem}
use webtoken.Algorithms.{is_supported_algorithm, from_str}
use webtoken.Jws.{eq_ignore_ascii_case}
use webtoken.Signing.{sha256}
use webtoken.PyJwk.{PyJwk, key_type, to_key_bytes, value_error}
use webtoken.PyJwk.Public.{public_key, oct}
use webtoken.PyJwk.Public.Extraction.{public_key_is_public}
use webtoken.PyJwk.KeyChoice.{
  bytes_key, key_slice, is_hmac, is_ssh_text, get_key_bytes, other_key_bytes, plain_key_bytes,
  checked_key, min_len, bytes_look_like_public_key,
}
use webtoken.PyJwk.HmacKeys.{IsSecret, get_key_bytes_hmac}
use webtoken.PyJwk.KeyChecks.{
  validate_rsa_consistency, check_curve, check_d, check_ed25519, validate_key_properties,
}
use webtoken.PyJwk.CheckedKeys.{
  IsConsistent, validate_rsa_consistency-iff-IsConsistent, IsEd25519,
  validate_key_properties-IsEd25519,
}
use webtoken.Tests.Instances.{base, hex_decode}
use webtoken.Tests.Numbers.{numbers}
use webtoken.Tests.Keys.{no_draws}

abbrev members : Fields
members =
    field (lit "kty") (string (lit "oct"))
      (field (lit "k") (string (lit "ab")) (field (lit "kid") (string (lit "one")) end))

abbrev oct_key : PyJwk
oct_key = record { inner = object members; algorithm_name = none }

public_key_is_public_example :
    (get (public_key oct_key).inner (lit "k") ≡ none)
    × (to_key_bytes base numbers no_draws (public_key oct_key) false
        ≡ err (value_error (lit "Missing 'k' parameter")))
unfolding lookup eqb lit get
public_key_is_public_example =
    public_key_is_public base numbers no_draws oct oct_key members false (lit "k") refl
      (refl, (refl, (refl, tt))) refl

abbrev pub upper : Text → Text
upper [] = []
upper (c ∷ cs) = (if leb b'a' c && leb c b'z' then c - 32 else c) ∷ upper cs

abbrev pub no_digits : ℕ → Text
no_digits n = []

abbrev pub no_lossy : Bytes → Text
no_lossy bs = []

-- A secret of 32 bytes.
abbrev secret : Bytes
secret = lit "0123456789abcdef0123456789abcdef"

get_key_bytes_hmac_example :
    IsSecret sha256 true secret secret
    ⊎ ((is_ssh_text secret ≡ true) × (ssh_to_pem base no_lossy secret ≡ ok secret))
unfolding key_slice eq_ignore_ascii_case is_hmac get_key_bytes other_key_bytes plain_key_bytes
    checked_key min_len bytes_look_like_public_key is_utf8 trim is_supported_algorithm from_str is
    eqb lit starts_with trim_start
get_key_bytes_hmac_example =
    get_key_bytes_hmac upper no_digits base numbers no_draws no_lossy sha256 (bytes_key secret)
      (lit "HS256") true true secret refl refl refl refl

abbrev rsa_public : PyJwk
rsa_public = record {
  inner = object (
      field (lit "kty") (string (lit "RSA"))
        (field (lit "n") (string (lit "ap")) (field (lit "e") (string (lit "ad")) end)));
  algorithm_name = none;
}

validate_rsa_consistency-iff-IsConsistent_example :
    (validate_rsa_consistency rsa_public ≡ ok tt) ↔ IsConsistent rsa_public.inner
unfolding key_type get lookup eqb lit
validate_rsa_consistency-iff-IsConsistent_example =
    validate_rsa_consistency-iff-IsConsistent rsa_public refl

-- A public key of 32 zero bytes, in the base-16 letters of `Instances`.
abbrev zeros : Text
zeros = lit "aaaaaaaaaaaaaaaaaaaaaaaaaaaaaaaaaaaaaaaaaaaaaaaaaaaaaaaaaaaaaaaa"

abbrev ed_key : PyJwk
ed_key = record {
  inner = object (
      field (lit "kty") (string (lit "OKP")) (
        field (lit "crv") (string (lit "Ed25519"))
          (field (lit "x") (string zeros) (field (lit "d") (string zeros) end))));
  algorithm_name = none;
}

validate_key_properties-IsEd25519_example : IsEd25519 base ed_key.inner
unfolding validate_key_properties check_curve check_ed25519 check_d get lookup eqb is lit base
    hex_decode
validate_key_properties-IsEd25519_example = validate_key_properties-IsEd25519 base ed_key refl
