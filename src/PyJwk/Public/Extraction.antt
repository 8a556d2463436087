-- ===== src/PyJwk/Public/Extraction.antt =====
-- PyJWK::to_key_bytes of src/pyjwt_jwk_api.rs on what PyJWK::public_key makes.
use webtoken.Common.{
  ℕ, ◌≡◌, sym, ap, ◌∙◌, Bool, true, false, Option, none, some, Bytes, Text, Result, err, map_err,
  if◌then◌else◌, lit, eqb, is,
}
use Prim.Native.String.{String}
use webtoken.External.{Base64}
use webtoken.BigNumbers.{BigNumbers}
use webtoken.Json.{Value, Fields, object, get, and_then_str}
use webtoken.Json.Maps.{IsUnique}
use webtoken.Jwk.{text_at}
use webtoken.Jwk.Rsa.{get_biguint}
use webtoken.Jwk.Ec.{ec_bytes}
use webtoken.Jwk.Extract.{extract_key_bytes, oct_bytes, okp_bytes, rsa_bytes}
use webtoken.PyJwk.{PyError, PyJwk, to_key_bytes, value_error}
use webtoken.PyJwk.Public.{
  public_key, get-public_key, is_private, KeyType, rsa, ec, oct, okp, kty_name,
}

module _ (b64 : Base64) (big : BigNumbers) (fill : ℕ → ℕ → ℕ → Option Bytes) where
  -- What is left of a key: no private member, and the public ones as they were.
  record IsPublicPart (v w : Value) : Type 0 where
    kty : get v (lit "kty") ≡ get w (lit "kty")
    n : get v (lit "n") ≡ get w (lit "n")
    e : get v (lit "e") ≡ get w (lit "e")
    x : get v (lit "x") ≡ get w (lit "x")
    y : get v (lit "y") ≡ get w (lit "y")
    d : get v (lit "d") ≡ none
    k : get v (lit "k") ≡ none

  public_key-IsPublicPart :
      (key : PyJwk) (m : Fields)
      → key.inner ≡ object m
      → IsUnique m
      → IsPublicPart (public_key key).inner key.inner
  unfolding eqb lit
  public_key-IsPublicPart key m o u = record {
    kty = get-public_key key m (lit "kty") o u;
    n = get-public_key key m (lit "n") o u;
    e = get-public_key key m (lit "e") o u;
    x = get-public_key key m (lit "x") o u;
    y = get-public_key key m (lit "y") o u;
    d = get-public_key key m (lit "d") o u;
    k = get-public_key key m (lit "k") o u;
  }

  -- What to_key_bytes gives for the public key: the public bytes of the key, and for a secret none.
  abbrev pub public_bytes : KeyType → PyJwk → Result PyError Bytes
  public_bytes oct key = err (value_error (lit "Missing 'k' parameter"))
  public_bytes _ key = to_key_bytes b64 big fill key true

  oct_public :
      (v w : Value) → IsPublicPart v w → oct_bytes b64 v ≡ err (lit "Missing 'k' parameter")
  unfolding oct_bytes
  oct_public v w part = rw part.k

  okp_public :
      (v w : Value) (public_only : Bool)
      → IsPublicPart v w
      → okp_bytes b64 v public_only ≡ okp_bytes b64 w true
  unfolding okp_bytes
  okp_public v w true part = rw part.x
  okp_public v w false part = rw (okp_bytes, part.d, part.x)

  ec_public :
      (v w : Value) (public_only : Bool)
      → IsPublicPart v w
      → ec_bytes b64 v public_only ≡ ec_bytes b64 w true
  unfolding ec_bytes
  ec_public v w true part = rw (part.x, part.y)
  ec_public v w false part = rw (ec_bytes, part.d, part.x, part.y)

  number_public :
      (v w : Value) (name : String)
      → get v (lit name) ≡ get w (lit name)
      → get_biguint b64 v name ≡ get_biguint b64 w name
  unfolding get_biguint
  number_public v w name e = rw e

  rsa_public :
      (v w : Value) (public_only : Bool)
      → IsPublicPart v w
      → rsa_bytes b64 big fill v public_only ≡ rsa_bytes b64 big fill w true
  unfolding rsa_bytes
  rsa_public v w true part = rw (number_public v w "n" part.n, number_public v w "e" part.e)
  rsa_public v w false part =
      rw (number_public v w "n" part.n, number_public v w "e" part.e, part.d)

  abbrev branch_of : KeyType → Value → Bool → Result Text Bytes
  branch_of rsa v public_only = rsa_bytes b64 big fill v public_only
  branch_of ec v public_only = ec_bytes b64 v public_only
  branch_of oct v public_only = oct_bytes b64 v
  branch_of okp v public_only = okp_bytes b64 v public_only

  -- The branch of extract_key_bytes for a type of key.
  branch :
      (t : KeyType) (v : Value) (public_only : Bool)
      → text_at v "kty" ≡ some (kty_name t)
      → extract_key_bytes b64 big fill v public_only ≡ branch_of t v public_only
  unfolding extract_key_bytes is eqb lit
  branch rsa v public_only e = rw e
  branch ec v public_only e = rw e
  branch oct v public_only e = rw e
  branch okp v public_only e = rw e

  extract_public :
      (t : KeyType) (v : Value) (w : PyJwk) (public_only : Bool)
      → IsPublicPart v w.inner
      → text_at w.inner "kty" ≡ some (kty_name t)
      → map_err value_error (extract_key_bytes b64 big fill v public_only) ≡ public_bytes t w
  unfolding to_key_bytes
  extract_public oct v w public_only part kty =
      ap (map_err value_error)
        (branch oct v public_only (ap and_then_str part.kty ∙ kty) ∙ oct_public v w.inner part)
  extract_public rsa v w public_only part kty = ap (map_err value_error) (
      branch rsa v public_only (ap and_then_str part.kty ∙ kty)
      ∙ rsa_public v w.inner public_only part
      ∙ sym (branch rsa w.inner true kty))
  extract_public ec v w public_only part kty = ap (map_err value_error) (
      branch ec v public_only (ap and_then_str part.kty ∙ kty)
      ∙ ec_public v w.inner public_only part
      ∙ sym (branch ec w.inner true kty))
  extract_public okp v w public_only part kty = ap (map_err value_error) (
      branch okp v public_only (ap and_then_str part.kty ∙ kty)
      ∙ okp_public v w.inner public_only part
      ∙ sym (branch okp w.inner true kty))

  -- For a JWK with unique members and one of the four types of keys, a name that RFC 7518 or RFC 8037 has
  -- as a private parameter is not found in its public key, and each other member has the value that it
  -- had; to_key_bytes on the public key gives, whether private bytes are asked for or not, the public bytes
  -- of the JWK, and for the type "oct" the error for a missing "k".
  pub public_key_is_public :
      (t : KeyType) (key : PyJwk) (m : Fields) (public_only : Bool) (name : Text)
      → key.inner ≡ object m
      → IsUnique m
      → text_at key.inner "kty" ≡ some (kty_name t)
      → (get (public_key key).inner name ≡ (if is_private name then none else get key.inner name))
        × (to_key_bytes b64 big fill (public_key key) public_only ≡ public_bytes t key)
  unfolding to_key_bytes
  public_key_is_public t key m public_only name o u kty = (
    get-public_key key m name o u,
    extract_public t (public_key key).inner key public_only (public_key-IsPublicPart key m o u) kty,
  )
