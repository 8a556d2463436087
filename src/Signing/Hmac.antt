-- ===== src/Signing/Hmac.antt =====
-- The HMAC algorithms of `sign` and `verify` of src/crypto.rs.
use webtoken.Common.{
  ◌≡◌, refl, ◌↔◌, Bytes, Text, AreBytes, Result, ok, guard, guard-eq-ok, lit, eqb, is, eqb_refl,
  eqb→eq,
}
use webtoken.Errors.{WebtokenError, invalid_signature}
use webtoken.KeyBytes.{decode_key_bytes}
use webtoken.External.{Base64, IsKeyPair}
use webtoken.Signing.{
  Schemes, Hash, sha256, sha384, sha512, sign, verify, sign_der, verify_der, signer,
}

abbrev pub hmac_name : Hash → Text
hmac_name sha256 = lit "HS256"
hmac_name sha384 = lit "HS384"
hmac_name sha512 = lit "HS512"

abbrev made : Bytes → Result WebtokenError Bytes
made tag = ok tag

compare :
    (tag signature : Bytes)
    → (guard (eqb tag signature) invalid_signature ≡ ok tt) ↔ (made tag ≡ ok signature)
compare tag signature = (
  λ h. let same = eqb→eq tag signature (guard-eq-ok _ _ h) in cc,
  λ e. let same : tag ≡ signature = cc in rw same (rw (eqb_refl signature)),
)

module _ (s : Schemes) (b64 : Base64) where
  -- For HS256, HS384 and HS512 `sign` does not fail, and `verify` accepts exactly the one signature that
  -- `sign` makes with the same key and message.
  pub verify-iff-sign :
      (h : Hash) (key message signature : Bytes)
      → ((made_by : Bytes) × (sign s b64 (hmac_name h) key message ≡ ok made_by))
        × ((verify s b64 (hmac_name h) key message signature ≡ ok tt)
            ↔ (sign s b64 (hmac_name h) key message ≡ ok signature))
  unfolding sign verify sign_der verify_der is eqb lit
  verify-iff-sign sha256 key message signature =
      ((_, refl), compare (s.hmac sha256 (decode_key_bytes b64 key) message) signature)
  verify-iff-sign sha384 key message signature =
      ((_, refl), compare (s.hmac sha384 (decode_key_bytes b64 key) message) signature)
  verify-iff-sign sha512 key message signature =
      ((_, refl), compare (s.hmac sha512 (decode_key_bytes b64 key) message) signature)

  -- With an HMAC that consists of bytes, every key is a pair with itself under the three HMAC algorithms.
  pub hmac-IsKeyPair :
      (h : Hash) (key : Bytes)
      → ((hash : Hash) (k message : Bytes) → AreBytes (s.hmac hash k message))
      → IsKeyPair (signer s b64) (hmac_name h) key key
  unfolding signer sign sign_der is eqb lit
  hmac-IsKeyPair h key bytes = record {
    signs = signs h;
    accepts = λ message sig e. (verify-iff-sign h key message sig).1.1 e;
  }
    where
      signs :
          (h : Hash) (message : Bytes)
          → (sig : Bytes) × (sign s b64 (hmac_name h) key message ≡ ok sig) × AreBytes sig
      signs sha256 message = (_, refl, bytes sha256 _ message)
      signs sha384 message = (_, refl, bytes sha384 _ message)
      signs sha512 message = (_, refl, bytes sha512 _ message)
