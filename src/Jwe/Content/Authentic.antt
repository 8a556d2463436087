-- ===== src/Jwe/Content/Authentic.antt =====
-- What `decrypt_content` of src/jwe.rs has checked for the composites of AES-CBC and HMAC.
use webtoken.Common.{
  ◌/◌, ◌≡◌, sym, ◌∙◌, Bytes, Text, ok, guard, >>=-eq-ok, guard-eq-ok, length, take, drop, eqb,
  eqb→eq, arith,
}
use webtoken.Errors.{invalid_signature}
use webtoken.Jwe.Ciphers.{CipherSuite, aes_cbc_decrypt, hmac_sign}
use webtoken.Jwe.Content.{hmac_alg, mac_input, first_half, composite_tag, decrypt_cbc_hmac}

-- When a composite is decrypted, the method names an HMAC, the tag is the first half of that HMAC under
-- the first half of the key, over additional data, nonce, ciphertext and the length of the additional
-- data, and the result is the CBC decryption under the other half of the key.
pub decrypt_cbc_hmac_authentic :
    (c : CipherSuite) (enc : Text) (cek ct aad nonce tag plaintext : Bytes)
    → decrypt_cbc_hmac c enc cek ct aad nonce tag ≡ ok plaintext
    → (alg : Text) × (full_tag : Bytes) × (hmac_alg enc ≡ ok alg)
      × (hmac_sign c (take (length cek / 2) cek) (mac_input aad nonce ct) alg ≡ ok full_tag)
      × (tag ≡ first_half full_tag)
      × (aes_cbc_decrypt c (drop (length cek / 2) cek) nonce ct ≡ ok plaintext)
unfolding decrypt_cbc_hmac composite_tag
decrypt_cbc_hmac_authentic c enc cek ct aad nonce tag plaintext h =
    let (expected, tagged, h1) = >>=-eq-ok (composite_tag c enc cek aad nonce ct) _ h in
    let (_, same, h2) = >>=-eq-ok (guard (eqb tag expected) invalid_signature) _ h1 in
    let (alg, named, h3) = >>=-eq-ok (hmac_alg enc) _ tagged in
    let (full_tag, signed, h4) =
      >>=-eq-ok (hmac_sign c (take (length cek / 2) cek) (mac_input aad nonce ct) alg) _ h3 in
    let is_half : first_half full_tag ≡ expected = ground arith in
    (
      alg,
      full_tag,
      named,
      signed,
      eqb→eq tag expected (guard-eq-ok (eqb tag expected) _ same) ∙ sym is_half,
      h2,
    )
