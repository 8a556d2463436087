-- ===== src/Jwe/Content/Output.antt =====
-- What `encrypt_content` of src/jwe.rs returns consists of bytes, so that it can be written in base64.
use webtoken.Common.{
  ℕ, zero, suc, ◌/◌, ◌≡◌, inl, inr, ◌||◌, [], ◌∷◌, none, some, Bytes, Text, AreBytes, Result, ok,
  guard, ok_or, >>=-eq-ok, ◌==◌, Bool-cases, length, take, drop, lit, is, arith,
}
use webtoken.Errors.{WebtokenError, generic, invalid_key, invalid_token}
use webtoken.Signing.{Hash, sha256, sha384, sha512}
use webtoken.Jwe.Ciphers.{
  CipherSuite, aes_cbc_encrypt, aes_gcm_encrypt, c20p_encrypt, encrypt_xchacha20, hmac_sign,
}
use webtoken.Jwe.Content.{
  is_gcm, is_cbc_hmac, hmac_alg, mac_input, first_half, composite_tag, encrypt_cbc_hmac,
  encrypt_content,
}
use webtoken.Jwe.Content.RoundTrip.{ok_or-eq-ok}

-- For a plaintext of bytes the ciphers return bytes.
pub record OutputLaws (c : CipherSuite) : Type 0 where
  pub cbc_bytes :
      (key iv plaintext ct : Bytes)
      → AreBytes plaintext
      → c.cbc_encrypt key iv plaintext ≡ some ct
      → AreBytes ct
  pub gcm_bytes :
      (key nonce aad plaintext ct tag : Bytes)
      → AreBytes plaintext
      → c.gcm_seal key nonce aad plaintext ≡ some (ct, tag)
      → AreBytes ct × AreBytes tag
  pub c20p_bytes :
      (key nonce aad plaintext : Bytes)
      → AreBytes plaintext
      → AreBytes (c.c20p_seal key nonce aad plaintext).0
        × AreBytes (c.c20p_seal key nonce aad plaintext).1
  pub xc20p_bytes :
      (key nonce aad plaintext : Bytes)
      → AreBytes plaintext
      → AreBytes (c.xc20p_seal key nonce aad plaintext).0
        × AreBytes (c.xc20p_seal key nonce aad plaintext).1
  pub hmac_bytes : (h : Hash) (key message : Bytes) → AreBytes (c.hmac h key message)
  pub kw_bytes :
      (kek bytes wrapped : Bytes)
      → AreBytes bytes
      → c.kw_wrap kek bytes ≡ some wrapped
      → AreBytes wrapped

abbrev pub DrawsBytes : (ℕ → Result WebtokenError Bytes) → Type 0
DrawsBytes draw = (k : ℕ) (bytes : Bytes) → draw k ≡ ok bytes → AreBytes bytes

-- Ciphertext, tag and nonce are bytes.
abbrev pub Written : Bytes → Bytes → Bytes → Type 0
Written ct tag nonce = AreBytes ct × AreBytes tag × AreBytes nonce

take-AreBytes : (n : ℕ) (bytes : Bytes) → AreBytes bytes → AreBytes (take n bytes)
take-AreBytes zero bytes h = tt
take-AreBytes (suc n) [] h = tt
take-AreBytes (suc n) (b ∷ bytes) h = (h.0, take-AreBytes n bytes h.1)

module _ {c : CipherSuite} (laws : OutputLaws c) where
  hmac_sign-AreBytes :
      (key message : Bytes) (alg : Text) (tag : Bytes)
      → hmac_sign c key message alg ≡ ok tag
      → AreBytes tag
  unfolding hmac_sign
  hmac_sign-AreBytes key message alg tag h = ground (
    arith,
    laws.hmac_bytes sha256 key message,
    laws.hmac_bytes sha384 key message,
    laws.hmac_bytes sha512 key message,
  )

  module _ (draw : ℕ → Result WebtokenError Bytes) (drawn : DrawsBytes draw) where
    gcm-Written :
        (key plaintext aad ct tag nonce : Bytes)
        → AreBytes plaintext
        → aes_gcm_encrypt c draw key none plaintext aad ≡ ok (ct, tag, nonce)
        → Written ct tag nonce
    unfolding aes_gcm_encrypt
    gcm-Written key plaintext aad ct tag nonce pb h =
        let (_, sized, h1) =
          >>=-eq-ok
            (guard (length key == 16 || length key == 32)
              (invalid_token (lit "AES-GCM Key must be 16 or 32 bytes")))
            _ h in
        let (n, e, h2) = >>=-eq-ok (draw 12) _ h1 in
        let ((ct', tag'), sealed, h3) =
          >>=-eq-ok
            (ok_or (c.gcm_seal key n aad plaintext) (generic (lit "AES-GCM Encrypt Failed"))) _
            h2 in
        let same_nonce : n ≡ nonce = ground arith in
        let same_ct : ct' ≡ ct = ground arith in
        let same_tag : tag' ≡ tag = ground arith in
        let (first, second) =
          laws.gcm_bytes key n aad plaintext ct' tag' pb (ok_or-eq-ok _ _ sealed) in
        (rw same_ct at first, rw same_tag at second, rw same_nonce at (drawn 12 n e))

    c20p-Written :
        (key plaintext aad ct tag nonce : Bytes)
        → AreBytes plaintext
        → c20p_encrypt c draw key none plaintext aad ≡ ok (ct, tag, nonce)
        → Written ct tag nonce
    unfolding c20p_encrypt
    c20p-Written key plaintext aad ct tag nonce pb h =
        let (_, sized, h1) =
          >>=-eq-ok (guard (length key == 32) (invalid_key (lit "C20P requires a 32-byte key"))) _
            h in
        let (n, e, h2) = >>=-eq-ok (draw 12) _ h1 in
        let same_nonce : n ≡ nonce = ground arith in
        let same_ct : (c.c20p_seal key n aad plaintext).0 ≡ ct = ground arith in
        let same_tag : (c.c20p_seal key n aad plaintext).1 ≡ tag = ground arith in
        let (first, second) = laws.c20p_bytes key n aad plaintext pb in
        (rw same_ct at first, rw same_tag at second, rw same_nonce at (drawn 12 n e))

    xc20p-Written :
        (key plaintext aad ct tag nonce : Bytes)
        → AreBytes plaintext
        → encrypt_xchacha20 c draw key plaintext aad none ≡ ok (ct, tag, nonce)
        → Written ct tag nonce
    unfolding encrypt_xchacha20
    xc20p-Written key plaintext aad ct tag nonce pb h =
        let (_, sized, h1) =
          >>=-eq-ok
            (guard (length key == 32) (invalid_key (lit "XChaCha20 requires a 32-byte key"))) _ h in
        let (n, e, h2) = >>=-eq-ok (draw 24) _ h1 in
        let same_nonce : n ≡ nonce = ground arith in
        let same_ct : (c.xc20p_seal key n aad plaintext).0 ≡ ct = ground arith in
        let same_tag : (c.xc20p_seal key n aad plaintext).1 ≡ tag = ground arith in
        let (first, second) = laws.xc20p_bytes key n aad plaintext pb in
        (rw same_ct at first, rw same_tag at second, rw same_nonce at (drawn 24 n e))

    cbc_hmac-Written :
        (enc : Text) (cek plaintext aad ct tag nonce : Bytes)
        → AreBytes plaintext
        → encrypt_cbc_hmac c draw enc cek plaintext aad ≡ ok (ct, tag, nonce)
        → Written ct tag nonce
    unfolding encrypt_cbc_hmac aes_cbc_encrypt composite_tag
    cbc_hmac-Written enc cek plaintext aad ct tag nonce pb h =
        let enc_key = drop (length cek / 2) cek in
        let (n, e, h1) = >>=-eq-ok (draw 16) _ h in
        let (ct', made, h2) = >>=-eq-ok (aes_cbc_encrypt c enc_key n plaintext) _ h1 in
        let (tag', tagged, h3) = >>=-eq-ok (composite_tag c enc cek aad n ct') _ h2 in
        let (_, _, made1) =
          >>=-eq-ok
            (guard (length enc_key == 16 || (length enc_key == 24 || length enc_key == 32))
              (invalid_token (lit "Invalid AES Key Length")))
            _ made in
        let (_, _, made2) =
          >>=-eq-ok (guard (length n == 16) (invalid_token (lit "IV must be 16 bytes"))) _ made1 in
        let (alg, _, t1) = >>=-eq-ok (hmac_alg enc) _ tagged in
        let (full_tag, signed, t2) =
          >>=-eq-ok (hmac_sign c (take (length cek / 2) cek) (mac_input aad n ct') alg) _ t1 in
        let half : first_half full_tag ≡ tag' = ground arith in
        let same_nonce : n ≡ nonce = ground arith in
        let same_ct : ct' ≡ ct = ground arith in
        let same_tag : tag' ≡ tag = ground arith in
        (
          rw same_ct at (laws.cbc_bytes enc_key n plaintext ct' pb (ok_or-eq-ok _ _ made2)),
          rw (half, same_tag) at
              (take-AreBytes (length full_tag / 2) full_tag
                (hmac_sign-AreBytes _ _ alg full_tag signed)),
          rw same_nonce at (drawn 16 n e),
        )

    pub encrypt_content-Written :
        (enc : Text) (cek payload aad ct tag nonce : Bytes)
        → AreBytes payload
        → encrypt_content c draw enc cek payload aad ≡ ok (ct, tag, nonce)
        → Written ct tag nonce
    unfolding encrypt_content
    encrypt_content-Written enc cek payload aad ct tag nonce pb h = elim (Bool-cases (is_gcm enc)) [
      | inl e ↦ gcm-Written cek payload aad ct tag nonce pb (rw e at h)
      | inr e ↦ elim (Bool-cases (is enc "XC20P")) [
        | inl f ↦ xc20p-Written cek payload aad ct tag nonce pb (rw (e, f) at h)
        | inr f ↦ elim (Bool-cases (is enc "C20P")) [
          | inl g ↦ c20p-Written cek payload aad ct tag nonce pb (rw (e, f, g) at h)
          | inr g ↦ elim (Bool-cases (is_cbc_hmac enc)) [
            | inl k ↦ cbc_hmac-Written enc cek payload aad ct tag nonce pb (rw (e, f, g, k) at h)
            | inr k ↦ cc (rw (e, f, g, k) at h)
          ]
        ]
      ]
    ]
