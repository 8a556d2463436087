-- ===== src/Jwe/Content/RoundTrip.antt =====
-- `decrypt_content` of src/jwe.rs on what `encrypt_content` returns.
use webtoken.Common.{
  ℕ, ◌/◌, ◌≡◌, inl, inr, ◌||◌, ◌++◌, Option, none, some, Bytes, Text, Result, ok, guard, ok_or,
  >>=-eq-ok, guard-eq-ok, ◌==◌, Bool-cases, length, drop, lit, is, eqb_refl, arith,
}
use webtoken.Errors.{WebtokenError, generic, invalid_key, invalid_token}
use webtoken.Jwe.Ciphers.{
  CipherSuite, aes_cbc_encrypt, aes_cbc_decrypt, aes_gcm_encrypt, aes_gcm_decrypt, c20p_encrypt,
  c20p_decrypt, encrypt_xchacha20, decrypt_xchacha20,
}
use webtoken.Jwe.Content.{
  is_gcm, is_cbc_hmac, composite_tag, encrypt_cbc_hmac, decrypt_cbc_hmac, encrypt_content,
  decrypt_content,
}

-- What the libraries document of their ciphers: decryption with the key, nonce and additional data of
-- the encryption gives the plaintext back, the tags of the ChaCha20 ciphers have 16 bytes, and all output
-- consists of bytes.
pub record CipherLaws (c : CipherSuite) : Type 0 where
  pub cbc_decrypts :
      (key iv plaintext ct : Bytes)
      → c.cbc_encrypt key iv plaintext ≡ some ct
      → c.cbc_decrypt key iv ct ≡ some plaintext
  pub gcm_opens :
      (key nonce aad plaintext ct tag : Bytes)
      → c.gcm_seal key nonce aad plaintext ≡ some (ct, tag)
      → c.gcm_open key nonce aad (ct ++ tag) ≡ some plaintext
  pub c20p_opens :
      (key nonce aad plaintext : Bytes)
      → c.c20p_open key nonce aad
          (c.c20p_seal key nonce aad plaintext).0
          (c.c20p_seal key nonce aad plaintext).1
        ≡ some plaintext
  pub length-c20p_tag :
      (key nonce aad plaintext : Bytes) → length (c.c20p_seal key nonce aad plaintext).1 ≡ 16
  pub xc20p_opens :
      (key nonce aad plaintext : Bytes)
      → c.xc20p_open key nonce aad
          (c.xc20p_seal key nonce aad plaintext).0
          (c.xc20p_seal key nonce aad plaintext).1
        ≡ some plaintext
  pub length-xc20p_tag :
      (key nonce aad plaintext : Bytes) → length (c.xc20p_seal key nonce aad plaintext).1 ≡ 16

pub ok_or-eq-ok {ℓ} :
    {E : Type 0} {A : Type ℓ} (o : Option A) (e : E) {a : A} → ok_or o e ≡ ok a → o ≡ some a
ok_or-eq-ok none e h = cc
ok_or-eq-ok (some b) e h = cc

-- A draw has the length that was asked for.
abbrev pub DrawsFully : (ℕ → Result WebtokenError Bytes) → Type 0
DrawsFully draw = (k : ℕ) (bytes : Bytes) → draw k ≡ ok bytes → length bytes ≡ k

module _ {c : CipherSuite} (laws : CipherLaws c) (draw : ℕ → Result WebtokenError Bytes)
    (full : DrawsFully draw) where
  gcm_decrypts :
      (key plaintext aad ct tag nonce : Bytes)
      → aes_gcm_encrypt c draw key none plaintext aad ≡ ok (ct, tag, nonce)
      → aes_gcm_decrypt c key nonce ct tag aad ≡ ok plaintext
  unfolding aes_gcm_encrypt aes_gcm_decrypt
  gcm_decrypts key plaintext aad ct tag nonce h =
      let (_, sized, h1) =
        >>=-eq-ok
          (guard (length key == 16 || length key == 32)
            (invalid_token (lit "AES-GCM Key must be 16 or 32 bytes")))
          _ h in
      let (n, drawn, h2) = >>=-eq-ok (draw 12) _ h1 in
      let ((ct', tag'), sealed, h3) =
        >>=-eq-ok (ok_or (c.gcm_seal key n aad plaintext) (generic (lit "AES-GCM Encrypt Failed")))
          _ h2 in
      let same_nonce : n ≡ nonce = ground arith in
      let same_ct : ct' ≡ ct = ground arith in
      let same_tag : tag' ≡ tag = ground arith in
      let opened = laws.gcm_opens key n aad plaintext ct' tag' (ok_or-eq-ok _ _ sealed) in
      rw sized (rw (← same_nonce) (rw (full 12 n drawn) (rw (← same_ct, ← same_tag) (rw opened))))

  c20p_decrypts :
      (key plaintext aad ct tag nonce : Bytes)
      → c20p_encrypt c draw key none plaintext aad ≡ ok (ct, tag, nonce)
      → c20p_decrypt c key nonce ct tag aad ≡ ok plaintext
  unfolding c20p_encrypt c20p_decrypt
  c20p_decrypts key plaintext aad ct tag nonce h =
      let (_, sized, h1) =
        >>=-eq-ok (guard (length key == 32) (invalid_key (lit "C20P requires a 32-byte key"))) _
          h in
      let (n, drawn, h2) = >>=-eq-ok (draw 12) _ h1 in
      let same_nonce : n ≡ nonce = ground arith in
      let same_ct : (c.c20p_seal key n aad plaintext).0 ≡ ct = ground arith in
      let same_tag : (c.c20p_seal key n aad plaintext).1 ≡ tag = ground arith in
      rw sized (
        rw (← same_nonce) (
          rw (full 12 n drawn) (
            rw (← same_ct, ← same_tag)
              (rw (laws.length-c20p_tag key n aad plaintext)
                (rw (laws.c20p_opens key n aad plaintext))))))

  xc20p_decrypts :
      (key plaintext aad ct tag nonce : Bytes)
      → encrypt_xchacha20 c draw key plaintext aad none ≡ ok (ct, tag, nonce)
      → decrypt_xchacha20 c key ct aad nonce tag ≡ ok plaintext
  unfolding encrypt_xchacha20 decrypt_xchacha20
  xc20p_decrypts key plaintext aad ct tag nonce h =
      let (_, sized, h1) =
        >>=-eq-ok (guard (length key == 32) (invalid_key (lit "XChaCha20 requires a 32-byte key")))
          _ h in
      let (n, drawn, h2) = >>=-eq-ok (draw 24) _ h1 in
      let same_nonce : n ≡ nonce = ground arith in
      let same_ct : (c.xc20p_seal key n aad plaintext).0 ≡ ct = ground arith in
      let same_tag : (c.xc20p_seal key n aad plaintext).1 ≡ tag = ground arith in
      rw (guard-eq-ok (length key == 32) _ sized) (
        rw (← same_nonce) (
          rw (full 24 n drawn) (
            rw (← same_ct, ← same_tag)
              (rw (laws.length-xc20p_tag key n aad plaintext)
                (rw (laws.xc20p_opens key n aad plaintext))))))

  cbc_decrypts :
      (key iv plaintext ct : Bytes)
      → aes_cbc_encrypt c key iv plaintext ≡ ok ct
      → aes_cbc_decrypt c key iv ct ≡ ok plaintext
  unfolding aes_cbc_encrypt aes_cbc_decrypt
  cbc_decrypts key iv plaintext ct h =
      let (_, sized, h1) =
        >>=-eq-ok
          (guard (length key == 16 || (length key == 24 || length key == 32))
            (invalid_token (lit "Invalid AES Key Length")))
          _ h in
      let (_, whole, h2) =
        >>=-eq-ok (guard (length iv == 16) (invalid_token (lit "IV must be 16 bytes"))) _ h1 in
      rw sized (rw whole (rw (laws.cbc_decrypts key iv plaintext ct (ok_or-eq-ok _ _ h2))))

  cbc_hmac_decrypts :
      (enc : Text) (cek plaintext aad ct tag nonce : Bytes)
      → encrypt_cbc_hmac c draw enc cek plaintext aad ≡ ok (ct, tag, nonce)
      → decrypt_cbc_hmac c enc cek ct aad nonce tag ≡ ok plaintext
  unfolding encrypt_cbc_hmac decrypt_cbc_hmac
  cbc_hmac_decrypts enc cek plaintext aad ct tag nonce h =
      let (n, drawn, h1) = >>=-eq-ok (draw 16) _ h in
      let (ct', made, h2) =
        >>=-eq-ok (aes_cbc_encrypt c (drop (length cek / 2) cek) n plaintext) _ h1 in
      let (tag', tagged, h3) = >>=-eq-ok (composite_tag c enc cek aad n ct') _ h2 in
      let same_nonce : n ≡ nonce = ground arith in
      let same_ct : ct' ≡ ct = ground arith in
      let same_tag : tag' ≡ tag = ground arith in
      rw (← same_nonce, ← same_ct, ← same_tag)
        (rw tagged
          (rw (eqb_refl tag') (cbc_decrypts (drop (length cek / 2) cek) n plaintext ct' made)))

  -- Under the laws of the ciphers and with draws of full length, what `encrypt_content` returns, for
  -- any encryption method, is decrypted to the payload by `decrypt_content` with the same key and
  -- additional data.
  pub decrypt_content-encrypt_content :
      (enc : Text) (cek payload aad ct tag nonce : Bytes)
      → encrypt_content c draw enc cek payload aad ≡ ok (ct, tag, nonce)
      → decrypt_content c enc cek ct aad nonce tag ≡ ok payload
  unfolding encrypt_content decrypt_content
  decrypt_content-encrypt_content enc cek payload aad ct tag nonce h =
      elim (Bool-cases (is_gcm enc)) [
        | inl e ↦ rw e (gcm_decrypts cek payload aad ct tag nonce (rw e at h))
        | inr e ↦ elim (Bool-cases (is enc "XC20P")) [
          | inl f ↦ rw (e, f) (xc20p_decrypts cek payload aad ct tag nonce (rw (e, f) at h))
          | inr f ↦ elim (Bool-cases (is enc "C20P")) [
            | inl g ↦ rw (e, f, g) (c20p_decrypts cek payload aad ct tag nonce (rw (e, f, g) at h))
            | inr g ↦ elim (Bool-cases (is_cbc_hmac enc)) [
              | inl k ↦
                  rw (e, f, g, k)
                    (cbc_hmac_decrypts enc cek payload aad ct tag nonce (rw (e, f, g, k) at h))
              | inr k ↦ cc (rw (e, f, g, k) at h)
            ]
          ]
        ]
      ]
