-- ===== src/Jwe/RoundTrip.antt =====
-- `decrypt_compact` of src/jwe.rs on the tokens of `encrypt_compact`, for a key that both sides share.
use webtoken.Common.{
  ℕ, ◌≤◌, ◌≡◌, sym, ap, ◌∙◌, inl, inr, true, ◌||◌, [], ◌∷◌, some, Bytes, Text, AreBytes, Result, ok,
  err, panic, guard, map_err, >>=-eq-ok, leb, ◌==◌, Bool-cases, length, lit, eqb, is, ◌⊙◌,
  split_dots, split_dots-join, split_dots-NoDot, arith,
}
use webtoken.Errors.{WebtokenError, generic, invalid_token}
use webtoken.External.{Base64, Base64Laws, JsonCodec}
use webtoken.Json.{Value, Fields, string, object, lookup, get, and_then_str}
use webtoken.PyUtils.{url_text-NoDot, decode_base64_permissive-url_encode}
use webtoken.Primitives.{Primitives}
use webtoken.Api.RoundTrip.{HeaderText}
use webtoken.Jwe.{
  Deflate, is_def, text_of, compress, decompress, encrypt_compact, decrypt_parts, decrypt_compact,
}
use webtoken.Jwe.Ciphers.{CipherSuite, aes_key_wrap, aes_key_unwrap}
use webtoken.Jwe.Content.{get_cek_length, encrypt_content, decrypt_content}
use webtoken.Jwe.Content.RoundTrip.{
  CipherLaws, DrawsFully, ok_or-eq-ok, decrypt_content-encrypt_content,
}
use webtoken.Jwe.Content.Output.{OutputLaws, DrawsBytes, encrypt_content-Written}
use webtoken.Jwe.KeyManagement.{
  JweDraws, JsonNumbers, is_oaep, is_key_wrap, wrap_drawn, manage_cek_encrypt, manage_cek_decrypt,
}

-- The algorithms of a shared key: direct use, and AES key wrapping.
pub data SharedKey : Type 0 where
  direct a128kw a192kw a256kw : SharedKey

unfoldable pub alg_name : SharedKey → Text
alg_name direct = lit "dir"
alg_name a128kw = lit "A128KW"
alg_name a192kw = lit "A192KW"
alg_name a256kw = lit "A256KW"

-- A wrapped key is unwrapped with the same key, and is 8 bytes at least.
pub record KeyWrapLaws (c : CipherSuite) : Type 0 where
  pub unwraps :
      (kek bytes wrapped : Bytes)
      → c.kw_wrap kek bytes ≡ some wrapped
      → c.kw_unwrap kek wrapped ≡ some bytes
  pub wrapped_length :
      (kek bytes wrapped : Bytes) → c.kw_wrap kek bytes ≡ some wrapped → 8 ≤ length wrapped

-- What is compressed is decompressed, and bytes are compressed to bytes.
pub record DeflateLaws (z : Deflate) : Type 0 where
  pub compressed_bytes :
      (payload out : Bytes) → AreBytes payload → z.deflate payload ≡ ok out → AreBytes out
  pub inflates : (payload out : Bytes) → z.deflate payload ≡ ok out → z.inflate out ≡ ok payload

abbrev made : Text → Result WebtokenError Text
made t = ok t

pub ok-inj : (s t : Text) → made s ≡ made t → s ≡ t
ok-inj s t e = cc

map_err-eq-ok :
    {E G : Type 0} {A : Type 0} (f : E → G) (r : Result E A) {a : A} → map_err f r ≡ ok a → r ≡ ok a
map_err-eq-ok f (ok b) h = cc
map_err-eq-ok f (err e) h = cc
map_err-eq-ok f panic h = cc

decompress-compress :
    {z : Deflate}
    → DeflateLaws z
    → (header : Value) (payload out : Bytes) → compress z header payload ≡ ok out
    → decompress z header out ≡ ok payload
unfolding compress decompress
decompress-compress {z} laws header payload out h =
    elim (Bool-cases (is_def (and_then_str (get header (lit "zip"))))) [
      | inl zipped ↦ rw zipped (
          rw (
            laws.inflates payload out (map_err-eq-ok generic (z.deflate payload) (rw zipped at h))))
      | inr plain ↦ rw plain (let same : ok payload ≡ ok out = rw plain at h in sym same)
    ]

compress-AreBytes :
    {z : Deflate}
    → DeflateLaws z
    → (header : Value) (payload out : Bytes) → AreBytes payload
    → compress z header payload ≡ ok out
    → AreBytes out
unfolding compress
compress-AreBytes {z} laws header payload out pb h =
    elim (Bool-cases (is_def (and_then_str (get header (lit "zip"))))) [
      | inl zipped ↦
          laws.compressed_bytes payload out pb
            (map_err-eq-ok generic (z.deflate payload) (rw zipped at h))
      | inr plain ↦
          let same : ok payload ≡ ok out = rw plain at h in rw (ok-inj payload out same) at pb
    ]

module _ {c : CipherSuite} (laws : KeyWrapLaws c) (output : OutputLaws c) where
  aes_key_unwrap-aes_key_wrap :
      (kek bytes wrapped : Bytes)
      → AreBytes bytes
      → aes_key_wrap c kek bytes ≡ ok wrapped
      → (aes_key_unwrap c kek wrapped ≡ ok bytes) × AreBytes wrapped
  unfolding aes_key_wrap aes_key_unwrap
  aes_key_unwrap-aes_key_wrap kek bytes wrapped bb h =
      let (_, sized, h1) =
        >>=-eq-ok
          (guard (length kek == 16 || length kek == 32)
            (invalid_token (lit "AES-KW requires 128 or 256 bit key")))
          _ h in
      let made = ok_or-eq-ok (c.kw_wrap kek bytes) _ h1 in
      let long : leb 8 (length wrapped) ≡ true =
        ground (arith, laws.wrapped_length kek bytes wrapped made) in
      (
        rw sized (rw long (rw (laws.unwraps kek bytes wrapped made))),
        output.kw_bytes kek bytes wrapped bb made,
      )

  module _ (b64 : Base64) (p : Primitives) (n : JsonNumbers) (draws : JweDraws)
      (cek_bytes : DrawsBytes draws.cek) where
    -- The key of the content is managed back, and the headers are as they were.
    abbrev Managed : Text → Text → Bytes → Value → Bytes → Bytes → Value → Type 0
    Managed alg enc key headers cek encrypted_key out =
        (out ≡ headers)
        × (manage_cek_decrypt b64 c p n alg enc key encrypted_key out ≡ ok cek)
        × AreBytes encrypted_key

    wrapped :
        (cek_len : ℕ) (key : Bytes) (headers : Value) (cek encrypted_key : Bytes) (out : Value)
        → wrap_drawn b64 c p n draws cek_len key headers ≡ ok (cek, encrypted_key, out)
        → (out ≡ headers) × (aes_key_unwrap c key encrypted_key ≡ ok cek) × AreBytes encrypted_key
    unfolding wrap_drawn
    wrapped cek_len key headers cek encrypted_key out h =
        let (drawn, e, h1) = >>=-eq-ok (draws.cek cek_len) _ h in
        let (w, made, h2) = >>=-eq-ok (aes_key_wrap c key drawn) _ h1 in
        let (back, bytes) =
          aes_key_unwrap-aes_key_wrap key drawn w (cek_bytes cek_len drawn e) made in
        let same_cek : drawn ≡ cek = ground arith in
        let same_key : w ≡ encrypted_key = ground arith in
        let same_out : headers ≡ out = ground arith in
        (sym same_out, rw (same_key, same_cek) at back, rw same_key at bytes)

    managed :
        (a : SharedKey) (enc : Text) (key : Bytes) (headers : Value) (cek encrypted_key : Bytes)
        (out : Value)
        → manage_cek_encrypt b64 c p n draws (alg_name a) enc key headers
          ≡ ok (cek, encrypted_key, out)
        → Managed (alg_name a) enc key headers cek encrypted_key out
    unfolding manage_cek_encrypt manage_cek_decrypt alg_name is_oaep is_key_wrap is eqb lit
    managed direct enc key headers cek encrypted_key out h =
        let (cek_len, sized, h1) = >>=-eq-ok (get_cek_length enc) _ h in
        let (_, checked, h2) = >>=-eq-ok (guard (length key == cek_len) _) _ h1 in
        let same_cek : key ≡ cek = ground arith in
        let same_key : [] ≡ encrypted_key = ground arith in
        let same_out : headers ≡ out = ground arith in
        (sym same_out, rw sized (rw (← same_key) (rw same_cek)), rw (← same_key) tt)
    managed a128kw enc key headers cek encrypted_key out h =
        let (cek_len, sized, h1) = >>=-eq-ok (get_cek_length enc) _ h in
        let (same, back, bytes) = wrapped cek_len key headers cek encrypted_key out h1 in
        (same, rw sized back, bytes)
    managed a192kw enc key headers cek encrypted_key out h =
        let (cek_len, sized, h1) = >>=-eq-ok (get_cek_length enc) _ h in
        let (same, back, bytes) = wrapped cek_len key headers cek encrypted_key out h1 in
        (same, rw sized back, bytes)
    managed a256kw enc key headers cek encrypted_key out h =
        let (cek_len, sized, h1) = >>=-eq-ok (get_cek_length enc) _ h in
        let (same, back, bytes) = wrapped cek_len key headers cek encrypted_key out h1 in
        (same, rw sized back, bytes)

split_five :
    {b64 : Base64}
    → Base64Laws b64
    → (h k n t g : Bytes) → AreBytes h
    → AreBytes k
    → AreBytes n
    → AreBytes t
    → AreBytes g
    → split_dots (
        b64.url_encode h
        ⊙ b64.url_encode k
        ⊙ b64.url_encode n
        ⊙ b64.url_encode t
        ⊙ b64.url_encode g)
      ≡ b64.url_encode h
        ∷ b64.url_encode k
        ∷ b64.url_encode n
        ∷ b64.url_encode t
        ∷ b64.url_encode g
        ∷ []
split_five {b64} laws h k n t g hb kb nb tb gb =
    let dotless =
      λ (x : Bytes) (xb : AreBytes x). url_text-NoDot (b64.url_encode x) (laws.url_alphabet x xb) in
    rw
      (split_dots-join (b64.url_encode h)
        (b64.url_encode k ⊙ b64.url_encode n ⊙ b64.url_encode t ⊙ b64.url_encode g) (dotless h hb))
      (rw
        (split_dots-join (b64.url_encode k) (b64.url_encode n ⊙ b64.url_encode t ⊙ b64.url_encode g)
          (dotless k kb))
        (rw
          (split_dots-join (b64.url_encode n) (b64.url_encode t ⊙ b64.url_encode g) (dotless n nb))
          (rw (split_dots-join (b64.url_encode t) (b64.url_encode g) (dotless t tb))
            (rw (split_dots-NoDot (b64.url_encode g) (dotless g gb))))))

-- What the two directions need: the laws of base64, ciphers and compression, draws of full length, and a
-- protected header with its JSON text that names the algorithm of a shared key and the method `enc`.
module _ {b64 : Base64} (laws : Base64Laws b64) (json : JsonCodec) {c : CipherSuite}
    (ciphers : CipherLaws c) (output : OutputLaws c) (key_wrap : KeyWrapLaws c) (p : Primitives)
    (n : JsonNumbers) {z : Deflate} (deflate : DeflateLaws z) (draws : JweDraws)
    (full : DrawsFully draws.nonce) (drawn : DrawsBytes draws.nonce)
    (cek_drawn : DrawsBytes draws.cek) (a : SharedKey) (enc : Text) (protected : Fields)
    (h : HeaderText json protected)
    (alg_named : lookup (lit "alg") protected ≡ some (string (alg_name a)))
    (enc_named : lookup (lit "enc") protected ≡ some (string enc)) where
  read_alg : text_of (object protected) (lit "alg") ≡ ok (alg_name a)
  unfolding text_of get
  read_alg = rw alg_named

  read_enc : text_of (object protected) (lit "enc") ≡ ok enc
  unfolding text_of get
  read_enc = rw enc_named

  -- The parts of a token, and what each of them is for the decryption.
  Opens : Bytes → Bytes → Bytes → Bytes → Bytes → Bytes → Type 0
  Opens payload key encrypted_key nonce ct tag =
      (cek compressed : Bytes) × (manage_cek_decrypt b64 c p n (alg_name a) enc key encrypted_key
          (object protected)
        ≡ ok cek)
      × (decrypt_content c enc cek ct (b64.url_encode h.text) nonce tag ≡ ok compressed)
      × (decompress z (object protected) compressed ≡ ok payload)
      × AreBytes encrypted_key
      × AreBytes nonce
      × AreBytes ct
      × AreBytes tag

  abbrev token_of : Bytes → Bytes → Bytes → Bytes → Text
  token_of encrypted_key nonce ct tag =
      b64.url_encode h.text
      ⊙ b64.url_encode encrypted_key
      ⊙ b64.url_encode nonce
      ⊙ b64.url_encode ct
      ⊙ b64.url_encode tag

  token-Opens :
      (payload key encrypted_key nonce ct tag : Bytes)
      → Opens payload key encrypted_key nonce ct tag
      → decrypt_compact b64 json c p n z (token_of encrypted_key nonce ct tag) key ≡ ok payload
  unfolding Opens decrypt_compact decrypt_parts
  token-Opens payload key encrypted_key nonce ct tag
        (cek, compressed, unmanaged, opened, inflated, kb, nb, cb, tb) =
      rw (split_five laws h.text encrypted_key nonce ct tag h.text_AreBytes kb nb cb tb) (
        rw (decode_base64_permissive-url_encode laws h.text h.text_AreBytes) (
          rw h.read (
            rw (decode_base64_permissive-url_encode laws encrypted_key kb) (
              rw (decode_base64_permissive-url_encode laws nonce nb) (
                rw (decode_base64_permissive-url_encode laws ct cb) (
                  rw (decode_base64_permissive-url_encode laws tag tb)
                    (rw read_alg (rw read_enc (rw unmanaged (rw opened (rw inflated)))))))))))

  encrypt_steps :
      (payload key : Bytes) (token : Text)
      → AreBytes payload
      → encrypt_compact b64 json c p n z draws (object protected) payload key ≡ ok token
      → (encrypted_key nonce ct tag : Bytes) × (token_of encrypted_key nonce ct tag ≡ token)
        × Opens payload key encrypted_key nonce ct tag
  unfolding encrypt_compact Opens
  encrypt_steps payload key token pb e =
      let e1 = rw read_alg at e in
      let e2 = rw read_enc at e1 in
      let ((cek, encrypted_key, header), managed_key, e3) =
        >>=-eq-ok (manage_cek_encrypt b64 c p n draws (alg_name a) enc key (object protected)) _
          e2 in
      let (same_header, unmanaged, key_bytes) =
        managed key_wrap output b64 p n draws cek_drawn a enc key (object protected) cek
          encrypted_key header managed_key in
      let e4 = rw same_header at e3 in
      let e5 = rw h.written at e4 in
      let (compressed, squeezed, e6) = >>=-eq-ok (compress z (object protected) payload) _ e5 in
      let ((ct, tag, nonce), sealed, e7) =
        >>=-eq-ok (encrypt_content c draws.nonce enc cek compressed (b64.url_encode h.text)) _ e6 in
      let (ct_bytes, tag_bytes, nonce_bytes) =
        encrypt_content-Written output draws.nonce drawn enc cek compressed (b64.url_encode h.text)
          ct tag nonce (compress-AreBytes deflate (object protected) payload compressed pb squeezed)
          sealed in
      (
        encrypted_key,
        nonce,
        ct,
        tag,
        ok-inj (token_of encrypted_key nonce ct tag) token e7,
        (
          cek,
          compressed,
          rw same_header at unmanaged,
          decrypt_content-encrypt_content ciphers draws.nonce full enc cek compressed
              (b64.url_encode h.text) ct tag nonce sealed,
          decompress-compress deflate (object protected) payload compressed squeezed,
          key_bytes,
          nonce_bytes,
          ct_bytes,
          tag_bytes,
        ),
      )

  -- Under the laws of base64, ciphers, key wrapping and compression, with draws that are bytes of
  -- full length, for a protected header whose JSON text is read back and which names "dir" or an AES
  -- key wrapping and any content encryption: a token that `encrypt_compact` returns for a payload of
  -- bytes is decrypted by `decrypt_compact` with the same key to that payload, with compression or
  -- without.
  pub decrypt_compact-encrypt_compact :
      (payload key : Bytes) (token : Text)
      → AreBytes payload
      → encrypt_compact b64 json c p n z draws (object protected) payload key ≡ ok token
      → decrypt_compact b64 json c p n z token key ≡ ok payload
  decrypt_compact-encrypt_compact payload key token pb e =
      let (encrypted_key, nonce, ct, tag, same_token, opens) =
        encrypt_steps payload key token pb e in
      ap (λ t. decrypt_compact b64 json c p n z t key) (sym same_token)
      ∙ token-Opens payload key encrypted_key nonce ct tag opens
