-- ===== src/Paseto/Local/RoundTrip.antt =====
-- The tokens of `encrypt_v4_local` of src/paseto.rs under `decrypt_v4_local`.
use webtoken.Common.{
  ◌≡◌, refl, [], ◌∷◌, ◌++◌, append-nil, none, Bytes, Text, AreBytes, ok, length, lit,
  starts_with-append, NoDot, split_dots, split_dots-join, split_dots-NoDot,
}
use webtoken.External.{Base64, Base64Laws}
use webtoken.Primitives.{Primitives, PrimitivesLaws}
use webtoken.PyUtils.{url_text-NoDot}
use webtoken.Paseto.Local.{
  footer_part, body_and_footer, encrypt_v4_local, decrypt_v4_local, paseto_v4_decrypt-encrypt,
}

header-split :
    (rest : Text) → split_dots (lit "v4.local." ++ rest) ≡ lit "v4" ∷ lit "local" ∷ split_dots rest
unfolding lit split_dots
header-split rest = refl

module _ {b64 : Base64} (laws : Base64Laws b64) where
  url-NoDot : (bytes : Bytes) → AreBytes bytes → NoDot (b64.url_encode bytes)
  url-NoDot bytes h = url_text-NoDot _ (laws.url_alphabet bytes h)

  -- The parts behind the header, with a footer or without.
  pub body_and_footer-encoded :
      (a b : Text) (body footer : Bytes)
      → AreBytes body
      → AreBytes footer
      → body_and_footer b64 (a ∷ b ∷ split_dots (b64.url_encode body ++ footer_part b64 footer))
        ≡ ok (body, footer)
  unfolding body_and_footer footer_part
  body_and_footer-encoded a b body [] h k = rw (append-nil (b64.url_encode body)) (
      rw (split_dots-NoDot (b64.url_encode body) (url-NoDot body h))
        (rw (laws.url_decode-encode body h)))
  body_and_footer-encoded a b body (f ∷ footer) h k =
      rw (split_dots-join (b64.url_encode body) (b64.url_encode (f ∷ footer)) (url-NoDot body h)) (
        rw (split_dots-NoDot (b64.url_encode (f ∷ footer)) (url-NoDot (f ∷ footer) k))
          (rw (laws.url_decode-encode (f ∷ footer) k) (rw (laws.url_decode-encode body h))))

  -- With a key of 32 bytes and a nonce of 32 bytes from the generator, for a payload and a footer of
  -- bytes, encryption returns a token, and decryption of that token with the key and the same
  -- implicit assertion returns the payload and the footer, an empty footer included. The codec and
  -- the primitives keep their laws.
  pub decrypt_v4_local-encrypt_v4_local :
      {p : Primitives} (primitives : PrimitivesLaws p) (key nonce payload footer implicit : Bytes)
      → length key ≡ 32
      → length nonce ≡ 32
      → AreBytes nonce
      → AreBytes payload
      → AreBytes footer
      → (token : Text) × (encrypt_v4_local b64 p key payload footer implicit none (ok nonce)
          ≡ ok token)
        × (decrypt_v4_local b64 p token key implicit ≡ ok (payload, footer))
  unfolding encrypt_v4_local decrypt_v4_local
  decrypt_v4_local-encrypt_v4_local {p} primitives key nonce payload footer implicit hk hn nb pb
        fb =
      let (body, made, read, bytes) =
        paseto_v4_decrypt-encrypt primitives key nonce payload footer implicit hn in
      let rest = b64.url_encode body ++ footer_part b64 footer in
      let parts : body_and_footer b64 (split_dots (lit "v4.local." ++ rest)) ≡ ok (body, footer) =
        rw (header-split rest)
          (body_and_footer-encoded (lit "v4") (lit "local") body footer (bytes nb pb) fb) in
      (
        lit "v4.local." ++ rest,
        rw hk (rw made),
        rw hk (rw (starts_with-append (lit "v4.local.") rest) (rw parts (rw read))),
      )
