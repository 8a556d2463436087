-- ===== src/Paseto/Public.antt =====
-- src/paseto.rs: `sign_v4_public` and `verify_v4_public` behind the reading of the key.
use webtoken.Common.{
  ◌+◌, ◌-◌, ◌≤◌, ◌≡◌, refl, true, [], ◌∷◌, ◌++◌, Bytes, Text, IsByte, AreBytes, Result, ok, ◌>>=◌,
  ◌>>◌, guard, >>=-eq-ok, guard-eq-ok, leb, length, take, drop, length-append, take-append-drop,
  length-drop, take-length_append, drop-length_append, All-append, lit, starts_with,
  starts_with-append, split_dots, arith,
}
use webtoken.Errors.{WebtokenError, invalid_token}
use webtoken.External.{Base64, Base64Laws, Signer, IsKeyPair}
use webtoken.Paseto.{pae}
use webtoken.Paseto.Local.{footer_part, body_and_footer}
use webtoken.Paseto.Local.RoundTrip.{body_and_footer-encoded}

-- What is signed.
unfoldable pub signed_message : Bytes → Bytes → Bytes → Bytes
signed_message payload footer implicit = pae (lit "v4.public." ∷ payload ∷ footer ∷ implicit ∷ [])

module _ (b64 : Base64) (signer : Signer) where
  -- sign_v4_public with the key read.
  unfoldable pub sign_v4_public : Bytes → Bytes → Bytes → Bytes → Result WebtokenError Text
  sign_v4_public raw_key payload footer implicit = do
    signature ← signer.sign (lit "Ed25519") raw_key (signed_message payload footer implicit)
    ok (lit "v4.public." ++ (b64.url_encode (payload ++ signature) ++ footer_part b64 footer))

  -- verify_v4_public with the key read: the payload and the footer.
  unfoldable pub verify_v4_public : Text → Bytes → Bytes → Result WebtokenError (Bytes × Bytes)
  verify_v4_public token raw_key implicit = do
    guard (starts_with (lit "v4.public.") token) (invalid_token (lit "Invalid PASETO header"))
    (body, footer) ← body_and_footer b64 (split_dots token)
    guard (leb 64 (length body)) (invalid_token (lit "Token too short"))
    let payload = take (length body - 64) body
    signer.verify (lit "Ed25519") raw_key (signed_message payload footer implicit)
        (drop (length body - 64) body)
    ok (payload, footer)

header-split :
    (rest : Text)
    → split_dots (lit "v4.public." ++ rest) ≡ lit "v4" ∷ lit "public" ∷ split_dots rest
unfolding lit split_dots
header-split rest = refl

module _ {b64 : Base64} (laws : Base64Laws b64) (signer : Signer) where
  -- With a pair of Ed25519 keys whose signatures have 64 bytes, for a payload and a footer of bytes,
  -- `sign_v4_public` returns a token, and `verify_v4_public` with the public key and the same
  -- implicit assertion returns payload and footer. The codec keeps its laws.
  pub verify_v4_public-sign_v4_public :
      (secret public : Bytes)
      → IsKeyPair signer (lit "Ed25519") secret public
      → ((message sig : Bytes)
          → signer.sign (lit "Ed25519") secret message ≡ ok sig
          → length sig ≡ 64)
      → (payload footer implicit : Bytes) → AreBytes payload
      → AreBytes footer
      → (token : Text) × (sign_v4_public b64 signer secret payload footer implicit ≡ ok token)
        × (verify_v4_public b64 signer token public implicit ≡ ok (payload, footer))
  unfolding sign_v4_public verify_v4_public
  verify_v4_public-sign_v4_public secret public keys sized payload footer implicit pb fb =
      let message = signed_message payload footer implicit in
      let (sig, signed, sb) = keys.signs message in
      let body = payload ++ sig in
      let size : length body ≡ length payload + 64 =
        omega (arith, length-append payload sig, sized message sig signed) in
      let rest = b64.url_encode body ++ footer_part b64 footer in
      let parts : body_and_footer b64 (split_dots (lit "v4.public." ++ rest)) ≡ ok (body, footer) =
        rw (header-split rest) (
          body_and_footer-encoded laws (lit "v4") (lit "public") body footer
            (All-append IsByte payload sig pb sb) fb) in
      let long : leb 64 (length body) ≡ true = ground arith in
      let front : take (length body - 64) body ≡ payload =
        take-length_append payload sig _ (omega arith) in
      let back : drop (length body - 64) body ≡ sig =
        drop-length_append payload sig _ (omega arith) in
      (
        lit "v4.public." ++ rest,
        rw signed,
        rw (starts_with-append (lit "v4.public.") rest)
            (rw parts (rw long (rw front (rw back (rw (keys.accepts message sig signed)))))),
      )

-- When `verify_v4_public` returns, the text starts with the header, its parts give a body and the returned
-- footer, the body is the returned payload and a signature of 64 bytes, and the signature was accepted
-- over the encoding of header, payload, footer and implicit assertion.
pub verify_v4_public_authentic :
    (b64 : Base64) (signer : Signer) (token : Text) (public implicit payload footer : Bytes)
    → verify_v4_public b64 signer token public implicit ≡ ok (payload, footer)
    → (signature : Bytes) × (starts_with (lit "v4.public.") token ≡ true)
      × (body_and_footer b64 (split_dots token) ≡ ok (payload ++ signature, footer))
      × (length signature ≡ 64)
      × (signer.verify (lit "Ed25519") public (signed_message payload footer implicit) signature
          ≡ ok tt)
unfolding verify_v4_public
verify_v4_public_authentic b64 signer token public implicit payload footer h =
    let (_, header, h1) =
      >>=-eq-ok
        (guard (starts_with (lit "v4.public.") token) (invalid_token (lit "Invalid PASETO header")))
        _ h in
    let ((body, found), parts, h2) = >>=-eq-ok (body_and_footer b64 (split_dots token)) _ h1 in
    let (_, long, h3) =
      >>=-eq-ok (guard (leb 64 (length body)) (invalid_token (lit "Token too short"))) _ h2 in
    let split = length body - 64 in
    let (_, accepted, h4) =
      >>=-eq-ok
        (signer.verify (lit "Ed25519") public (signed_message (take split body) found implicit)
          (drop split body))
        _ h3 in
    let enough : 64 ≤ length body = ground (arith, guard-eq-ok (leb 64 (length body)) _ long) in
    let same_payload : take split body ≡ payload = ground arith in
    let same_footer : found ≡ footer = ground arith in
    (
      drop split body,
      guard-eq-ok _ _ header,
      rw (← same_payload, ← same_footer, take-append-drop split body) parts,
      omega (arith, length-drop split body),
      rw (← same_payload, ← same_footer) accepted,
    )
