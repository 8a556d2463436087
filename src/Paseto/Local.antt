-- ===== src/Paseto/Local.antt =====
-- src/paseto.rs: `encrypt_v4_local` and `decrypt_v4_local` behind the reading of the key, with
-- `paseto_v4_encrypt` and `paseto_v4_decrypt` of src/crypto.rs.
pub mod RoundTrip
use webtoken.Common.{
  ℕ, zero, suc, ◌+◌, ◌-◌, ◌*◌, ◌/◌, ◌%◌, ◌^◌, ◌≤◌, ◌<◌, bit_and, ◌≡◌, refl, sym, ap, ◌∙◌, ◌≢◌, ◌↔◌,
  ◌⊎◌, inl, inr, Bool, true, false, not, ◌&&◌, ◌||◌, List, [], ◌∷◌, ◌++◌, append-nil, append_assoc,
  Option, none, some, Bytes, Text, bit_and_low, IsByte, AreBytes, Result, ok, err, panic, ◌>>=◌,
  ◌>>◌, guard, ok_or, map_err, >>=-eq-ok, guard-eq-ok, ltb, leb, ◌==◌, if◌then◌else◌, ==_iff,
  ltb-false, ltb-true, Bool-cases, Option-cases, and_true, length, take, drop, All, length-append,
  take-append-drop, length-take, length-drop, take-length_append, drop-length_append, drop-drop,
  All-append, append_inj, lit, eqb, is, starts_with, eqb_refl, eqb→eq, eqb_iff, is→eq, is_lit,
  starts_with-append, to_be_bytes, to_le_bytes, from_be_bytes, length-to_le_bytes,
  length-to_be_bytes, to_le_bytes_inj, NoDot, ◌⊙◌, split_dots, split_dots-join, split_dots-NoDot,
  arith,
}
use webtoken.Errors.{WebtokenError, invalid_key, invalid_token, invalid_signature}
use webtoken.External.{Base64, Base64Laws}
use webtoken.Primitives.{Primitives, PrimitivesLaws}
use webtoken.PyUtils.{url_text-NoDot}
use webtoken.Paseto.{
  nonce_of, slice, encryption_key, auth_key, apply_keystream, local_tag, paseto_v4_encrypt,
  paseto_v4_decrypt,
}

-- The footer at the end of a token.
unfoldable pub footer_part : Base64 → Bytes → Text
footer_part b64 [] = []
footer_part b64 (f ∷ footer) = b'.' ∷ b64.url_encode (f ∷ footer)

-- A step of URL_SAFE_NO_PAD with its error.
abbrev pub url_decode_or : Base64 → WebtokenError → Text → Result WebtokenError Bytes
url_decode_or b64 e text = map_err (λ _. e) (b64.url_decode text)

-- The texts of body and footer among the parts of a token, decoded in the code's order.
unfoldable pub body_and_footer : Base64 → List Text → Result WebtokenError (Bytes × Bytes)
body_and_footer b64 (a ∷ b ∷ body ∷ []) = do
  bytes ← url_decode_or b64 (invalid_token (lit "Invalid body encoding")) body
  ok (bytes, [])
body_and_footer b64 (a ∷ b ∷ body ∷ footer ∷ []) = do
  footer_bytes ← url_decode_or b64 (invalid_token (lit "Invalid footer encoding")) footer
  bytes ← url_decode_or b64 (invalid_token (lit "Invalid body encoding")) body
  ok (bytes, footer_bytes)
body_and_footer b64 _ = err (invalid_token (lit "Invalid token format"))

module _ (b64 : Base64) (p : Primitives) where
  -- encrypt_v4_local with the key read.
  unfoldable pub encrypt_v4_local :
      Bytes
      → Bytes
      → Bytes
      → Bytes
      → Option Bytes
      → Result WebtokenError Bytes
      → Result WebtokenError Text
  encrypt_v4_local raw_key payload footer implicit nonce_opt draw = do
    guard (leb 1 (length raw_key)) (invalid_key (lit "key must be specified."))
    guard (leb (length raw_key) 64) (invalid_key (lit "key length must be up to 64 bytes."))
    guard (length raw_key == 32) (invalid_key (lit "key must be 32 bytes long."))
    body ← paseto_v4_encrypt p raw_key payload footer implicit nonce_opt draw
    ok (lit "v4.local." ++ (b64.url_encode body ++ footer_part b64 footer))

  -- decrypt_v4_local with the key read: the payload and the footer.
  unfoldable pub decrypt_v4_local : Text → Bytes → Bytes → Result WebtokenError (Bytes × Bytes)
  decrypt_v4_local token raw_key implicit = do
    guard (length raw_key == 32) (invalid_key (lit "Local key must be 32 bytes"))
    guard (starts_with (lit "v4.local.") token) (invalid_token (lit "Invalid PASETO header"))
    (body, footer) ← body_and_footer b64 (split_dots token)
    plaintext ← paseto_v4_decrypt p raw_key body footer implicit
    ok (plaintext, footer)

module _ {p : Primitives} (laws : PrimitivesLaws p) where
  length-local_tag :
      (key nonce ciphertext footer implicit : Bytes)
      → length (local_tag p key nonce ciphertext footer implicit) ≡ 32
  unfolding local_tag
  length-local_tag key nonce ciphertext footer implicit = laws.length-blake2b_keyed_hash 32 _ _

  local_tag-AreBytes :
      (key nonce ciphertext footer implicit : Bytes)
      → AreBytes (local_tag p key nonce ciphertext footer implicit)
  unfolding local_tag
  local_tag-AreBytes key nonce ciphertext footer implicit = laws.blake2b_keyed_hash-AreBytes 32 _ _

  -- A body is its three parts again.
  paseto_v4_decrypt-parts :
      (key nonce ciphertext tag footer implicit : Bytes)
      → length nonce ≡ 32
      → length tag ≡ 32
      → paseto_v4_decrypt p key (nonce ++ (ciphertext ++ tag)) footer implicit ≡ (
          guard (eqb (local_tag p key nonce ciphertext footer implicit) tag) invalid_signature
          >> ok (apply_keystream p (encryption_key p key nonce) ciphertext))
  unfolding paseto_v4_decrypt
  paseto_v4_decrypt-parts key nonce ciphertext tag footer implicit hn ht =
      let total : length (nonce ++ (ciphertext ++ tag)) ≡ 64 + length ciphertext =
        omega (arith, length-append nonce (ciphertext ++ tag), length-append ciphertext tag) in
      let enough : leb 64 (length (nonce ++ (ciphertext ++ tag))) ≡ true = ground arith in
      let first : take 32 (nonce ++ (ciphertext ++ tag)) ≡ nonce =
        take-length_append nonce (ciphertext ++ tag) 32 (sym hn) in
      let middle : drop 32 (nonce ++ (ciphertext ++ tag)) ≡ ciphertext ++ tag =
        drop-length_append nonce (ciphertext ++ tag) 32 (sym hn) in
      let last : drop (length (nonce ++ (ciphertext ++ tag)) - 32) (nonce ++ (ciphertext ++ tag))
          ≡ tag =
        rw append_assoc at (
          drop-length_append (nonce ++ ciphertext) tag (length (nonce ++ (ciphertext ++ tag)) - 32)
            (omega (arith, length-append nonce ciphertext))) in
      let inner : take ((length (nonce ++ (ciphertext ++ tag)) - 32) - 32) (ciphertext ++ tag)
          ≡ ciphertext =
        take-length_append ciphertext tag _ (omega arith) in
      rw enough (rw first (rw middle (rw last (rw inner))))

  -- A body that `paseto_v4_encrypt` makes, under any nonce of 32 bytes, is decrypted to the payload with
  -- the same key, footer and implicit assertion.
  pub paseto_v4_decrypt-encrypt :
      (key nonce payload footer implicit : Bytes)
      → length nonce ≡ 32
      → (body : Bytes) × (paseto_v4_encrypt p key payload footer implicit none (ok nonce) ≡ ok body)
        × (paseto_v4_decrypt p key body footer implicit ≡ ok payload)
        × (AreBytes nonce → AreBytes payload → AreBytes body)
  unfolding paseto_v4_encrypt nonce_of apply_keystream
  paseto_v4_decrypt-encrypt key nonce payload footer implicit h =
      let ciphertext = apply_keystream p (encryption_key p key nonce) payload in
      let tag = local_tag p key nonce ciphertext footer implicit in
      let tag_length : length tag ≡ 32 = length-local_tag key nonce ciphertext footer implicit in
      let tag_bytes : AreBytes tag = local_tag-AreBytes key nonce ciphertext footer implicit in
      (
        nonce ++ (ciphertext ++ tag),
        refl,
        rw (paseto_v4_decrypt-parts key nonce ciphertext tag footer implicit h tag_length) (
            rw (eqb_refl tag) (
              rw (
                laws.xchacha20_involutive (take 32 (encryption_key p key nonce))
                  (slice 32 56 (encryption_key p key nonce)) payload))),
        λ hn hp.
            All-append IsByte nonce _ hn
              (All-append IsByte ciphertext tag (laws.xchacha20-AreBytes _ _ payload hp) tag_bytes),
      )

-- What a successful `paseto_v4_decrypt` has checked: the body is a nonce, a ciphertext and a tag, the tag
-- is the keyed hash of the encoding of header, nonce, ciphertext, footer and implicit assertion, and
-- the result is the ciphertext under the keystream.
pub paseto_v4_decrypt_authentic :
    (p : Primitives) (key body footer implicit plaintext : Bytes)
    → paseto_v4_decrypt p key body footer implicit ≡ ok plaintext
    → (nonce ciphertext : Bytes) × (body
        ≡ nonce ++ (ciphertext ++ local_tag p key nonce ciphertext footer implicit))
      × (length nonce ≡ 32)
      × (plaintext ≡ apply_keystream p (encryption_key p key nonce) ciphertext)
unfolding paseto_v4_decrypt
paseto_v4_decrypt_authentic p key body footer implicit plaintext h =
    let nonce = take 32 body in
    let ciphertext = slice 32 (length body - 32) body in
    let tag = drop (length body - 32) body in
    let (_, long, h1) =
      >>=-eq-ok (guard (leb 64 (length body)) (invalid_token (lit "Token too short"))) _ h in
    let (_, same, h2) =
      >>=-eq-ok
        (guard (eqb (local_tag p key nonce ciphertext footer implicit) tag) invalid_signature) _
        h1 in
    let is_tag : local_tag p key nonce ciphertext footer implicit ≡ tag =
      eqb→eq _ tag (guard-eq-ok _ _ same) in
    let enough : 64 ≤ length body = ground (arith, guard-eq-ok (leb 64 (length body)) _ long) in
    let shift : 32 + ((length body - 32) - 32) ≡ length body - 32 = omega arith in
    let inner : ciphertext ++ tag ≡ drop 32 body =
      rw (drop-drop ((length body - 32) - 32) 32 body, shift) at
        (take-append-drop ((length body - 32) - 32) (drop 32 body)) in
    (
      nonce,
      ciphertext,
      rw is_tag (rw inner (sym (take-append-drop 32 body))),
      omega (arith, length-take 32 body),
      cc,
    )
