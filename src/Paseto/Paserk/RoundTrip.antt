-- ===== src/Paseto/Paserk/RoundTrip.antt =====
-- `decode_paserk` of src/paseto.rs on the texts of `encode_paserk`.
use webtoken.Common.{
  ℕ, ◌≡◌, refl, ◌⊎◌, inl, inr, true, false, ◌++◌, Option, none, some, Bytes, Text, IsByte, AreBytes,
  ok, leb, length, All-append, lit, eqb, is, eqb_refl, split_dots, split_dots-NoDot, arith,
}
use webtoken.External.{Base64, Base64Laws}
use webtoken.Primitives.{Primitives, PrimitivesLaws}
use webtoken.PyUtils.{url_text-NoDot}
use webtoken.Paseto.Parts.{tag_first}
use webtoken.Paseto.Paserk.{
  Draws, key_for_purpose, pie_stream, pie_ak, encode_wrapped, encode_checked, encode_paserk,
}
use webtoken.Paseto.Paserk.Reading.{
  check_purpose, unwrap_body, unwrap_with, password_body, decode_wrapped, decode_password,
  decode_kind, decode_parts, decode_paserk,
}

-- The purposes of a key that can be wrapped, with their names.
pub data WrapPurpose : Type 0 where
  local secret : WrapPurpose

unfoldable pub name : WrapPurpose → Text
name local = lit "local"
name secret = lit "secret"

-- The purpose a caller may expect.
abbrev pub Expects : Option Text → WrapPurpose → Type 0
Expects expected w = (expected ≡ none) ⊎ (expected ≡ some (name w))

module _ {p : Primitives} (laws : PrimitivesLaws p) where
  pie_stream_involutive : (wk n key : Bytes) → pie_stream p wk n (pie_stream p wk n key) ≡ key
  unfolding pie_stream
  pie_stream_involutive wk n key = laws.xchacha20_involutive _ _ key

  pie_stream-AreBytes : (wk n key : Bytes) → AreBytes key → AreBytes (pie_stream p wk n key)
  unfolding pie_stream
  pie_stream-AreBytes wk n key h = laws.xchacha20-AreBytes _ _ key h

  -- The body of a wrapped key is unwrapped with the wrapping key.
  unwrap_body-wrapped :
      (header : Text) (wk n key : Bytes)
      → length wk ≡ 32
      → length n ≡ 32
      → let c = pie_stream p wk n key in
        unwrap_body p header wk
          (p.blake2b_keyed_hash 32 (pie_ak p wk n) (header ++ (n ++ c)) ++ (n ++ c))
        ≡ ok key
  unfolding unwrap_body
  unwrap_body-wrapped header wk n key hw hn =
      let c = pie_stream p wk n key in
      let t = p.blake2b_keyed_hash 32 (pie_ak p wk n) (header ++ (n ++ c)) in
      let (first, second, third, size) =
        tag_first t n c (laws.length-blake2b_keyed_hash 32 _ _) hn in
      let long : leb 64 (length (t ++ (n ++ c))) ≡ true = ground arith in
      rw hw (
        rw long (rw (first, second, third) (rw (eqb_refl t) (rw (pie_stream_involutive wk n key)))))

pub not_public : (w : WrapPurpose) → is (name w) "public" ≡ false
unfolding name is eqb lit
not_public local = refl
not_public secret = refl

module _ {b64 : Base64} (base : Base64Laws b64) {p : Primitives} (laws : PrimitivesLaws p)
    (to_text : ℕ → Text) where
  -- The text of a wrapped key under the readers of its parts.
  decode-wrapped_text :
      (w : WrapPurpose) (expected : Option Text) (wk bytes : Bytes)
      → Expects expected w
      → AreBytes bytes
      → decode_paserk b64 p to_text
          (lit "k4." ++ name w ++ lit "-wrap.pie." ++ b64.url_encode bytes)
          expected
          (some wk)
          none
          none
        ≡ unwrap_body p (lit "k4." ++ name w ++ lit "-wrap.pie.") wk bytes
  unfolding decode_paserk decode_parts decode_kind decode_wrapped unwrap_with check_purpose is eqb
      lit split_dots name
  decode-wrapped_text local expected wk bytes (inl e) h = rw e (
      rw (split_dots-NoDot (b64.url_encode bytes) (url_text-NoDot _ (base.url_alphabet bytes h)))
        (rw (base.url_decode-encode bytes h)))
  decode-wrapped_text local expected wk bytes (inr e) h = rw e (
      rw (split_dots-NoDot (b64.url_encode bytes) (url_text-NoDot _ (base.url_alphabet bytes h)))
        (rw (base.url_decode-encode bytes h)))
  decode-wrapped_text secret expected wk bytes (inl e) h = rw e (
      rw (split_dots-NoDot (b64.url_encode bytes) (url_text-NoDot _ (base.url_alphabet bytes h)))
        (rw (base.url_decode-encode bytes h)))
  decode-wrapped_text secret expected wk bytes (inr e) h = rw e (
      rw (split_dots-NoDot (b64.url_encode bytes) (url_text-NoDot _ (base.url_alphabet bytes h)))
        (rw (base.url_decode-encode bytes h)))

  -- The text of a key under a password, likewise.
  pub decode-password_text :
      (w : WrapPurpose) (expected : Option Text) (pwd bytes : Bytes)
      → Expects expected w
      → AreBytes bytes
      → decode_paserk b64 p to_text
          (lit "k4." ++ name w ++ lit "-pw." ++ b64.url_encode bytes)
          expected
          none
          (some pwd)
          none
        ≡ password_body p (lit "k4." ++ name w ++ lit "-pw.") pwd bytes
  unfolding decode_paserk decode_parts decode_kind decode_password check_purpose is eqb lit
      split_dots name
  decode-password_text local expected pwd bytes (inl e) h =
      rw (split_dots-NoDot (b64.url_encode bytes) (url_text-NoDot _ (base.url_alphabet bytes h)))
        (rw e (rw (base.url_decode-encode bytes h)))
  decode-password_text local expected pwd bytes (inr e) h =
      rw (split_dots-NoDot (b64.url_encode bytes) (url_text-NoDot _ (base.url_alphabet bytes h)))
        (rw e (rw (base.url_decode-encode bytes h)))
  decode-password_text secret expected pwd bytes (inl e) h =
      rw (split_dots-NoDot (b64.url_encode bytes) (url_text-NoDot _ (base.url_alphabet bytes h)))
        (rw e (rw (base.url_decode-encode bytes h)))
  decode-password_text secret expected pwd bytes (inr e) h =
      rw (split_dots-NoDot (b64.url_encode bytes) (url_text-NoDot _ (base.url_alphabet bytes h)))
        (rw e (rw (base.url_decode-encode bytes h)))

  -- A key of bytes, valid for its purpose "local" or "secret", that `encode_paserk` wraps under a
  -- wrapping key of 32 bytes with a nonce of 32 bytes from the generator is read back by
  -- `decode_paserk` with the wrapping key, whether the caller expects the purpose or none; for a
  -- "secret" seed the public key comes back behind it. The codec and the primitives keep their laws.
  pub decode_paserk-encode_paserk_wrapped :
      (draws : Draws) (w : WrapPurpose) (expected : Option Text) (key full wk n : Bytes)
      → Expects expected w
      → key_for_purpose p (name w) key ≡ ok full
      → draws.wrap_nonce ≡ some n
      → length wk ≡ 32
      → length n ≡ 32
      → AreBytes n
      → AreBytes full
      → (text : Text) × (encode_paserk b64 p to_text draws (name w) key (some wk) none none
          ≡ ok text)
        × (decode_paserk b64 p to_text text expected (some wk) none none ≡ ok full)
  unfolding encode_paserk encode_checked encode_wrapped
  decode_paserk-encode_paserk_wrapped draws w expected key full wk n he hk drawn hw hn nb fb =
      let header = lit "k4." ++ name w ++ lit "-wrap.pie." in
      let c = pie_stream p wk n full in
      let t = p.blake2b_keyed_hash 32 (pie_ak p wk n) (header ++ (n ++ c)) in
      let bytes : AreBytes (t ++ (n ++ c)) =
        All-append IsByte t (n ++ c) (laws.blake2b_keyed_hash-AreBytes 32 _ _)
          (All-append IsByte n c nb (pie_stream-AreBytes laws wk n full fb)) in
      (
        header ++ b64.url_encode (t ++ (n ++ c)),
        rw (not_public w) (rw hk (rw hw (rw drawn))),
        rw (decode-wrapped_text w expected wk (t ++ (n ++ c)) he bytes)
            (unwrap_body-wrapped laws header wk n full hw hn),
      )
