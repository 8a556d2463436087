-- ===== src/Paseto/Wrapping/RoundTrip.antt =====
-- The inverses of `paserk_wrap_pie` and `paserk_seal` of src/paseto.rs, and the two ways to wrap a key.
use webtoken.Common.{
  ℕ, ◌≤◌, ◌≡◌, refl, true, ◌∷◌, ◌++◌, some, Bytes, Text, IsByte, AreBytes, ok, leb, length, take,
  All-append, lit, eqb, is, starts_with, eqb_refl, arith,
}
use webtoken.Errors.{WebtokenError, invalid_token}
use webtoken.External.{Base64, Base64Laws}
use webtoken.Primitives.{Primitives, PrimitivesLaws}
use webtoken.Paseto.{slice}
use webtoken.Paseto.Parts.{tag_first}
use webtoken.Paseto.Paserk.{Draws, encode_wrapped, pie_stream, pie_ak}
use webtoken.Paseto.Paserk.RoundTrip.{WrapPurpose, local, secret, name}
use webtoken.Paseto.Wrapping.{
  header_for, behind_header, blake2b_mac, paserk_wrap_pie, unwrap_pie_body, paserk_unwrap_pie,
}

pie_header : WrapPurpose → Text
pie_header local = lit "k4.local-wrap.pie."
pie_header secret = lit "k4.secret-wrap.pie."

pie_header-name : (w : WrapPurpose) → lit "k4." ++ name w ++ lit "-wrap.pie." ≡ pie_header w
unfolding pie_header name lit
pie_header-name local = refl
pie_header-name secret = refl

pie_header_for :
    (w : WrapPurpose)
    → header_for (name w) (lit "k4.local-wrap.pie.") (lit "k4.secret-wrap.pie.") (lit "PIE wrap")
      ≡ ok (pie_header w)
unfolding header_for is eqb name pie_header lit
pie_header_for local = refl
pie_header_for secret = refl

behind_pie_header :
    (w : WrapPurpose) (e : WebtokenError) (rest : Text)
    → behind_header (lit "k4.local-wrap.pie.") (lit "k4.secret-wrap.pie.") e (pie_header w ++ rest)
      ≡ ok (pie_header w, rest)
unfolding behind_header pie_header starts_with lit
behind_pie_header local e rest = refl
behind_pie_header secret e rest = refl

module _ {p : Primitives} (laws : PrimitivesLaws p) where
  mac_short :
      (key message : Bytes) (len : ℕ)
      → length key ≤ 64
      → blake2b_mac p key message len ≡ ok (p.blake2b_keyed_hash len key message)
  unfolding blake2b_mac
  mac_short key message len h = ground arith

  -- A key of bytes, of any length, that `paserk_wrap_pie` wraps for "local" or "secret" with a
  -- wrapping key of at most 64 bytes and a nonce of 32 bytes is returned by `paserk_unwrap_pie` with
  -- the same wrapping key. The codec and the primitives keep their laws.
  pub paserk_unwrap_pie-paserk_wrap_pie :
      {b64 : Base64} (base : Base64Laws b64) (w : WrapPurpose) (wk key nonce : Bytes)
      → length wk ≤ 64
      → length nonce ≡ 32
      → AreBytes nonce
      → AreBytes key
      → (text : Text) × (paserk_wrap_pie b64 p (ok nonce) wk key (name w) ≡ ok text)
        × (paserk_unwrap_pie b64 p wk text ≡ ok key)
  unfolding paserk_wrap_pie paserk_unwrap_pie unwrap_pie_body
  paserk_unwrap_pie-paserk_wrap_pie {b64} base w wk key nonce hw hn nb kb =
      let header = pie_header w in
      let x = p.blake2b_keyed_hash 56 wk (0x80 ∷ nonce) in
      let ak = p.blake2b_keyed_hash 32 wk (0x81 ∷ nonce) in
      let c = p.xchacha20 (take 32 x) (slice 32 56 x) key in
      let t = p.blake2b_keyed_hash 32 ak (header ++ (nonce ++ c)) in
      let body = t ++ (nonce ++ c) in
      let stream_key = mac_short wk (0x80 ∷ nonce) 56 hw in
      let auth_key = mac_short wk (0x81 ∷ nonce) 32 hw in
      let ak_short : length ak ≤ 64 =
        omega (arith, laws.length-blake2b_keyed_hash 32 wk (0x81 ∷ nonce)) in
      let tag = mac_short ak (header ++ (nonce ++ c)) 32 ak_short in
      let (first, second, third, size) =
        tag_first t nonce c (laws.length-blake2b_keyed_hash 32 ak (header ++ (nonce ++ c))) hn in
      let long : leb 64 (length body) ≡ true = ground arith in
      let bytes : AreBytes body =
        All-append IsByte t _ (laws.blake2b_keyed_hash-AreBytes 32 _ _)
          (All-append IsByte nonce c nb (laws.xchacha20-AreBytes _ _ key kb)) in
      (
        header ++ b64.url_encode body,
        rw (pie_header_for w) (rw stream_key (rw auth_key (rw tag))),
        rw (behind_pie_header w (invalid_token (lit "Invalid PIE header")) (b64.url_encode body)) (
            rw (base.url_decode-encode body bytes) (
              rw long (
                rw (first, second, third)
                  (rw auth_key (
                    rw tag (
                      rw (eqb_refl t) (
                        rw stream_key
                          (rw (laws.xchacha20_involutive (take 32 x) (slice 32 56 x) key))))))))),
      )

  -- With a wrapping key of 32 bytes and primitives that keep their laws, `encode_paserk` on its
  -- branch for a wrapping key and `paserk_wrap_pie` write the same text for the same key, purpose
  -- "local" or "secret" and nonce.
  pub encode_wrapped-paserk_wrap_pie :
      (b64 : Base64) (to_text : ℕ → Text) (draws : Draws) (w : WrapPurpose) (wk key nonce : Bytes)
      → length wk ≡ 32
      → draws.wrap_nonce ≡ some nonce
      → encode_wrapped b64 p to_text draws (name w) key wk
        ≡ paserk_wrap_pie b64 p (ok nonce) wk key (name w)
  unfolding encode_wrapped paserk_wrap_pie pie_stream pie_ak
  encode_wrapped-paserk_wrap_pie b64 to_text draws w wk key nonce hw drawn =
      let x = p.blake2b_keyed_hash 56 wk (0x80 ∷ nonce) in
      let ak = p.blake2b_keyed_hash 32 wk (0x81 ∷ nonce) in
      let c = p.xchacha20 (take 32 x) (slice 32 56 x) key in
      let ak_short : length ak ≤ 64 =
        omega (arith, laws.length-blake2b_keyed_hash 32 wk (0x81 ∷ nonce)) in
      rw hw (
        rw drawn (
          rw (pie_header_for w) (
            rw (pie_header-name w) (
              rw (mac_short wk (0x80 ∷ nonce) 56 (omega arith)) (
                rw (mac_short wk (0x81 ∷ nonce) 32 (omega arith))
                  (rw (mac_short ak (pie_header w ++ (nonce ++ c)) 32 ak_short)))))))
