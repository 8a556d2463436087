-- ===== src/KeyConversion/EcRoundTrip.antt =====
-- A private EC key that extract_key_bytes writes is read back by parse_ec_private.
use webtoken.Common.{
  ℕ, suc, ◌+◌, ◌-◌, ◌/◌, ◌≤◌, ◌≡◌, refl, sym, ap, ◌∙◌, inl, inr, false, [], ◌∷◌, ◌++◌, Option, some,
  Bytes, Text, Result, ok, Bool-cases, length, drop, length-append, take-length_append,
  drop-length_append, lit, eqb, is, starts_with, is→eq, arith,
}
use webtoken.External.{Base64}
use webtoken.BigNumbers.{BigNumbers}
use webtoken.Json.{Value, string, object, end, field}
use webtoken.Der.{encode_der_len, read_optional_explicit, read_octet_string, read_oid}
use webtoken.Der.Tlv.{
  tlv, length-tlv, read_sequence-tlv, read_sequence_whole, read_bit_string_whole,
  read_octet_string-tlv, read_octet_string_whole, read_oid-tlv, read_oid_whole,
  read_optional_explicit-tlv, read_optional_explicit_whole, read_integer_bytes-byte,
}
use webtoken.Der.Oids.{
  oid_to_curve_info, oid_ec_public_key, oid_p256, oid_p384, oid_p521, oid_secp256k1,
}
use webtoken.Jwk.{text_at}
use webtoken.Jwk.Ec.{curve_oid_of, pub_key, public_part, ec_private_der, ec_private_bytes, ec_bytes}
use webtoken.Jwk.Extract.{extract_key_bytes}
use webtoken.KeyConversion.{encoded}
use webtoken.KeyConversion.Ec.{
  sec1_jwk, sec1_curve, named_curve, name_of, inner_or, pkcs8_header, parse_sec1, parse_ec_private,
  public_coordinates,
}

abbrev found : Option Text → Bytes → Result Text (Option Text × Bytes)
found crv inner = ok (crv, inner)

-- The OID of a curve that extract_key_bytes knows leads oid_to_curve_info back to its name.
record IsCurve (crv oid : Bytes) : Type 0 where
  pub content : Bytes
  pub len : ℕ
  pub oid-eq : oid ≡ tlv 0x06 content
  pub length-content : length content ≤ 10
  pub info : oid_to_curve_info content ≡ some (crv, len)

made-IsCurve :
    {crv oid : Bytes} (name c : Bytes) (n : ℕ)
    → crv ≡ name
    → oid ≡ tlv 0x06 c
    → length c ≤ 10
    → oid_to_curve_info c ≡ some (name, n)
    → IsCurve crv oid
made-IsCurve name c n crv-eq eq short known = record {
  content = c;
  len = n;
  oid-eq = eq;
  length-content = short;
  info = rw crv-eq known;
}

-- The tests of curve_oid_of, in their order.
known-IsCurve :
    {crv oid : Bytes} (name found : Bytes) (n : ℕ)
    → crv ≡ name
    → (r : Result Text Bytes) → r ≡ ok found
    → r ≡ ok oid
    → found ≡ tlv 0x06 (drop 2 found)
    → length (drop 2 found) ≤ 10
    → oid_to_curve_info (drop 2 found) ≡ some (name, n)
    → IsCurve crv oid
known-IsCurve {oid = oid} name found n crv-eq r e f eq short known =
    let oid-eq : found ≡ oid = cc in
    made-IsCurve name (drop 2 found) n crv-eq (sym oid-eq ∙ eq) short known

curve_oid_of-IsCurve : (crv oid : Bytes) → curve_oid_of crv ≡ ok oid → IsCurve crv oid
unfolding curve_oid_of encode_der_len oid_to_curve_info eqb
curve_oid_of-IsCurve crv oid h = elim (Bool-cases (is crv "P-256")) [
  | inl a ↦
      known-IsCurve (lit "P-256") oid_p256 32 (is→eq crv "P-256" a) (curve_oid_of crv) (rw a) h refl
        (omega arith) refl
  | inr not_a ↦ elim (Bool-cases (is crv "P-384")) [
    | inl b ↦
        known-IsCurve (lit "P-384") oid_p384 48 (is→eq crv "P-384" b) (curve_oid_of crv)
          (rw (not_a, b)) h refl (omega arith) refl
    | inr not_b ↦ elim (Bool-cases (is crv "P-521")) [
      | inl c ↦
          known-IsCurve (lit "P-521") oid_p521 66 (is→eq crv "P-521" c) (curve_oid_of crv)
            (rw (not_a, not_b, c)) h refl (omega arith) refl
      | inr not_c ↦ elim (Bool-cases (is crv "secp256k1")) [
        | inl d ↦
            known-IsCurve (lit "secp256k1") oid_secp256k1 32 (is→eq crv "secp256k1" d)
              (curve_oid_of crv) (rw (not_a, not_b, not_c, d)) h refl (omega arith) refl
        | inr not_d ↦ let k = rw (not_a, not_b, not_c, not_d) at h in cc
      ]
    ]
  ]
]

module _ (b64 : Base64) where
  abbrev pub ec_jwk : Text → Bytes → Bytes → Bytes → Value
  ec_jwk crv d x y = object (
      field (lit "kty") (string (lit "EC")) (
        field (lit "crv") (string crv) (
          field (lit "d") (encoded b64 d)
            (field (lit "x") (encoded b64 x) (field (lit "y") (encoded b64 y) end)))))

  coordinates-public_part :
      (x y : Bytes)
      → length x ≡ length y
      → length x ≤ 1000
      → public_coordinates b64 (read_optional_explicit 1 (public_part (some (x, y)))).0
        ≡ field (lit "x") (encoded b64 x) (field (lit "y") (encoded b64 y) end)
  unfolding public_part starts_with
  coordinates-public_part x y e s = rw (
    read_optional_explicit_whole 1 (tlv 0x03 (0x00 ∷ pub_key x y))
        (omega (arith, length-tlv 0x03 (0x00 ∷ pub_key x y), length-append x y)),
    read_bit_string_whole (pub_key x y) (omega (arith, length-append x y)),
    half,
    one_more,
    take-length_append x y (length x) refl,
    drop-length_append x y (length x) refl,
  )
    where
      half : (length (pub_key x y) - 1) / 2 ≡ length x
      half = omega (arith, length-append x y)

      one_more : 1 + length x ≡ suc (length x)
      one_more = omega arith

  oid_size : (crv oid : Bytes) → IsCurve crv oid → length oid ≤ 14
  oid_size crv oid c = rw c.oid-eq (omega (arith, length-tlv 0x06 c.content, c.length-content))

  named_curve-oid : (crv oid : Bytes) → IsCurve crv oid → named_curve (read_oid oid).0 ≡ some crv
  named_curve-oid crv oid c =
      rw (c.oid-eq, read_oid_whole c.content (omega (arith, c.length-content))) (ap name_of c.info)

  after_size :
      (crv oid d x y : Bytes)
      → IsCurve crv oid
      → length d ≤ 1000
      → length x ≡ length y
      → length x ≤ 1000
      → length (tlv 0x04 d ++ (tlv 0xA0 oid ++ public_part (some (x, y)))) ≤ 4000
  after_size crv oid d x y c hd e hx = omega (
    arith,
    oid_size crv oid c,
    point_size,
    length-tlv 0x04 d,
    length-tlv 0xA0 oid,
    length-append (tlv 0x04 d) (tlv 0xA0 oid ++ public_part (some (x, y))),
    length-append (tlv 0xA0 oid) (public_part (some (x, y))),
  )
    where
      point_size : length (public_part (some (x, y))) ≤ 2010
      point_size =
          unfold public_part in
          omega (
            arith,
            length-tlv 0xA1 (tlv 0x03 (0x00 ∷ pub_key x y)),
            length-tlv 0x03 (0x00 ∷ pub_key x y),
            length-append x y,
          )

  sec1_jwk_reads :
      (outer : Option Text) (crv oid d x y : Bytes)
      → IsCurve crv oid
      → length x ≡ length y
      → length x ≤ 1000
      → sec1_jwk b64 outer d (tlv 0xA0 oid ++ public_part (some (x, y))) ≡ ok (ec_jwk crv d x y)
  unfolding sec1_jwk
  sec1_jwk_reads outer crv oid d x y c e hx = rw (
    read_optional_explicit-tlv 0 oid (public_part (some (x, y)))
        (omega (arith, oid_size crv oid c)),
    params,
    coordinates-public_part x y e hx,
  )
    where
      params : sec1_curve outer (ok (some oid)) ≡ some crv
      params = rw (sec1_curve, named_curve-oid crv oid c)

  -- The SEC1 structure, with the curve of PKCS#8 or without one.
  sec1_reads :
      (outer : Option Text) (crv oid d : Bytes) (x y : Bytes)
      → IsCurve crv oid
      → length d ≤ 1000
      → length x ≡ length y
      → length x ≤ 1000
      → parse_sec1 b64 outer (
          tlv 0x30 (
            (0x02 ∷ 0x01 ∷ 0x01 ∷ [])
            ++ (tlv 0x04 d ++ (tlv 0xA0 oid ++ public_part (some (x, y))))))
        ≡ ok (ec_jwk crv d x y)
  unfolding parse_sec1
  sec1_reads outer crv oid d x y c hd e hx =
      rw
        (
          read_sequence_whole (0x02 ∷ 0x01 ∷ 0x01 ∷ after)
              (omega (arith, after_size crv oid d x y c hd e hx)),
          read_integer_bytes-byte 0x01 after,
          read_octet_string-tlv d (tlv 0xA0 oid ++ point) (omega arith),
        )
        (sec1_jwk_reads outer crv oid d x y c e hx)
    where
      point : Bytes
      point = public_part (some (x, y))

      after : Bytes
      after = tlv 0x04 d ++ (tlv 0xA0 oid ++ point)

  -- The header of PKCS#8.
  header_reads :
      (crv oid sec1 : Bytes)
      → IsCurve crv oid
      → length sec1 ≤ 5000
      → pkcs8_header (
          tlv 0x30
            ((0x02 ∷ 0x01 ∷ 0x00 ∷ []) ++ (tlv 0x30 (oid_ec_public_key ++ oid) ++ tlv 0x04 sec1)))
        ≡ ok (some crv, sec1)
  unfolding pkcs8_header starts_with eqb
  header_reads crv oid sec1 c h =
      rw
        (
          read_sequence_whole (0x02 ∷ 0x01 ∷ 0x00 ∷ after) (omega (arith, sizes)),
          read_integer_bytes-byte 0x00 after,
          read_sequence-tlv algo (tlv 0x04 sec1) (omega (arith, algo_size)),
          algo-eq,
          read_oid-tlv (drop 2 oid_ec_public_key) oid (omega arith),
        )
        (ends _)
    where
      algo : Bytes
      algo = oid_ec_public_key ++ oid

      after : Bytes
      after = tlv 0x30 algo ++ tlv 0x04 sec1

      algo-eq : algo ≡ tlv 0x06 (drop 2 oid_ec_public_key) ++ oid
      algo-eq = unfold encode_der_len in refl

      ends :
          (der : Bytes)
          → found
              (named_curve (read_oid oid).0)
              (inner_or der (read_octet_string (tlv 0x04 sec1)).0)
            ≡ ok (some crv, sec1)
      ends der =
          rw (named_curve-oid crv oid c, inner_or, read_octet_string_whole sec1 (omega arith))

      algo_size : length algo ≤ 30
      algo_size = omega (arith, oid_size crv oid c)

      sizes : length after ≤ 5100
      sizes = omega (
        arith,
        algo_size,
        length-tlv 0x30 algo,
        length-tlv 0x04 sec1,
        length-append (tlv 0x30 algo) (tlv 0x04 sec1),
      )

  parse_ec_private_der :
      (crv oid d x y : Bytes)
      → IsCurve crv oid
      → length d ≤ 1000
      → length x ≡ length y
      → length x ≤ 1000
      → parse_ec_private b64 (ec_private_der oid d (some (x, y))) ≡ ok (ec_jwk crv d x y)
  unfolding parse_ec_private ec_private_der
  parse_ec_private_der crv oid d x y c hd e hx =
      rw (header_reads crv oid (tlv 0x30 sec1) c sec1_size)
        (sec1_reads (some crv) crv oid d x y c hd e hx)
    where
      sec1 : Bytes
      sec1 =
          (0x02 ∷ 0x01 ∷ 0x01 ∷ []) ++ (tlv 0x04 d ++ (tlv 0xA0 oid ++ public_part (some (x, y))))

      sec1_size : length (tlv 0x30 sec1) ≤ 5000
      sec1_size = omega (arith, after_size crv oid d x y c hd e hx, length-tlv 0x30 sec1)

  ec_arm :
      (big : BigNumbers) (fill : ℕ → ℕ → ℕ → Option Bytes) (jwk : Value)
      → text_at jwk "kty" ≡ some (lit "EC")
      → extract_key_bytes b64 big fill jwk false ≡ ec_bytes b64 jwk false
  unfolding extract_key_bytes is eqb lit
  ec_arm big fill jwk kty = rw kty

  ec_bytes-private :
      {crv oid d_b64 x_b64 y_b64 d x y : Bytes}
      → (jwk : Value) → text_at jwk "crv" ≡ some crv
      → curve_oid_of crv ≡ ok oid
      → text_at jwk "d" ≡ some d_b64
      → b64.url_decode d_b64 ≡ ok d
      → text_at jwk "x" ≡ some x_b64
      → b64.url_decode x_b64 ≡ ok x
      → text_at jwk "y" ≡ some y_b64
      → b64.url_decode y_b64 ≡ ok y
      → ec_bytes b64 jwk false ≡ ok (ec_private_der oid d (some (x, y)))
  unfolding ec_bytes ec_private_bytes
  ec_bytes-private jwk c o d d-eq x x-eq y y-eq =
      rw (ec_bytes, d, ec_private_bytes, d-eq, c, o, x, y, x-eq, y-eq)

  -- A private EC key on one of the four curves, with coordinates of one length and numbers of at most
  -- 1000 bytes: parse_ec_private reads what extract_key_bytes writes for it, as a JWK with the same
  -- curve, private number and coordinates.
  pub parse_ec_private-extract_key_bytes :
      (big : BigNumbers) (fill : ℕ → ℕ → ℕ → Option Bytes) (jwk : Value)
      (crv oid d_b64 x_b64 y_b64 : Text) (d x y : Bytes)
      → text_at jwk "kty" ≡ some (lit "EC")
      → text_at jwk "crv" ≡ some crv
      → curve_oid_of crv ≡ ok oid
      → (text_at jwk "d" ≡ some d_b64) × (b64.url_decode d_b64 ≡ ok d) × (length d ≤ 1000)
      → (text_at jwk "x" ≡ some x_b64) × (b64.url_decode x_b64 ≡ ok x) × (length x ≤ 1000)
      → (text_at jwk "y" ≡ some y_b64) × (b64.url_decode y_b64 ≡ ok y) × (length x ≡ length y)
      → (der : Bytes) × (extract_key_bytes b64 big fill jwk false ≡ ok der)
        × (parse_ec_private b64 der ≡ ok (ec_jwk crv d x y))
  parse_ec_private-extract_key_bytes big fill jwk crv oid d_b64 x_b64 y_b64 d x y kty crv-eq oid-eq
        hd hx hy =
      (
        ec_private_der oid d (some (x, y)),
        ec_arm big fill jwk kty ∙ ec_bytes-private jwk crv-eq oid-eq hd.0 hd.1 hx.0 hx.1 hy.0 hy.1,
        parse_ec_private_der crv oid d x y (curve_oid_of-IsCurve crv oid oid-eq) hd.2 hy.2 hx.2,
      )
