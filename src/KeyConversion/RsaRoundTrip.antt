-- ===== src/KeyConversion/RsaRoundTrip.antt =====
-- An RSA key that extract_key_bytes writes is read back by parse_rsa_public and parse_rsa_private.
use webtoken.Common.{
  ℕ, ◌≤◌, ◌≡◌, refl, ap, true, false, [], ◌∷◌, ◌++◌, Option, none, some, Bytes, Text, ok, ok_or,
  >>=-eq-ok, length, length-append, lit, eqb, is, starts_with, arith,
}
use Prim.Native.String.{String}
use webtoken.External.{Base64, Base64Laws}
use webtoken.BigNumbers.{BigNumbers, BytesLaws}
use webtoken.Json.{Value, get, and_then_str, lookup}
use webtoken.Der.{read_integer_bytes, strip_zeros, encode_der_len}
use webtoken.Der.Tlv.{
  tlv, length-tlv, read_sequence-tlv, read_sequence_whole, read_bit_string_whole,
}
use webtoken.Der.Oids.{oid_rsa_encryption}
use webtoken.Der.Integers.{
  IsWritten, encode_der_int-IsWritten, strip_zeros-AreBytes, from_be_bytes-strip_zeros,
}
use webtoken.Jwk.{text_at, is_some}
use webtoken.Jwk.Rsa.{
  RsaPrivateComponents, get_biguint, extract_or_recover_rsa_components, given, encode_der_ints,
  rsa_private_der, rsa_public_der, rsa_algo_wrap,
}
use webtoken.Jwk.Extract.{rsa_bytes, extract_key_bytes}
use webtoken.KeyConversion.{
  rsa_private_object, rsa_private_jwk, parse_rsa_layers, parse_rsa_private, pkcs1_reader,
  rsa_public_object, parse_rsa_public,
}

-- parse_rsa_public finds the PKCS#1 key behind a short algorithm identifier.
pkcs1_reader-tlv :
    (algo seq : Bytes)
    → length algo ≤ 100
    → length seq ≤ 60000
    → pkcs1_reader (tlv 0x30 algo ++ tlv 0x03 (0x00 ∷ tlv 0x30 seq)) ≡ ok seq
unfolding pkcs1_reader starts_with
pkcs1_reader-tlv algo seq ha hs =
    rw
      (
        read_sequence-tlv algo (tlv 0x03 (0x00 ∷ tlv 0x30 seq)) (omega arith),
        read_bit_string_whole (tlv 0x30 seq) (omega (arith, length-tlv 0x30 seq)),
      )
      (ap (λ r. r.0) (read_sequence_whole seq (omega arith)))

parse_rsa_public-tlv :
    (b64 : Base64) (algo seq n e rest : Bytes)
    → length algo ≤ 100
    → length seq ≤ 60000
    → read_integer_bytes seq ≡ (ok n, rest)
    → read_integer_bytes rest ≡ (ok e, [])
    → parse_rsa_public b64 (tlv 0x30 (tlv 0x30 algo ++ tlv 0x03 (0x00 ∷ tlv 0x30 seq)))
      ≡ ok (rsa_public_object b64 n e)
unfolding parse_rsa_public
parse_rsa_public-tlv b64 algo seq n e rest ha hs hn he = rw (
  read_sequence_whole (tlv 0x30 algo ++ tlv 0x03 (0x00 ∷ tlv 0x30 seq)) (
      omega (
        arith,
        length-append (tlv 0x30 algo) (tlv 0x03 (0x00 ∷ tlv 0x30 seq)),
        length-tlv 0x30 algo,
        length-tlv 0x03 (0x00 ∷ tlv 0x30 seq),
        length-tlv 0x30 seq,
      )),
  pkcs1_reader-tlv algo seq ha hs,
  hn,
  he,
)

rsa_private_jwk-reads :
    {n_bytes e_bytes d_bytes p_bytes q_bytes dp_bytes dq_bytes qi_bytes n_out e_out d_out p_out
      q_out dp_out dq_out qi_out : Bytes}
    → (b64 : Base64) → IsWritten n_bytes n_out
    → IsWritten e_bytes e_out
    → IsWritten d_bytes d_out
    → IsWritten p_bytes p_out
    → IsWritten q_bytes q_out
    → IsWritten dp_bytes dp_out
    → IsWritten dq_bytes dq_out
    → IsWritten qi_bytes qi_out
    → rsa_private_jwk b64 (
        n_out ++ (e_out ++ (d_out ++ (p_out ++ (q_out ++ (dp_out ++ (dq_out ++ (qi_out ++ []))))))))
      ≡ ok (
          rsa_private_object b64
            (strip_zeros n_bytes)
            (strip_zeros e_bytes)
            (strip_zeros d_bytes)
            (strip_zeros p_bytes)
            (strip_zeros q_bytes)
            (strip_zeros dp_bytes)
            (strip_zeros dq_bytes)
            (strip_zeros qi_bytes))
unfolding rsa_private_jwk
rsa_private_jwk-reads {e_out = e_out} {d_out = d_out} {p_out = p_out} {q_out = q_out}
      {dp_out = dp_out} {dq_out = dq_out} {qi_out = qi_out} b64 wn we wd wp wq wdp wdq wqi =
    rw (
      wn.reads (e_out ++ (d_out ++ (p_out ++ (q_out ++ (dp_out ++ (dq_out ++ (qi_out ++ []))))))),
      we.reads (d_out ++ (p_out ++ (q_out ++ (dp_out ++ (dq_out ++ (qi_out ++ [])))))),
      wd.reads (p_out ++ (q_out ++ (dp_out ++ (dq_out ++ (qi_out ++ []))))),
      wp.reads (q_out ++ (dp_out ++ (dq_out ++ (qi_out ++ [])))),
      wq.reads (dp_out ++ (dq_out ++ (qi_out ++ []))),
      wdp.reads (dq_out ++ (qi_out ++ [])),
      wdq.reads (qi_out ++ []),
      wqi.reads [],
    )

parse_rsa_private-tlv :
    {zero_out : Bytes}
    → (b64 : Base64) (rest : Bytes) (jwk : Value) → IsWritten (0x00 ∷ []) zero_out
    → length rest ≤ 60000
    → starts_with (0x30 ∷ []) rest ≡ false
    → rsa_private_jwk b64 rest ≡ ok jwk
    → parse_rsa_private b64 (tlv 0x30 (zero_out ++ rest)) ≡ ok jwk
unfolding parse_rsa_private parse_rsa_layers
parse_rsa_private-tlv {zero_out} b64 rest jwk w h plain reads = rw (
  read_sequence_whole (zero_out ++ rest) (omega (arith, w.length-out, length-append zero_out rest)),
  w.reads rest,
  plain,
  reads,
)

module _ {b64 : Base64} (laws : Base64Laws b64) {big : BigNumbers} (big_laws : BytesLaws big) where
  -- A number of at most 4096 bytes.
  abbrev pub Fits : ℕ → Type 0
  Fits n = length (big.to_bytes_be n) ≤ 4096

  number : (n : ℕ) → Fits n → (out : Bytes) × IsWritten (big.to_bytes_be n) out
  number n h =
      encode_der_int-IsWritten (big.to_bytes_be n) (big_laws.length-to_bytes_be n) (omega arith)

  -- A field of a JWK that holds the bytes of a number.
  get_biguint-encoded :
      (jwk : Value) (name : String) (n : ℕ)
      → text_at jwk name ≡ some (b64.url_encode (strip_zeros (big.to_bytes_be n)))
      → get_biguint b64 jwk name ≡ ok n
  unfolding get_biguint
  get_biguint-encoded jwk name n h = rw (
    h,
    laws.url_decode-encode (strip_zeros (big.to_bytes_be n))
        (strip_zeros-AreBytes _ (big_laws.to_bytes_be-AreBytes n)),
    from_be_bytes-strip_zeros (big.to_bytes_be n),
    big_laws.from_be_bytes-to_bytes_be n,
  )

  pub public_round_trip :
      (n e : ℕ)
      → Fits n
      → Fits e
      → (der : Bytes) × (jwk : Value) × (rsa_public_der big n e ≡ ok der)
        × (parse_rsa_public b64 der ≡ ok jwk)
        × (get_biguint b64 jwk "n" ≡ ok n)
        × (get_biguint b64 jwk "e" ≡ ok e)
  public_round_trip n e fn fe =
      let (n_out, wn) = number n fn in
      let (e_out, we) = number e fe in
      let seq = n_out ++ (e_out ++ []) in
      let jwk =
        rsa_public_object b64 (strip_zeros (big.to_bytes_be n)) (strip_zeros (big.to_bytes_be e)) in
      (
        tlv 0x30 (rsa_algo_wrap ++ tlv 0x03 (0x00 ∷ tlv 0x30 seq)),
        jwk,
        unfold rsa_public_der encode_der_ints in rw (wn.writes, we.writes),
        parse_rsa_public-tlv b64 (tlv 0x06 oid_rsa_encryption ++ 0x05 ∷ 0x00 ∷ []) seq _ _
            (e_out ++ []) (unfold encode_der_len in omega arith)
            (omega (
              arith,
              wn.length-out,
              we.length-out,
              length-append n_out (e_out ++ []),
              length-append e_out [],
            ))
            (wn.reads (e_out ++ [])) (we.reads []),
        get_biguint-encoded jwk "n" n (unfold get lookup eqb lit in refl),
        get_biguint-encoded jwk "e" e (unfold get lookup eqb lit in refl),
      )

  -- Every number of a private key fits.
  pub record AllFit (c : RsaPrivateComponents) : Type 0 where
    pub n-Fits : Fits c.n
    pub e-Fits : Fits c.e
    pub d-Fits : Fits c.d
    pub p-Fits : Fits c.p
    pub q-Fits : Fits c.q
    pub dp-Fits : Fits c.dp
    pub dq-Fits : Fits c.dq
    pub qi-Fits : Fits c.qi

  abbrev stripped : ℕ → Bytes
  stripped n = strip_zeros (big.to_bytes_be n)

  abbrev pub private_jwk : RsaPrivateComponents → Value
  private_jwk c =
      rsa_private_object b64 (stripped c.n) (stripped c.e) (stripped c.d) (stripped c.p)
        (stripped c.q) (stripped c.dp) (stripped c.dq) (stripped c.qi)

  private_round_trip :
      (c : RsaPrivateComponents)
      → AllFit c
      → (der : Bytes) × (rsa_private_der big c ≡ ok der)
        × (parse_rsa_private b64 der ≡ ok (private_jwk c))
  private_round_trip c fits =
      let (zo, wz) = encode_der_int-IsWritten (0x00 ∷ []) (omega arith) (omega arith) in
      let (n_out, wn) = number c.n fits.n-Fits in
      let (e_out, we) = number c.e fits.e-Fits in
      let (d_out, wd) = number c.d fits.d-Fits in
      let (p_out, wp) = number c.p fits.p-Fits in
      let (q_out, wq) = number c.q fits.q-Fits in
      let (dp_out, wdp) = number c.dp fits.dp-Fits in
      let (dq_out, wdq) = number c.dq fits.dq-Fits in
      let (qi_out, wqi) = number c.qi fits.qi-Fits in
      let rest =
        n_out
        ++ (e_out ++ (d_out ++ (p_out ++ (q_out ++ (dp_out ++ (dq_out ++ (qi_out ++ []))))))) in
      (
        tlv 0x30 (zo ++ rest),
        unfold rsa_private_der encode_der_ints in
            rw (
              wz.writes, wn.writes, we.writes, wd.writes, wp.writes, wq.writes, wdp.writes,
              wdq.writes, wqi.writes,
            ),
        parse_rsa_private-tlv b64 rest (private_jwk c) wz
            (omega (
              arith,
              wn.length-out,
              we.length-out,
              wd.length-out,
              wp.length-out,
              wq.length-out,
              wdp.length-out,
              wdq.length-out,
              wqi.length-out,
              length-append n_out (
                  e_out ++ (d_out ++ (p_out ++ (q_out ++ (dp_out ++ (dq_out ++ (qi_out ++ []))))))),
              length-append e_out
                  (d_out ++ (p_out ++ (q_out ++ (dp_out ++ (dq_out ++ (qi_out ++ [])))))),
              length-append d_out (p_out ++ (q_out ++ (dp_out ++ (dq_out ++ (qi_out ++ []))))),
              length-append p_out (q_out ++ (dp_out ++ (dq_out ++ (qi_out ++ [])))),
              length-append q_out (dp_out ++ (dq_out ++ (qi_out ++ []))),
              length-append dp_out (dq_out ++ (qi_out ++ [])),
              length-append dq_out (qi_out ++ []),
              length-append qi_out [],
            ))
            (wn.not_sequence _) (rsa_private_jwk-reads b64 wn we wd wp wq wdp wdq wqi),
      )

  -- The JWK has the numbers of the key.
  extract-private_jwk :
      (fill : ℕ → ℕ → ℕ → Option Bytes) (c : RsaPrivateComponents)
      → extract_or_recover_rsa_components b64 big fill (private_jwk c) ≡ ok c
  extract-private_jwk fill c =
      unfold extract_or_recover_rsa_components given get lookup eqb lit in
      rw (
        get_biguint-encoded (private_jwk c) "n" c.n (unfold get lookup eqb lit in refl),
        get_biguint-encoded (private_jwk c) "e" c.e (unfold get lookup eqb lit in refl),
        get_biguint-encoded (private_jwk c) "d" c.d (unfold get lookup eqb lit in refl),
        get_biguint-encoded (private_jwk c) "p" c.p (unfold get lookup eqb lit in refl),
        get_biguint-encoded (private_jwk c) "q" c.q (unfold get lookup eqb lit in refl),
        get_biguint-encoded (private_jwk c) "dp" c.dp (unfold get lookup eqb lit in refl),
        get_biguint-encoded (private_jwk c) "dq" c.dq (unfold get lookup eqb lit in refl),
        get_biguint-encoded (private_jwk c) "qi" c.qi (unfold get lookup eqb lit in refl),
      )

  text_at-is_some :
      (jwk : Value) (name : String) (n : ℕ)
      → get_biguint b64 jwk name ≡ ok n
      → is_some (get jwk (lit name)) ≡ true
  unfolding get_biguint
  text_at-is_some jwk name n h =
      let (s, found, _) = >>=-eq-ok (ok_or (text_at jwk name) _) _ h in
      present (get jwk (lit name)) s _ found
    where
      present :
          {E : Type 0} (o : Option Value) (s : Text) (error : E)
          → ok_or (and_then_str o) error ≡ ok s
          → is_some o ≡ true
      present none s error found = cc
      present (some v) s error found = refl

  components_read :
      (fill : ℕ → ℕ → ℕ → Option Bytes) (jwk : Value) (c : RsaPrivateComponents)
      → extract_or_recover_rsa_components b64 big fill jwk ≡ ok c
      → (n e d : ℕ) × (get_biguint b64 jwk "n" ≡ ok n)
        × (get_biguint b64 jwk "e" ≡ ok e)
        × (get_biguint b64 jwk "d" ≡ ok d)
  unfolding extract_or_recover_rsa_components
  components_read fill jwk c h =
      let (n, n-eq, h1) = >>=-eq-ok (get_biguint b64 jwk "n") _ h in
      let (e, e-eq, h2) = >>=-eq-ok (get_biguint b64 jwk "e") _ h1 in
      let (d, d-eq, _) = >>=-eq-ok (get_biguint b64 jwk "d") _ h2 in (n, e, d, n-eq, e-eq, d-eq)

  -- A private RSA key whose numbers have 4096 bytes at most, its primes given or recovered:
  -- parse_rsa_private reads what extract_key_bytes writes for it, and the JWK has the same eight numbers.
  pub parse_rsa_private-extract_key_bytes :
      (fill : ℕ → ℕ → ℕ → Option Bytes) (jwk : Value) (c : RsaPrivateComponents)
      → text_at jwk "kty" ≡ some (lit "RSA")
      → extract_or_recover_rsa_components b64 big fill jwk ≡ ok c
      → AllFit c
      → (der : Bytes) × (back : Value) × (extract_key_bytes b64 big fill jwk false ≡ ok der)
        × (parse_rsa_private b64 der ≡ ok back)
        × (extract_or_recover_rsa_components b64 big fill back ≡ ok c)
  parse_rsa_private-extract_key_bytes fill jwk c kty h fits =
      let (der, writes, reads) = private_round_trip c fits in
      let (n, e, d, n-eq, e-eq, d-eq) = components_read fill jwk c h in
      (
        der,
        private_jwk c,
        unfold extract_key_bytes rsa_bytes is eqb lit in
            rw (kty, n-eq, e-eq, text_at-is_some jwk "d" d d-eq, h) writes,
        reads,
        extract-private_jwk fill c,
      )

  -- A public RSA key whose numbers have 4096 bytes at most: parse_rsa_public reads what
  -- extract_key_bytes writes for it, and the JWK has the same modulus and exponent.
  pub parse_rsa_public-extract_key_bytes :
      (fill : ℕ → ℕ → ℕ → Option Bytes) (jwk : Value) (n e : ℕ)
      → text_at jwk "kty" ≡ some (lit "RSA")
      → get_biguint b64 jwk "n" ≡ ok n
      → get_biguint b64 jwk "e" ≡ ok e
      → Fits n
      → Fits e
      → (der : Bytes) × (back : Value) × (extract_key_bytes b64 big fill jwk true ≡ ok der)
        × (parse_rsa_public b64 der ≡ ok back)
        × (get_biguint b64 back "n" ≡ ok n)
        × (get_biguint b64 back "e" ≡ ok e)
  parse_rsa_public-extract_key_bytes fill jwk n e kty n-eq e-eq fn fe =
      let (der, back, writes, parses, n-back, e-back) = public_round_trip n e fn fe in
      (
        der,
        back,
        unfold extract_key_bytes rsa_bytes is eqb lit in rw (kty, n-eq, e-eq) writes,
        parses,
        n-back,
        e-back,
      )
