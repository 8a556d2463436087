-- ===== src/Tests/Keys.antt =====
-- Keys read and written at concrete inputs, a time of a certificate, and HKDF.
use webtoken.Common.{
  ℕ, ◌≤◌, ◌≡◌, ◌≢◌, panic, refl, Option, none, some, true, false, [], ◌∷◌, Bytes, ok, lit, length,
  arith, eqb, is, from_be_bytes,
}
use webtoken.Json.{Value, string, object, end, field, get, lookup}
use webtoken.Jwk.{text_at}
use webtoken.Jwk.Rsa.{RsaPrivateComponents, get_biguint, extract_or_recover_rsa_components, given}
use webtoken.Jwk.Ec.{curve_oid_of}
use webtoken.Der.Oids.{oid_p256}
use webtoken.Jwk.Extract.{extract_key_bytes}
use webtoken.KeyConversion.{parse_rsa_private, parse_rsa_public, parse_rsa_layers}
use webtoken.KeyConversion.Ec.{parse_ec_private}
use webtoken.KeyConversion.RsaRoundTrip.{
  AllFit, parse_rsa_private-extract_key_bytes, parse_rsa_public-extract_key_bytes,
}
use webtoken.KeyConversion.EcRoundTrip.{ec_jwk, parse_ec_private-extract_key_bytes}
use webtoken.KeyConversion.Layers.{parse_rsa_private_enough}
use webtoken.X509.Time.{TimeFields, parse_asn1_time}
use webtoken.X509.Time.Calendar.{IsDate, seconds, generalized, parse_asn1_time-generalized}
use webtoken.Tests.Instances.{base, base_laws, hex_decode}
use webtoken.Tests.Numbers.{numbers, bytes_laws, digits}

abbrev pub no_draws : ℕ → ℕ → ℕ → Option Bytes
no_draws attempt round byte_len = none

-- The key with `n` 15, `e` 3, `d` 3 and primes 5 and 3, in the base-16 letters of `Instances`.
abbrev rsa_jwk : Value
rsa_jwk = object (
    field (lit "kty") (string (lit "RSA")) (
      field (lit "n") (string (lit "ap")) (
        field (lit "e") (string (lit "ad")) (
          field (lit "d") (string (lit "ad")) (
            field (lit "p") (string (lit "af")) (
              field (lit "q") (string (lit "ad")) (
                field (lit "dp") (string (lit "ad")) (
                  field (lit "dq") (string (lit "ab"))
                    (field (lit "qi") (string (lit "ac")) end)))))))))

abbrev rsa_key : RsaPrivateComponents
rsa_key = record { n = 15; e = 3; d = 3; p = 5; q = 3; dp = 3; dq = 1; qi = 2 }

rsa_kty : text_at rsa_jwk "kty" ≡ some (lit "RSA")
unfolding get lookup eqb lit
rsa_kty = refl

rsa_components : extract_or_recover_rsa_components base numbers no_draws rsa_jwk ≡ ok rsa_key
unfolding extract_or_recover_rsa_components given get_biguint get lookup eqb lit base hex_decode
    from_be_bytes
rsa_components = refl

rsa_n : get_biguint base rsa_jwk "n" ≡ ok 15
unfolding get_biguint get lookup eqb lit base hex_decode from_be_bytes
rsa_n = refl

rsa_e : get_biguint base rsa_jwk "e" ≡ ok 3
unfolding get_biguint get lookup eqb lit base hex_decode from_be_bytes
rsa_e = refl

rsa_fits : AllFit base_laws bytes_laws rsa_key
unfolding numbers digits
rsa_fits = record {
  n-Fits = omega arith;
  e-Fits = omega arith;
  d-Fits = omega arith;
  p-Fits = omega arith;
  q-Fits = omega arith;
  dp-Fits = omega arith;
  dq-Fits = omega arith;
  qi-Fits = omega arith;
}

parse_rsa_public-extract_key_bytes_example :
    (der : Bytes) × (back : Value) × (extract_key_bytes base numbers no_draws rsa_jwk true ≡ ok der)
    × (parse_rsa_public base der ≡ ok back)
    × (get_biguint base back "n" ≡ ok 15)
    × (get_biguint base back "e" ≡ ok 3)
parse_rsa_public-extract_key_bytes_example =
    parse_rsa_public-extract_key_bytes base_laws bytes_laws no_draws rsa_jwk 15 3 rsa_kty rsa_n
      rsa_e rsa_fits.n-Fits rsa_fits.e-Fits

parse_rsa_private-extract_key_bytes_example :
    (der : Bytes) × (back : Value) × (extract_key_bytes base numbers no_draws rsa_jwk false
      ≡ ok der)
    × (parse_rsa_private base der ≡ ok back)
    × (extract_or_recover_rsa_components base numbers no_draws back ≡ ok rsa_key)
parse_rsa_private-extract_key_bytes_example =
    parse_rsa_private-extract_key_bytes base_laws bytes_laws no_draws rsa_jwk rsa_key rsa_kty
      rsa_components rsa_fits

abbrev ec_key : Value
ec_key = object (
    field (lit "kty") (string (lit "EC")) (
      field (lit "crv") (string (lit "P-256")) (
        field (lit "d") (string (lit "ab"))
          (field (lit "x") (string (lit "ac")) (field (lit "y") (string (lit "ad")) end)))))

ec_kty : text_at ec_key "kty" ≡ some (lit "EC")
unfolding get lookup eqb lit
ec_kty = refl

ec_crv : text_at ec_key "crv" ≡ some (lit "P-256")
unfolding get lookup eqb lit
ec_crv = refl

ec_oid : curve_oid_of (lit "P-256") ≡ ok oid_p256
unfolding curve_oid_of is eqb lit
ec_oid = refl

ec_d :
    (text_at ec_key "d" ≡ some (lit "ab"))
    × (base.url_decode (lit "ab") ≡ ok (1 ∷ []))
    × (length {A = ℕ} (1 ∷ []) ≤ 1000)
unfolding get lookup eqb lit base hex_decode
ec_d = (refl, refl, omega arith)

ec_x :
    (text_at ec_key "x" ≡ some (lit "ac"))
    × (base.url_decode (lit "ac") ≡ ok (2 ∷ []))
    × (length {A = ℕ} (2 ∷ []) ≤ 1000)
unfolding get lookup eqb lit base hex_decode
ec_x = (refl, refl, omega arith)

ec_y :
    (text_at ec_key "y" ≡ some (lit "ad"))
    × (base.url_decode (lit "ad") ≡ ok (3 ∷ []))
    × (length {A = ℕ} (2 ∷ []) ≡ length {A = ℕ} (3 ∷ []))
unfolding get lookup eqb lit base hex_decode
ec_y = (refl, refl, refl)

parse_ec_private-extract_key_bytes_example :
    (der : Bytes) × (extract_key_bytes base numbers no_draws ec_key false ≡ ok der)
    × (parse_ec_private base der ≡ ok (ec_jwk base (lit "P-256") (1 ∷ []) (2 ∷ []) (3 ∷ [])))
parse_ec_private-extract_key_bytes_example =
    parse_ec_private-extract_key_bytes base numbers no_draws ec_key (lit "P-256") oid_p256
      (lit "ab") (lit "ac") (lit "ad") (1 ∷ []) (2 ∷ []) (3 ∷ []) ec_kty ec_crv ec_oid ec_d ec_x
      ec_y

parse_rsa_private_enough_example :
    (parse_rsa_layers base 9 (0x30 ∷ 0x03 ∷ 0x02 ∷ 0x01 ∷ 0x00 ∷ []) ≢ panic)
    × (parse_rsa_layers base 9 (0x30 ∷ 0x03 ∷ 0x02 ∷ 0x01 ∷ 0x00 ∷ [])
        ≡ parse_rsa_private base (0x30 ∷ 0x03 ∷ 0x02 ∷ 0x01 ∷ 0x00 ∷ []))
parse_rsa_private_enough_example =
    parse_rsa_private_enough base 9 (0x30 ∷ 0x03 ∷ 0x02 ∷ 0x01 ∷ 0x00 ∷ []) (omega arith)

abbrev leap_noon : TimeFields
leap_noon = record { year = 2024; month = 2; day = 29; hour = 12; minute = 0; second = 5 }

leap_noon-IsDate : IsDate leap_noon
leap_noon-IsDate = record {
  year_in = (omega arith, omega arith);
  month_in = (omega arith, omega arith);
  day_in = (omega arith, omega arith);
  time_in = (omega arith, omega arith, omega arith);
}

parse_asn1_time-generalized_example :
    parse_asn1_time 0x18 (generalized leap_noon) ≡ ok (seconds leap_noon)
parse_asn1_time-generalized_example = parse_asn1_time-generalized leap_noon leap_noon-IsDate

leap_noon-seconds : seconds leap_noon ≡ 1709208005
leap_noon-seconds = refl
