-- ===== src/X509/Metadata.antt =====
-- get_x509_metadata of src/crypto_parsing.rs. The dictionary is a record: a key that is not set is none.
use webtoken.Common.{
  ℕ, zero, suc, ◌+◌, ◌-◌, ◌/◌, ◌%◌, bit_and, List, [], ◌∷◌, ◌++◌, Option, none, some, Bytes, Text,
  Result, ok, err, panic, ◌>>=◌, ltb, ◌==◌, if◌then◌else◌, length, lit, eqb, from_be_bytes,
}
use webtoken.Der.{
  try, read_tag, read_sequence, read_integer_bytes, read_oid, read_bit_string,
  read_optional_explicit, read_optional_implicit, read_tlv,
}
use webtoken.X509.{skip}
use webtoken.X509.Name.{parse_x509_name}
use webtoken.X509.Time.{parse_asn1_time}

pub record X509Metadata : Type 0 where
  pub serial : Option Text
  pub issuer : Option Text
  pub not_before : Option ℕ
  pub not_after : Option ℕ
  pub aki : Option Text
  pub key_usages : List Text

abbrev flag : ℕ → ℕ → Text → List Text
flag b mask usage = if bit_and b mask == 0 then [] else usage ∷ []

abbrev decipher_only : Bytes → List Text
decipher_only [] = []
decipher_only (b ∷ bits) = flag b 0x80 (lit "decipherOnly")

-- What the bits of a key usage add to `usages`.
unfoldable pub usages_of : Bytes → List Text
usages_of [] = []
usages_of (b ∷ bits) =
    flag b 0x80 (lit "digitalSignature")
    ++ (flag b 0x40 (lit "nonRepudiation")
        ++ (flag b 0x20 (lit "keyEncipherment")
            ++ (flag b 0x10 (lit "dataEncipherment")
                ++ (flag b 0x08 (lit "keyAgreement")
                    ++ (flag b 0x04 (lit "keyCertSign")
                        ++ (flag b 0x02 (lit "cRLSign")
                            ++ (flag b 0x01 (lit "encipherOnly") ++ decipher_only bits)))))))

abbrev upper_digit : ℕ → ℕ
upper_digit d = if ltb d 10 then b'0' + d else b'A' + (d - 10)

-- `{:02X}` of each byte.
unfoldable pub hex_upper : Bytes → Text
hex_upper [] = []
hex_upper (b ∷ bytes) = upper_digit (b / 16) ∷ upper_digit (b % 16) ∷ hex_upper bytes

abbrev oid_key_usage : Bytes
oid_key_usage = 0x55 ∷ 0x1d ∷ 0x0f ∷ []

abbrev oid_authority_key_identifier : Bytes
oid_authority_key_identifier = 0x55 ∷ 0x1d ∷ 0x23 ∷ []

abbrev bits_usages : Result Text Bytes → List Text
bits_usages (ok bits) = usages_of bits
bits_usages _ = []

abbrev kid_or : Option Text → Result Text (Option Bytes) → Option Text
kid_or aki (ok (some kid)) = some (hex_upper kid)
kid_or aki _ = aki

abbrev aki_or : Option Text → Result Text Bytes → Option Text
aki_or aki (ok aki_seq) = kid_or aki (read_optional_implicit 0 aki_seq).0
aki_or aki _ = aki

-- `unwrap` of a reading.
abbrev unwrap : {A : Type 0} → Result Text A → Result Text A
unwrap (ok a) = ok a
unwrap _ = panic

abbrev or_empty : Result Text Bytes → Bytes
or_empty (ok oid) = oid
or_empty _ = []

-- The object of an extension behind its OID; the flag CRITICAL is skipped.
unfoldable pub extension_value : Bytes → Result Text (ℕ × Bytes)
extension_value ext = do
  ((tag, content), rest) ← unwrap (try read_tag ext)
  if tag == 0x01 then unwrap (read_tag rest).0 else ok (tag, content)

-- One extension; the key identifier and the usages after it.
unfoldable pub on_extension :
    Bytes → Option Text × List Text → Result Text (Option Text × List Text)
on_extension ext (aki, usages) = do
  let (oid, ext) = read_oid ext
  (tag, content) ← extension_value ext
  ok (
      if tag == 0x04
      then (if eqb (or_empty oid) oid_key_usage
          then (aki, usages ++ bits_usages (read_bit_string content).0)
          else if eqb (or_empty oid) oid_authority_key_identifier
          then (aki_or aki (read_sequence content).0, usages)
          else (aki, usages))
      else (aki, usages))

-- The loop over the extensions. The fuel is the number of bytes.
unfoldable pub extensions :
    ℕ → Bytes → Option Text × List Text → Result Text (Option Text × List Text)
extensions fuel [] found = ok found
extensions zero (b ∷ bs) found = ok found
extensions (suc fuel) (b ∷ bs) found =
    let next = extensions fuel in
    let (r, ext_seq) = read_sequence (b ∷ bs) in
    elim r [
      | ok ext ↦ on_extension ext found >>= next ext_seq
      | err e ↦ next ext_seq found
      | panic ↦ panic
    ]

abbrev extensions_of : Result Text (Option Bytes) → Result Text (Option Text × List Text)
extensions_of (ok (some ext_wrapper)) = elim (read_sequence ext_wrapper).0 [
  | ok ext_seq ↦ extensions (length ext_seq) ext_seq (none, [])
  | err e ↦ ok (none, [])
  | panic ↦ panic
]
extensions_of _ = ok (none, [])

-- `if let Ok((t, c)) = validity.read_tag()`, and the time in it.
unfoldable pub time_of : Result Text (ℕ × Bytes) → Result Text (Option ℕ)
time_of (err e) = ok none
time_of panic = panic
time_of (ok (t, c)) = elim (parse_asn1_time t c) [
  | ok ts ↦ ok (some ts)
  | err e ↦ ok none
  | panic ↦ panic
]

unfoldable pub validity_of : Result Text Bytes → Result Text (Option ℕ × Option ℕ)
validity_of (err e) = ok (none, none)
validity_of panic = panic
validity_of (ok validity) = do
  let (first, rest) = read_tag validity
  not_before ← time_of first
  not_after ← time_of (read_tag rest).0
  ok (not_before, not_after)

abbrev serial_of : (ℕ → Text) → Result Text Bytes → Option Text
serial_of to_text (ok serial_bytes) = some (to_text (from_be_bytes 0 serial_bytes))
serial_of to_text _ = none

abbrev issuer_of : Result Text Bytes → Option Text
issuer_of (ok issuer_der) = some (parse_x509_name issuer_der)
issuer_of _ = none

-- The part of get_x509_metadata behind the issuer.
unfoldable pub validity_and_extensions :
    Option Text → Option Text → Bytes → Result Text X509Metadata
validity_and_extensions serial issuer tbs = do
  let (validity, tbs) = read_sequence tbs
  (not_before, not_after) ← validity_of validity
  let tbs = skip read_sequence tbs
  let tbs = skip read_tag tbs
  let tbs = skip (read_optional_implicit 1) tbs
  let tbs = skip (read_optional_implicit 2) tbs
  (aki, usages) ← extensions_of (read_optional_explicit 3 tbs).0
  ok record {
    serial = serial;
    issuer = issuer;
    not_before = not_before;
    not_after = not_after;
    aki = aki;
    key_usages = usages;
  }

-- get_x509_metadata; `to_text` prints the serial number.
unfoldable pub get_x509_metadata : (ℕ → Text) → Bytes → Result Text X509Metadata
get_x509_metadata to_text der_bytes = do
  cert ← (read_sequence der_bytes).0
  tbs ← (read_sequence cert).0
  let tbs = skip (read_optional_explicit 0) tbs
  let (serial, tbs) = read_integer_bytes tbs
  let tbs = skip read_sequence tbs
  let (issuer, tbs) = read_tlv tbs
  validity_and_extensions (serial_of to_text serial) (issuer_of issuer) tbs
