-- ===== src/X509.antt =====
-- The certificates of src/crypto_parsing.rs (lines 276 to 505): the subject's common name, the names, the
-- public key and the metadata. The times: X509/Time.
pub mod Time
pub mod Name
pub mod Metadata
use webtoken.Common.{
  ℕ, zero, suc, ◌+◌, ◌-◌, ◌*◌, ◌/◌, ◌%◌, ◌^◌, ◌≤◌, ◌<◌, bit_and, ◌≡◌, refl, sym, ap, ◌∙◌, ◌≢◌, ◌↔◌,
  ◌⊎◌, inl, inr, Bool, true, false, not, ◌&&◌, ◌||◌, List, [], ◌∷◌, ◌++◌, append-nil, append_assoc,
  Option, none, some, Bytes, Text, bit_and_low, IsByte, AreBytes, Result, ok, err, panic, ◌>>=◌,
  ◌>>◌, guard, ok_or, map_err, >>=-eq-ok, guard-eq-ok, ltb, leb, ◌==◌, if◌then◌else◌, ==_iff,
  ltb-false, ltb-true, Bool-cases, Option-cases, and_true, length, take, drop, All, length-append,
  take-append-drop, length-take, length-drop, take-length_append, drop-length_append, drop-drop,
  drop-past, All-append, append_inj, lit, eqb, is, starts_with, eqb_refl, eqb→eq, eqb_iff, is→eq,
  is_lit, starts_with-append, to_be_bytes, to_le_bytes, from_be_bytes, length-to_le_bytes,
  length-to_be_bytes, to_le_bytes_inj, NoDot, ◌⊙◌, split_dots, split_dots-join, split_dots-NoDot,
  arith,
}
use webtoken.Unicode.{is_utf8}
use webtoken.Unicode.Utf16.{from_utf16, be_units}
use webtoken.Der.{
  Reader, try, read_tag, read_sequence, read_integer_bytes, read_oid, read_optional_explicit,
  read_tlv,
}

abbrev pub oid_common_name : Bytes
oid_common_name = 0x55 ∷ 0x04 ∷ 0x03 ∷ []

abbrev pub oid_country : Bytes
oid_country = 0x55 ∷ 0x04 ∷ 0x06 ∷ []

abbrev pub oid_org : Bytes
oid_org = 0x55 ∷ 0x04 ∷ 0x0a ∷ []

abbrev pub oid_org_unit : Bytes
oid_org_unit = 0x55 ∷ 0x04 ∷ 0x0b ∷ []

-- decode_directory_string
unfoldable pub decode_directory_string : ℕ → Bytes → Result Text Text
decode_directory_string tag content =
    if tag == 0x1E
    then (if length content % 2 == 0
        then ok_or (from_utf16 (be_units content)) (lit "Invalid UTF-16 in string")
        else err (lit "Invalid BMPString length"))
    else if is_utf8 content
    then ok content
    else err (lit "Invalid UTF-8 in string")

-- The inner loop of get_x509_subject_cn: the common name in one SET. The fuel is the number of its bytes.
unfoldable pub cn_in_set : ℕ → Bytes → Result Text (Option Text)
cn_in_set fuel [] = ok none
cn_in_set zero (b ∷ bs) = panic
cn_in_set (suc fuel) (b ∷ bs) =
    let next = cn_in_set fuel in
    try read_sequence (b ∷ bs) >>= λ (attr_seq, set_reader).
    let (oid, attr_seq) = read_oid attr_seq in
    elim oid [
      | ok found ↦
          if eqb found oid_common_name
          then (do
            (str_tag, content) ← (read_tag attr_seq).0
            name ← decode_directory_string str_tag content
            ok (some name))
          else next set_reader
      | err e ↦ next set_reader
      | panic ↦ panic
    ]

-- The outer loop.
unfoldable pub cn_in_subject : ℕ → Bytes → Result Text Text
cn_in_subject fuel [] = err (lit "Common Name (CN) not found in certificate")
cn_in_subject zero (b ∷ bs) = panic
cn_in_subject (suc fuel) (b ∷ bs) =
    let next = cn_in_subject fuel in
    try read_tag (b ∷ bs) >>= λ ((tag, set_content), subject).
    if tag == 0x31
    then (cn_in_set (length set_content) set_content >>= λ found. elim found [
      | some name ↦ ok name
      | none ↦ next subject
    ])
    else next subject

-- get_x509_subject_cn
unfoldable pub get_x509_subject_cn : Bytes → Result Text Text
get_x509_subject_cn der = do
  cert ← (read_sequence der).0
  tbs ← (read_sequence cert).0
  (_, tbs) ← try (read_optional_explicit 0) tbs
  (_, tbs) ← try read_integer_bytes tbs
  (_, tbs) ← try read_sequence tbs
  (_, tbs) ← try read_sequence tbs
  (_, tbs) ← try read_sequence tbs
  subject ← (read_sequence tbs).0
  cn_in_subject (length subject) subject

-- `let _ = tbs.read_...()`: the reader behind the call, whatever it returned.
abbrev pub skip : {A : Type 0} → Reader A → Bytes → Bytes
skip m input = (m input).1

-- get_x509_public_key
unfoldable pub get_x509_public_key : Bytes → Result Text Bytes
get_x509_public_key der_bytes = do
  cert ← (read_sequence der_bytes).0
  tbs ← (read_sequence cert).0
  let tbs = skip (read_optional_explicit 0) tbs
  let tbs = skip read_integer_bytes tbs
  let tbs = skip read_sequence tbs
  let tbs = skip read_sequence tbs
  let tbs = skip read_sequence tbs
  let tbs = skip read_sequence tbs
  (read_tlv tbs).0
