-- ===== src/Der/Tlv.antt =====
-- Reading back one tag-length-value object that the builders wrote.
use webtoken.Common.{
  ℕ, ◌+◌, some, true, ◌==◌, append-nil, [], ◌+◌, ℕ, ◌-◌, ◌%◌, ◌^◌, ◌≤◌, ◌<◌, ◌≡◌, refl, ◌∙◌, inl,
  inr, ◌∷◌, ◌++◌, append_assoc, Bytes, bit_and_low, ok, err, ltb, if◌then◌else◌, ltb-false,
  Bool-cases, length, take, drop, length-append, take-length_append, drop-length_append, lit,
  to_be_bytes, arith,
}
use webtoken.Der.{
  encode_der_len, encode_der_sequence, long_length, read_content, read_tag, read_sequence, read_tlv,
  read_bit_string, read_octet_string, read_oid, read_optional, read_optional_explicit,
  read_integer_bytes, strip_zeros,
}

-- The object with this tag and content, as the builders write it.
abbrev pub tlv : ℕ → Bytes → Bytes
tlv tag content = tag ∷ encode_der_len (length content) ++ content

-- One byte is written for a length below 128, two below 256, and three from there on.
pub length-encode_der_len :
    (len : ℕ)
    → length (encode_der_len len) ≡ (if ltb len 128 then 1 else if ltb len 256 then 2 else 3)
unfolding encode_der_len
length-encode_der_len len = ground arith

pub length-tlv : (tag : ℕ) (content : Bytes) → length (tlv tag content) ≤ length content + 4
length-tlv tag content = ground (
  arith,
  length-append (encode_der_len (length content)) content,
  length-encode_der_len (length content),
)

-- `read_tag` on a written length and any input behind it: the length comes back modulo 2^16.
pub read_tag_len :
    (tag len : ℕ) (input : Bytes)
    → read_tag (tag ∷ encode_der_len len ++ input)
      ≡ read_content tag (if ltb len 256 then len else len % 2 ^ 16) input
unfolding read_tag encode_der_len long_length to_be_bytes read_content
read_tag_len tag len input = elim (Bool-cases (ltb len 128)) [
  | inl short ↦ rw short (ground (arith, bit_and_low len))
  | inr more ↦ elim (Bool-cases (ltb len 256)) [
    | inl mid ↦ rw (more, mid) (ground arith)
    | inr long ↦ rw (more, long) (ground arith)
  ]
]

read_content_fits :
    (tag len : ℕ) (content rest : Bytes)
    → len ≡ length content
    → read_content tag len (content ++ rest) ≡ (ok (tag, content), rest)
unfolding read_content
read_content_fits tag len content rest h = rw (
  ltb-false (length (content ++ rest)) len (omega (arith, length-append content rest)),
  take-length_append content rest len h,
  drop-length_append content rest len h,
)

-- A written object with a content below 2^16 bytes is read back, and what follows it is left.
pub read_tag-tlv :
    (tag : ℕ) (content rest : Bytes)
    → length content < 2 ^ 16
    → read_tag (tlv tag content ++ rest) ≡ (ok (tag, content), rest)
read_tag-tlv tag content rest h =
    read_tag-input ∙ read_content_fits tag _ content rest (ground arith)
  where
    read_tag-input :
        read_tag (tlv tag content ++ rest)
        ≡ read_content tag
            (if ltb (length content) 256 then length content else length content % 2 ^ 16)
            (content ++ rest)
    read_tag-input =
        rw (append_assoc (encode_der_len (length content)) content rest)
          (read_tag_len tag (length content) (content ++ rest))

read_content_lem :
    (tag len : ℕ) (input : Bytes)
    → read_content tag len input ≡ (
        if ltb (length input) len
        then (err (lit "Content too short"), input)
        else (ok (tag, take len input), drop len input))
unfolding read_content
read_content_lem tag len input = refl

-- A content of 2^16 bytes or more loses its length: `encode_der_sequence` writes an object that
-- reads back as its first `length content % 2^16` bytes.
pub read_sequence_oversize :
    (content : Bytes)
    → 2 ^ 16 ≤ length content
    → read_sequence (encode_der_sequence content)
      ≡ (ok (take (length content % 2 ^ 16) content), drop (length content % 2 ^ 16) content)
unfolding read_sequence encode_der_sequence
read_sequence_oversize content h = ground (
  arith,
  read_tag_len 0x30 (length content) content,
  read_content_lem 0x30 (length content % 2 ^ 16) content,
)

-- `read_sequence` undoes `encode_der_sequence` for a content below 2^16 bytes.
pub read_sequence-encode_der_sequence :
    (content rest : Bytes)
    → length content < 2 ^ 16
    → read_sequence (encode_der_sequence content ++ rest) ≡ (ok content, rest)
unfolding read_sequence encode_der_sequence
read_sequence-encode_der_sequence content rest h = rw (read_tag-tlv 0x30 content rest h)

-- For an object with a content below 2^16 bytes `read_tlv` returns exactly its bytes, tag and length
-- included, and leaves what follows.
pub read_tlv-tlv :
    (tag : ℕ) (content rest : Bytes)
    → length content < 2 ^ 16
    → read_tlv (tlv tag content ++ rest) ≡ (ok (tlv tag content), rest)
unfolding read_tlv
read_tlv-tlv tag content rest h = rw (
  read_tag-tlv tag content rest h,
  take-length_append (tlv tag content) rest (length (tlv tag content ++ rest) - length rest)
      (omega (arith, length-append (tlv tag content) rest)),
)

-- The same for a text that nothing follows, and for the other readers of one object.
pub read_tag_whole :
    (tag : ℕ) (content : Bytes)
    → length content < 2 ^ 16
    → read_tag (tlv tag content) ≡ (ok (tag, content), [])
read_tag_whole tag content h = rw (append-nil (tlv tag content)) at (read_tag-tlv tag content [] h)

pub read_sequence-tlv :
    (content rest : Bytes)
    → length content < 2 ^ 16
    → read_sequence (tlv 0x30 content ++ rest) ≡ (ok content, rest)
unfolding read_sequence
read_sequence-tlv content rest h = rw (read_tag-tlv 0x30 content rest h)

pub read_sequence_whole :
    (content : Bytes)
    → length content < 2 ^ 16
    → read_sequence (tlv 0x30 content) ≡ (ok content, [])
unfolding read_sequence
read_sequence_whole content h = rw (read_tag_whole 0x30 content h)

pub read_bit_string_whole :
    (bits : Bytes)
    → length bits + 1 < 2 ^ 16
    → read_bit_string (tlv 0x03 (0x00 ∷ bits)) ≡ (ok bits, [])
unfolding read_bit_string
read_bit_string_whole bits h = rw (read_tag_whole 0x03 (0x00 ∷ bits) (omega arith))

pub read_octet_string-tlv :
    (content rest : Bytes)
    → length content < 2 ^ 16
    → read_octet_string (tlv 0x04 content ++ rest) ≡ (ok content, rest)
unfolding read_octet_string
read_octet_string-tlv content rest h = rw (read_tag-tlv 0x04 content rest h)

pub read_octet_string_whole :
    (content : Bytes)
    → length content < 2 ^ 16
    → read_octet_string (tlv 0x04 content) ≡ (ok content, [])
unfolding read_octet_string
read_octet_string_whole content h = rw (read_tag_whole 0x04 content h)

pub read_oid-tlv :
    (content rest : Bytes)
    → length content < 2 ^ 16
    → read_oid (tlv 0x06 content ++ rest) ≡ (ok content, rest)
unfolding read_oid
read_oid-tlv content rest h = rw (read_tag-tlv 0x06 content rest h)

pub read_oid_whole :
    (content : Bytes) → length content < 2 ^ 16 → read_oid (tlv 0x06 content) ≡ (ok content, [])
unfolding read_oid
read_oid_whole content h = rw (read_tag_whole 0x06 content h)

pub read_optional_explicit-tlv :
    (tag_id : ℕ) (content rest : Bytes)
    → length content < 2 ^ 16
    → read_optional_explicit tag_id (tlv (0xA0 + tag_id) content ++ rest)
      ≡ (ok (some content), rest)
unfolding read_optional_explicit read_optional
read_optional_explicit-tlv tag_id content rest h =
    let same : ((0xA0 + tag_id) == (0xA0 + tag_id)) ≡ true = ground arith in
    rw (same, read_tag-tlv (0xA0 + tag_id) content rest h)

-- A version as the builders write it.
pub read_integer_bytes-byte :
    (b : ℕ) (rest : Bytes) → read_integer_bytes (0x02 ∷ 0x01 ∷ b ∷ rest) ≡ (ok (b ∷ []), rest)
unfolding read_integer_bytes read_tag read_content strip_zeros
read_integer_bytes-byte b rest = ground arith

pub read_optional_explicit_whole :
    (tag_id : ℕ) (content : Bytes)
    → length content < 2 ^ 16
    → read_optional_explicit tag_id (tlv (0xA0 + tag_id) content) ≡ (ok (some content), [])
read_optional_explicit_whole tag_id content h =
    rw (append-nil (tlv (0xA0 + tag_id) content)) at
      (read_optional_explicit-tlv tag_id content [] h)
