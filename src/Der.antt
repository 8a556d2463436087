-- ===== src/Der.antt =====
-- The DER builders and `DerReader` of src/crypto_parsing.rs (lines 85 to 127 and 188 to 272).
-- A builder returns the bytes that the source pushes onto `out`. A reader is a function on the
-- field `input`: it returns the outcome and the input that is left, after an error too. `usize` has
-- 64 bits.
pub mod Tlv
pub mod Integers
pub mod Progress
pub mod Returns
pub mod Oids
use webtoken.Common.{
  ℕ, zero, suc, ◌+◌, ◌-◌, ◌*◌, ◌/◌, ◌%◌, ◌^◌, bit_and, Bool, ◌&&◌, not, List, [], ◌∷◌, ◌++◌, Option,
  none, some, Bytes, Text, Result, ok, err, panic, ◌>>=◌, ◌>>◌, guard, ltb, ◌==◌, if◌then◌else◌,
  length, take, drop, lit, to_be_bytes,
}

-- encode_der_len
unfoldable pub encode_der_len : ℕ → Bytes
unfolding to_be_bytes
encode_der_len len =
    if ltb len 128
    then (len % 256) ∷ []
    else if ltb len 256
    then 0x81 ∷ (len % 256) ∷ []
    else 0x82 ∷ to_be_bytes 2 (len % 2 ^ 16)

-- The loop of `encode_der_int` over `start`: drop a zero byte before a byte with a clear top bit.
unfoldable pub trim_zeros : Bytes → Bytes
trim_zeros [] = []
trim_zeros (x ∷ []) = x ∷ []
trim_zeros (x ∷ y ∷ rest) =
    let shorter = trim_zeros (y ∷ rest) in
    if x == 0 && bit_and y 0x80 == 0 then shorter else x ∷ y ∷ rest

-- What follows the tag 0x02.
unfoldable pub integer_body : Bytes → Bytes
integer_body [] = encode_der_len 0
integer_body (x ∷ xs) =
    if bit_and x 0x80 == 0
    then encode_der_len (length (x ∷ xs)) ++ x ∷ xs
    else encode_der_len (length (x ∷ xs) + 1) ++ 0x00 ∷ x ∷ xs

-- encode_der_int. On no bytes `bytes.len() - 1` is below zero, and `bytes[start]` is out of range.
unfoldable pub encode_der_int : Bytes → Result Text Bytes
encode_der_int [] = panic
encode_der_int (x ∷ xs) = ok (0x02 ∷ integer_body (trim_zeros (x ∷ xs)))

-- encode_der_sequence
unfoldable pub encode_der_sequence : Bytes → Bytes
encode_der_sequence content = 0x30 ∷ encode_der_len (length content) ++ content

abbrev pub rsa_algorithm : Bytes
rsa_algorithm =
    0x30 ∷ 0x0d ∷ 0x06 ∷ 0x09 ∷ 0x2a ∷ 0x86 ∷ 0x48 ∷ 0x86 ∷ 0xf7 ∷ 0x0d ∷ 0x01 ∷ 0x01 ∷ 0x01 ∷ 0x05
    ∷ 0x00 ∷ []

-- wrap_pkcs1_as_pkcs8
unfoldable pub wrap_pkcs1_as_pkcs8 : Bytes → Bytes
wrap_pkcs1_as_pkcs8 pkcs1 =
    encode_der_sequence
      ((0x02 ∷ 0x01 ∷ 0x00 ∷ []) ++ rsa_algorithm ++ 0x04 ∷ encode_der_len (length pkcs1) ++ pkcs1)

abbrev pub Reader : Type 0 → Type 0
Reader A = Bytes → Result Text A × Bytes

-- The rest of a method, after a call with `?`.
abbrev pub on : {A B : Type 0} → Reader A → (A → Result Text B) → Reader B
on m f input = let (r, rest) = m input in (r >>= f, rest)

-- A call with `?` in a function that owns the reader: the value, and the reader after the call.
abbrev pub try : {A : Type 0} → Reader A → Bytes → Result Text (A × Bytes)
try m input = let (r, rest) = m input in r >>= λ a. ok (a, rest)

-- `len = (len << 8) | b` over the bytes of a long length; `<<` drops what leaves the 64 bits.
unfoldable pub long_length : ℕ → Bytes → ℕ
long_length len [] = len
long_length len (b ∷ bs) = long_length (len * 256 % 2 ^ 64 + b) bs

unfoldable pub read_content : ℕ → ℕ → Reader (ℕ × Bytes)
read_content tag len input =
    if ltb (length input) len
    then (err (lit "Content too short"), input)
    else (ok (tag, take len input), drop len input)

-- DerReader::read_tag
unfoldable pub read_tag : Reader (ℕ × Bytes)
read_tag [] = (err (lit "Unexpected EOF"), [])
read_tag (tag ∷ []) = (err (lit "Unexpected EOF reading len"), [])
read_tag (tag ∷ len ∷ input) =
    if bit_and len 0x80 == 0
    then read_content tag len input
    else let len_bytes = bit_and len 0x7F in
      if ltb (length input) len_bytes
      then (err (lit "EOF reading long len"), input)
      else read_content tag (long_length 0 (take len_bytes input)) (drop len_bytes input)

abbrev hex_digit : ℕ → ℕ
hex_digit d = if ltb d 10 then b'0' + d else b'a' + (d - 10)

-- `0x{:02x}`
unfoldable pub hex_byte : ℕ → Text
hex_byte b = b'0' ∷ b'x' ∷ hex_digit (b / 16) ∷ hex_digit (b % 16) ∷ []

-- DerReader::read_sequence; the reader that it returns is the content.
unfoldable pub read_sequence : Reader Bytes
read_sequence = on read_tag λ (tag, content). do
  guard (tag == 0x30) (lit "Expected SEQUENCE (0x30), got " ++ hex_byte tag)
  ok content

-- The loop of `read_integer_bytes`.
unfoldable pub strip_zeros : Bytes → Bytes
strip_zeros [] = []
strip_zeros (x ∷ []) = x ∷ []
strip_zeros (x ∷ y ∷ rest) =
    let shorter = strip_zeros (y ∷ rest) in if x == 0 then shorter else x ∷ y ∷ rest

-- DerReader::read_integer_bytes
unfoldable pub read_integer_bytes : Reader Bytes
read_integer_bytes = on read_tag λ (tag, content). do
  guard (tag == 0x02) (lit "Expected INTEGER (0x02), got " ++ hex_byte tag)
  ok (strip_zeros content)

-- DerReader::read_octet_string
unfoldable pub read_octet_string : Reader Bytes
read_octet_string =
    on read_tag λ (tag, content). do guard (tag == 0x04) (lit "Expected OCTET STRING"); ok content

abbrev without_unused_bits : Bytes → Result Text Bytes
without_unused_bits [] = err (lit "Empty BIT STRING")
without_unused_bits (_ ∷ bits) = ok bits

-- DerReader::read_bit_string
unfoldable pub read_bit_string : Reader Bytes
read_bit_string = on read_tag λ (tag, content). do
  guard (tag == 0x03) (lit "Expected BIT STRING")
  without_unused_bits content

-- DerReader::read_oid
unfoldable pub read_oid : Reader Bytes
read_oid = on read_tag λ (tag, content). do guard (tag == 0x06) (lit "Expected OID"); ok content

-- `0xA0 | tag_id` and `0x80 | tag_id`; the calls in the source pass a `tag_id` of at most 3.
unfoldable pub read_optional : ℕ → Reader (Option Bytes)
read_optional class [] = (ok none, [])
read_optional class (tag ∷ input) =
    if tag == class
    then on read_tag (λ (_, content). ok (some content)) (tag ∷ input)
    else (ok none, tag ∷ input)

-- DerReader::read_optional_explicit
unfoldable pub read_optional_explicit : ℕ → Reader (Option Bytes)
read_optional_explicit tag_id = read_optional (0xA0 + tag_id)

-- DerReader::read_optional_implicit
unfoldable pub read_optional_implicit : ℕ → Reader (Option Bytes)
read_optional_implicit tag_id = read_optional (0x80 + tag_id)

-- DerReader::read_tlv
unfoldable pub read_tlv : Reader Bytes
read_tlv input =
    let (r, rest) = read_tag input in
    (r >>= λ _. ok (take (length input - length rest) input), rest)
