-- ===== src/Der/Integers.antt =====
-- `encode_der_int` and `read_integer_bytes`.
use webtoken.Common.{
  false, starts_with, AreBytes, ℕ, ◌+◌, ◌^◌, ◌≤◌, ◌<◌, bit_and, ◌≡◌, refl, sym, inl, inr, [], ◌∷◌,
  ◌++◌, append-nil, Bytes, ok, ◌==◌, if◌then◌else◌, Bool-cases, length, from_be_bytes, arith,
}
use native.Mathlib.Numerals.{add-one}
use webtoken.Der.{
  encode_der_len, trim_zeros, integer_body, encode_der_int, strip_zeros, read_integer_bytes,
}
use webtoken.Der.Tlv.{read_tag-tlv, tlv, length-tlv}

-- The content bytes that `encode_der_int` writes for `bs`.
integer_content : Bytes → Bytes
integer_content [] = []
integer_content (x ∷ xs) = if bit_and x 0x80 == 0 then x ∷ xs else 0x00 ∷ x ∷ xs

integer_body_lem :
    (bs : Bytes)
    → integer_body bs ≡ encode_der_len (length (integer_content bs)) ++ integer_content bs
unfolding integer_body integer_content
integer_body_lem [] = sym (append-nil (encode_der_len 0))
integer_body_lem (x ∷ xs) = elim (Bool-cases (bit_and x 0x80 == 0)) [
  | inl clear ↦ rw clear
  | inr top ↦ rw (top, add-one)
]

strip-trim : (bs : Bytes) → strip_zeros (trim_zeros bs) ≡ strip_zeros bs
unfolding strip_zeros trim_zeros
strip-trim [] = refl
strip-trim (x ∷ []) = refl
strip-trim (x ∷ y ∷ rest) = ground (arith, strip-trim (y ∷ rest))

strip-content : (bs : Bytes) → strip_zeros (integer_content bs) ≡ strip_zeros bs
unfolding strip_zeros integer_content
strip-content [] = refl
strip-content (x ∷ xs) = ground arith

length-trim_zeros : (bs : Bytes) → length (trim_zeros bs) ≤ length bs
unfolding trim_zeros
length-trim_zeros [] = omega arith
length-trim_zeros (x ∷ []) = omega arith
length-trim_zeros (x ∷ y ∷ rest) = ground (arith, length-trim_zeros (y ∷ rest))

length-integer_content : (bs : Bytes) → length (integer_content bs) ≤ length bs + 1
unfolding integer_content
length-integer_content [] = omega arith
length-integer_content (x ∷ xs) = ground arith

-- What `encode_der_int` writes for `bs`, a few bytes longer, reads back as `bs` without leading zeros.
pub record IsWritten (bs out : Bytes) : Type 0 where
  pub writes : encode_der_int bs ≡ ok out
  pub length-out : length out ≤ length bs + 5
  pub reads : (rest : Bytes) → read_integer_bytes (out ++ rest) ≡ (ok (strip_zeros bs), rest)
  pub not_sequence : (rest : Bytes) → starts_with (0x30 ∷ []) (out ++ rest) ≡ false

integer_tlv :
    (x : ℕ) (xs : Bytes)
    → length (x ∷ xs) + 1 < 2 ^ 16
    → IsWritten (x ∷ xs) (tlv 0x02 (integer_content (trim_zeros (x ∷ xs))))
unfolding encode_der_int read_integer_bytes starts_with
integer_tlv x xs k = record {
  writes = rw (integer_body_lem trimmed);
  length-out = omega (
    arith,
    length-tlv 0x02 (integer_content trimmed),
    length-integer_content trimmed,
    length-trim_zeros (x ∷ xs),
  );
  reads = λ rest. rw (
    read_tag-tlv 0x02 (integer_content trimmed) rest small,
    strip-content trimmed,
    strip-trim (x ∷ xs),
  );
  not_sequence = λ rest. refl;
}
  where
    trimmed : Bytes
    trimmed = trim_zeros (x ∷ xs)

    small : length (integer_content trimmed) < 2 ^ 16
    small = omega (arith, length-integer_content trimmed, length-trim_zeros (x ∷ xs))

pub encode_der_int-IsWritten :
    (bs : Bytes) → 0 < length bs → length bs + 1 < 2 ^ 16 → (out : Bytes) × IsWritten bs out
encode_der_int-IsWritten [] h k = absurd (omega arith)
encode_der_int-IsWritten (x ∷ xs) h k = (_, integer_tlv x xs k)

-- `read_integer_bytes` on what `encode_der_int` wrote for `bs`, one byte or more and below 2^16 - 1,
-- returns `bs` without its leading zeros (one byte is kept), and leaves what follows.
pub read_integer_bytes-encode_der_int :
    (bs rest : Bytes)
    → 0 < length bs
    → length bs + 1 < 2 ^ 16
    → (out : Bytes) × (encode_der_int bs ≡ ok out)
      × (read_integer_bytes (out ++ rest) ≡ (ok (strip_zeros bs), rest))
read_integer_bytes-encode_der_int bs rest h k =
    let (out, w) = encode_der_int-IsWritten bs h k in (out, w.writes, w.reads rest)

-- The number that the bytes stand for is not changed by `strip_zeros`.
pub from_be_bytes-strip_zeros : (bs : Bytes) → from_be_bytes 0 (strip_zeros bs) ≡ from_be_bytes 0 bs
unfolding strip_zeros from_be_bytes
from_be_bytes-strip_zeros [] = refl
from_be_bytes-strip_zeros (x ∷ []) = refl
from_be_bytes-strip_zeros (x ∷ y ∷ rest) = ground (arith, from_be_bytes-strip_zeros (y ∷ rest))

pub strip_zeros-AreBytes : (bs : Bytes) → AreBytes bs → AreBytes (strip_zeros bs)
unfolding strip_zeros
strip_zeros-AreBytes [] h = tt
strip_zeros-AreBytes (x ∷ []) h = h
strip_zeros-AreBytes (x ∷ y ∷ rest) h = ground (arith, strip_zeros-AreBytes (y ∷ rest) h.1)
