-- ===== src/Der/Progress.antt =====
-- Every read takes input: what the loops over a reader rest on.
use webtoken.Common.{
  refl, ◌>>=◌, err, panic, length-append, ◌+◌, Text, Result, ℕ, ◌≤◌, ◌<◌, bit_and, ◌≡◌, inl, inr,
  [], ◌∷◌, ◌++◌, append_assoc, Bytes, ok, ◌==◌, Bool-cases, length, take, drop, take-append-drop,
  length-drop, arith,
}
use webtoken.Der.{read_content, read_tag, long_length, on}

-- A successful `read_tag` splits the input into a header, the content and what is left.
pub read_tag_splits :
    (input : Bytes) (tag : ℕ) (content rest : Bytes)
    → read_tag input ≡ (ok (tag, content), rest)
    → (header : Bytes) × (2 ≤ length header) × (input ≡ header ++ content ++ rest)
unfolding read_tag read_content
read_tag_splits [] tag content rest e = cc
read_tag_splits (t ∷ []) tag content rest e = cc
read_tag_splits (t ∷ len ∷ input) tag content rest e =
    let n = bit_and len 0x7F in
    elim (Bool-cases (bit_and len 0x80 == 0)) [
      | inl short ↦ (t ∷ len ∷ [], omega arith, ground (arith, take-append-drop len input))
      | inr long ↦ (
        t ∷ len ∷ take n input,
        omega arith,
        ground (
          arith,
          take-append-drop n input,
          take-append-drop (long_length 0 (take n input)) (drop n input),
          append_assoc (take n input) content rest,
        ),
      )
    ]

-- On any input but the empty one `read_tag` takes a byte at least, whatever it returns.
pub read_tag_shrinks : (x : ℕ) (xs : Bytes) → length (read_tag (x ∷ xs)).1 < length (x ∷ xs)
unfolding read_tag read_content
read_tag_shrinks x [] = omega arith
read_tag_shrinks x (len ∷ input) = ground (
  arith,
  length-drop len input,
  length-drop (bit_and len 0x7F) input,
  length-drop (long_length 0 (take (bit_and len 0x7F) input)) (drop (bit_and len 0x7F) input),
)

-- What a method that reads one object and returns takes from the input.
pub on-read_tag_shrinks :
    {A : Type 0} (f : ℕ × Bytes → Result Text A) (input : Bytes) (a : A)
    → (on read_tag f input).0 ≡ ok a
    → (tag : ℕ) × (content : Bytes) × (f (tag, content) ≡ ok a)
      × (length content + length (on read_tag f input).1 + 2 ≤ length input)
on-read_tag_shrinks {A} f input a h = split (read_tag input) refl h
  where
    split :
        (p : Result Text (ℕ × Bytes) × Bytes)
        → read_tag input ≡ p
        → (p.0 >>= f) ≡ ok a
        → (tag : ℕ) × (content : Bytes) × (f (tag, content) ≡ ok a)
          × (length content + length p.1 + 2 ≤ length input)
    split (ok (tag, content), rest) e k =
        let (header, two, eq) = read_tag_splits input tag content rest e in
        (
          tag,
          content,
          k,
          rw eq
              (omega (arith, length-append (header ++ content) rest, length-append header content)),
        )
    split (err e', rest) e k = cc
    split (panic, rest) e k = cc
