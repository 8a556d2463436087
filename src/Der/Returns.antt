-- ===== src/Der/Returns.antt =====
-- The methods of DerReader return a value or an error on every input.
use webtoken.Common.{
  ℕ, ◌≡◌, ◌≢◌, refl, Bool, true, false, ◌>>◌, ◌==◌, ◌∷◌, [], ltb, bit_and, Bytes, Text, Result, ok,
  err, panic, ◌>>=◌, guard, map_err, if◌then◌else◌, length,
}
use webtoken.Der.{
  Reader, try, read_content, read_tag, strip_zeros, read_sequence, read_integer_bytes, read_oid,
  read_octet_string,
}

abbrev made : Bytes → Result Text Bytes
made a = ok a

pub >>=-returns :
    {E A B : Type 0} (run : Result E A) (f : A → Result E B)
    → run ≢ panic
    → ((a : A) → run ≡ ok a → f a ≢ panic)
    → (run >>= f) ≢ panic
>>=-returns (ok a) f r h = h a refl
>>=-returns (err e) f r h = λ e. cc
>>=-returns panic f r h = λ e. r refl

pub map_err-returns :
    {E F A : Type 0} (f : E → F) (run : Result E A) → run ≢ panic → map_err f run ≢ panic
map_err-returns f (ok a) h = λ e. cc
map_err-returns f (err e) h = λ e. cc
map_err-returns f panic h = λ e. h refl

guard_returns : (b : Bool) (e : Text) (content : Bytes) → (guard b e >> made content) ≢ panic
guard_returns true e content = λ e. cc
guard_returns false e content = λ e. cc

pub guard_then :
    {A : Type 0} (b : Bool) (e : Text) (next : Result Text A)
    → next ≢ panic
    → (guard b e >> next) ≢ panic
guard_then true e next h = h
guard_then false e next h = λ k. cc

pub either-returns :
    {A : Type 0} (b : Bool) (x y : Result Text A)
    → x ≢ panic
    → y ≢ panic
    → (if b then x else y) ≢ panic
either-returns true x y h k = h
either-returns false x y h k = k

either_reader-returns :
    {A : Type 0} (b : Bool) (x y : Result Text A × Bytes)
    → x.0 ≢ panic
    → y.0 ≢ panic
    → (if b then x else y).0 ≢ panic
either_reader-returns true x y h k = h
either_reader-returns false x y h k = k

read_content_returns : (tag len : ℕ) (input : Bytes) → (read_content tag len input).0 ≢ panic
unfolding read_content
read_content_returns tag len input =
    either_reader-returns (ltb (length input) len) _ _ (λ e. cc) (λ e. cc)

read_tag_returns : (input : Bytes) → (read_tag input).0 ≢ panic
unfolding read_tag
read_tag_returns [] = λ e. cc
read_tag_returns (tag ∷ []) = λ e. cc
read_tag_returns (tag ∷ len ∷ input) =
    either_reader-returns (bit_and len 0x80 == 0) _ _ (read_content_returns tag len input) (
      either_reader-returns (ltb (length input) (bit_and len 0x7F)) _ _ (λ e. cc)
        (read_content_returns tag _ _))

pub read_sequence_returns : (input : Bytes) → (read_sequence input).0 ≢ panic
unfolding read_sequence
read_sequence_returns input =
    >>=-returns (read_tag input).0 _ (read_tag_returns input)
      λ (tag, content) _. guard_returns (tag == 0x30) _ content

pub read_integer_bytes_returns : (input : Bytes) → (read_integer_bytes input).0 ≢ panic
unfolding read_integer_bytes
read_integer_bytes_returns input =
    >>=-returns (read_tag input).0 _ (read_tag_returns input)
      λ (tag, content) _. guard_returns (tag == 0x02) _ (strip_zeros content)

pub read_octet_string_returns : (input : Bytes) → (read_octet_string input).0 ≢ panic
unfolding read_octet_string
read_octet_string_returns input =
    >>=-returns (read_tag input).0 _ (read_tag_returns input)
      λ (tag, content) _. guard_returns (tag == 0x04) _ content

pub read_oid_returns : (input : Bytes) → (read_oid input).0 ≢ panic
unfolding read_oid
read_oid_returns input =
    >>=-returns (read_tag input).0 _ (read_tag_returns input)
      λ (tag, content) _. guard_returns (tag == 0x06) _ content

pub try-returns :
    (f : Text → Text) (m : Reader Bytes) (input : Bytes)
    → (m input).0 ≢ panic
    → map_err f (try m input) ≢ panic
try-returns f m input h =
    map_err-returns f (try m input) (>>=-returns (m input).0 _ h (λ a found e. cc))
