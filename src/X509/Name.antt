-- ===== src/X509/Name.antt =====
-- parse_x509_name of src/crypto_parsing.rs.
use webtoken.Common.{
  ℕ, zero, suc, ◌≤◌, ◌<◌, ◌≡◌, refl, List, [], ◌∷◌, ◌++◌, Bytes, Text, Result, ok, ◌==◌,
  if◌then◌else◌, length, lit, eqb, arith,
}
use webtoken.Der.{read_tag, read_sequence, read_oid}
use webtoken.Der.Progress.{read_tag_shrinks}
use webtoken.X509.{decode_directory_string, oid_common_name, oid_country, oid_org, oid_org_unit}

unfoldable pub label_of : Bytes → Text
label_of oid =
    if eqb oid oid_common_name
    then lit "CN"
    else if eqb oid oid_country
    then lit "C"
    else if eqb oid oid_org
    then lit "O"
    else if eqb oid oid_org_unit
    then lit "OU"
    else lit "Unknown"

abbrev string_part : Text → Result Text Text → List Text
string_part label (ok s) = (label ++ (lit "=" ++ s)) ∷ []
string_part label _ = []

abbrev value_part : Text → Result Text (ℕ × Bytes) → List Text
value_part label (ok (str_tag, val)) = string_part label (decode_directory_string str_tag val)
value_part label _ = []

abbrev labelled_part : Result Text Bytes → Bytes → List Text
labelled_part (ok oid) attr = value_part (label_of oid) (read_tag attr).0
labelled_part _ attr = []

-- What one attribute adds to `parts`.
abbrev attribute_part : Result Text Bytes → List Text
attribute_part (ok attr) = let (oid, attr) = read_oid attr in labelled_part oid attr
attribute_part _ = []

-- The loop over a SET; an object that is not a sequence adds nothing. The fuel is the number of bytes.
unfoldable pub set_parts : ℕ → Bytes → List Text
set_parts fuel [] = []
set_parts zero (b ∷ bs) = []
set_parts (suc fuel) (b ∷ bs) =
    let (attr, set_r) = read_sequence (b ∷ bs) in
    let later = set_parts fuel set_r in attribute_part attr ++ later

abbrev object_parts : Result Text (ℕ × Bytes) → List Text
object_parts (ok (tag, set_data)) = if tag == 0x31 then set_parts (length set_data) set_data else []
object_parts _ = []

-- The loop over the name.
unfoldable pub name_parts : ℕ → Bytes → List Text
name_parts fuel [] = []
name_parts zero (b ∷ bs) = []
name_parts (suc fuel) (b ∷ bs) =
    let (object, seq) = read_tag (b ∷ bs) in
    let later = name_parts fuel seq in object_parts object ++ later

abbrev reverse_onto : List Text → List Text → List Text
reverse_onto acc [] = acc
reverse_onto acc (t ∷ ts) = reverse_onto (t ∷ acc) ts

abbrev join_commas : List Text → Text
join_commas [] = []
join_commas (t ∷ []) = t
join_commas (t ∷ u ∷ ts) = t ++ b',' ∷ join_commas (u ∷ ts)

abbrev parts_of : Result Text Bytes → List Text
parts_of (ok seq) = name_parts (length seq) seq
parts_of _ = []

-- parse_x509_name
unfoldable pub parse_x509_name : Bytes → Text
parse_x509_name content = join_commas (reverse_onto [] (parts_of (read_sequence content).0))

-- read_sequence takes a byte at least from an input that is not empty.
read_sequence_shrinks : (b : ℕ) (bs : Bytes) → length (read_sequence (b ∷ bs)).1 < length (b ∷ bs)
unfolding read_sequence
read_sequence_shrinks b bs = read_tag_shrinks b bs

set_parts_enough :
    (k j : ℕ) (input : Bytes)
    → length input ≤ k
    → length input ≤ j
    → set_parts k input ≡ set_parts j input
unfolding set_parts
set_parts_enough k j [] h h' = refl
set_parts_enough zero j (b ∷ bs) h h' = absurd (omega arith)
set_parts_enough (suc k) zero (b ∷ bs) h h' = absurd (omega arith)
set_parts_enough (suc k) (suc j) (b ∷ bs) h h' =
    let less = read_sequence_shrinks b bs in
    rw (set_parts_enough k j (read_sequence (b ∷ bs)).1 (omega arith) (omega arith))

-- More fuel than the name has bytes finds no further parts.
pub name_parts_enough :
    (k j : ℕ) (input : Bytes)
    → length input ≤ k
    → length input ≤ j
    → name_parts k input ≡ name_parts j input
unfolding name_parts
name_parts_enough k j [] h h' = refl
name_parts_enough zero j (b ∷ bs) h h' = absurd (omega arith)
name_parts_enough (suc k) zero (b ∷ bs) h h' = absurd (omega arith)
name_parts_enough (suc k) (suc j) (b ∷ bs) h h' =
    let less = read_tag_shrinks b bs in
    rw (name_parts_enough k j (read_tag (b ∷ bs)).1 (omega arith) (omega arith))
