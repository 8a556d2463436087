-- ===== src/Jwt/Headers.antt =====
-- src/jwt.rs: `sort_map` and `prepare_headers`, lines 102 to 108 and 122 to 147.
pub mod Sorting
pub mod Prepared
use webtoken.Common.{
  ℕ, zero, suc, ◌+◌, ◌-◌, ◌*◌, ◌/◌, ◌%◌, ◌^◌, ◌≤◌, ◌<◌, bit_and, ◌≡◌, refl, sym, ap, ◌∙◌, ◌≢◌, ◌↔◌,
  ◌⊎◌, inl, inr, Bool, true, false, not, ◌&&◌, ◌||◌, List, [], ◌∷◌, ◌++◌, append-nil, append_assoc,
  Option, none, some, Bytes, Text, bit_and_low, IsByte, AreBytes, Result, ok, err, panic, ◌>>=◌,
  ◌>>◌, guard, ok_or, map_err, >>=-eq-ok, guard-eq-ok, ltb, leb, ◌==◌, if◌then◌else◌, ==_iff,
  ltb-false, ltb-true, Bool-cases, Option-cases, and_true, length, take, drop, All, length-append,
  take-append-drop, length-take, length-drop, take-length_append, drop-length_append, All-append,
  append_inj, lit, eqb, is, starts_with, eqb_refl, eqb→eq, eqb_iff, is→eq, is_lit,
  starts_with-append, to_be_bytes, to_le_bytes, from_be_bytes, length-to_le_bytes,
  length-to_be_bytes, to_le_bytes_inj, NoDot, ◌⊙◌, split_dots, split_dots-join, split_dots-NoDot,
  arith,
}
use webtoken.Errors.{WebtokenError, invalid_token}
use webtoken.Json.{
  Value, null, bool, string, Fields, end, field, lookup, insert, remove, is_string, is_null,
}

-- `a.cmp(&b)` of two texts, byte by byte: not greater.
unfoldable pub le_text : Text → Text → Bool
le_text [] ys = true
le_text (x ∷ xs) [] = false
le_text (x ∷ xs) (y ∷ ys) = ltb x y || (x == y && le_text xs ys)

-- `sort_by` on the keys is stable: an entry goes before the first one with a key that is not smaller,
-- and the entries are placed from the last to the first.
unfoldable pub insert_sorted : Text → Value → Fields → Fields
insert_sorted k v end = field k v end
insert_sorted k v (field j w rest) =
    let below = insert_sorted k v rest in
    if le_text k j then field k v (field j w rest) else field j w below

unfoldable pub sort_entries : Fields → Fields
unfolding insert_sorted
sort_entries end = end
sort_entries (field k v rest) = insert_sorted k v (sort_entries rest)

unfoldable pub insert_all : Fields → Fields → Fields
insert_all map end = map
insert_all map (field k v rest) = insert_all (insert k v map) rest

-- sort_map
unfoldable pub sort_map : Fields → Fields
unfolding sort_entries insert_all
sort_map map = insert_all end (sort_entries map)

-- `entry(k).or_insert_with(|| v)`
abbrev pub or_insert : Text → Value → Fields → Option Value → Fields
or_insert k v map none = insert k v map
or_insert k v map (some _) = map

-- `entry("typ").and_modify(…).or_insert("JWT")`
abbrev pub default_typ : Fields → Option Value → Fields
default_typ map none = insert (lit "typ") (string (lit "JWT")) map
default_typ map (some null) = insert (lit "typ") null map
default_typ map (some (string [])) = insert (lit "typ") null map
default_typ map (some _) = map

abbrev pub remove_if : Bool → Text → Fields → Fields
remove_if true k map = remove k map
remove_if false k map = map

abbrev pub is_true : Option Value → Bool
is_true (some (bool b)) = b
is_true _ = false

abbrev pub holds_null : Option Value → Bool
holds_null (some null) = true
holds_null _ = false

-- `is_none_or` a string
abbrev pub string_or_absent : Option Value → Bool
string_or_absent none = true
string_or_absent (some v) = is_string v

-- `entry("alg").or_insert_with(…)`
unfoldable pub insert_alg : Text → Fields → Fields
insert_alg algorithm map = or_insert (lit "alg") (string algorithm) map (lookup (lit "alg") map)

-- A "b64" that is `true` is taken out.
unfoldable pub drop_true_b64 : Fields → Fields
drop_true_b64 map = remove_if (is_true (lookup (lit "b64") map)) (lit "b64") map

-- The two steps on "typ".
unfoldable pub settle_typ : Fields → Fields
settle_typ map =
    let with_typ = default_typ map (lookup (lit "typ") map) in
    remove_if (holds_null (lookup (lit "typ") with_typ)) (lit "typ") with_typ

-- prepare_headers
unfoldable pub prepare_headers : Text → Fields → Bool → Result WebtokenError Fields
prepare_headers algorithm header_map sort_headers =
    let with_alg = insert_alg algorithm header_map in
    do
      guard (string_or_absent (lookup (lit "kid") with_alg))
          (invalid_token (lit "Key ID header parameter must be a string"))
      let prepared = settle_typ (drop_true_b64 with_alg)
      ok (if sort_headers then sort_map prepared else prepared)
