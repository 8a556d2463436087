-- ===== src/Json.antt =====
-- JSON values as the program reads them (`serde_json::Value` with `preserve_order`). A number is its
-- text. An object is its list of entries in order; `remove` of serde_json moves the last entry into
-- the gap (documented as `swap_remove`).
pub mod Maps
use webtoken.Common.{
  ℕ, zero, suc, ◌+◌, ◌-◌, ◌*◌, ◌/◌, ◌%◌, ◌^◌, ◌≤◌, ◌<◌, bit_and, ◌≡◌, refl, sym, ap, ◌∙◌, ◌≢◌, ◌↔◌,
  ◌⊎◌, inl, inr, Bool, true, false, not, ◌&&◌, ◌||◌, List, [], ◌∷◌, ◌++◌, append-nil, append_assoc,
  Option, none, some, Bytes, Text, bit_and_low, IsByte, AreBytes, Result, ok, err, panic, ◌>>=◌,
  ◌>>◌, guard, ok_or, map_err, >>=-eq-ok, guard-eq-ok, ltb, leb, ◌==◌, if◌then◌else◌, ==_iff,
  ltb-false, ltb-true, Bool-cases, Option-cases, and_true, length, take, drop, All, length-append,
  take-append-drop, length-take, length-drop, take-length_append, drop-length_append, All-append,
  append_inj, lit, eqb, is, starts_with, eqb_refl, eqb→eq, eqb_iff, is→eq, is_lit,
  starts_with-append, to_be_bytes, to_le_bytes, from_be_bytes, length-to_le_bytes,
  length-to_be_bytes, to_le_bytes_inj, NoDot, ◌⊙◌, split_dots, split_dots-join, split_dots-NoDot,
  arith,
}

mutual
  pub data Value : Type 0 where
    null : Value
    bool : Bool → Value
    number : Text → Value
    string : Text → Value
    array : Values → Value
    object : Fields → Value

  pub data Values : Type 0 where
    nil : Values
    cons : Value → Values → Values

  pub data Fields : Type 0 where
    end : Fields
    field : Text → Value → Fields → Fields

-- Map::get
unfoldable pub lookup : Text → Fields → Option Value
lookup k end = none
lookup k (field j v rest) = if eqb j k then some v else lookup k rest

-- Map::insert
unfoldable pub insert : Text → Value → Fields → Fields
insert k v end = field k v end
insert k v (field j w rest) =
    let below = insert k v rest in if eqb j k then field j v rest else field j w below

abbrev pub under_first : Text → Value → Fields → Fields
under_first k v end = field k v end
under_first k v (field j w rest) = field j w (field k v rest)

-- The entries with the last one moved to the front.
unfoldable pub last_first : Fields → Fields
last_first end = end
last_first (field k v end) = field k v end
last_first (field k v (field j w rest)) = under_first k v (last_first (field j w rest))

-- Map::remove
unfoldable pub remove : Text → Fields → Fields
remove k end = end
remove k (field j w rest) =
    let below = remove k rest in if eqb j k then last_first rest else field j w below

-- Value::get with a text for the index.
unfoldable pub get : Value → Text → Option Value
get (object m) k = lookup k m
get v k = none

abbrev pub as_str : Value → Option Text
as_str (string s) = some s
as_str v = none

abbrev pub as_bool : Value → Option Bool
as_bool (bool b) = some b
as_bool v = none

abbrev pub is_string : Value → Bool
is_string (string s) = true
is_string v = false

abbrev pub is_object : Value → Bool
is_object (object m) = true
is_object v = false

abbrev pub is_null : Value → Bool
is_null null = true
is_null v = false

-- `o.and_then(|v| v.as_str())`
abbrev pub and_then_str : Option Value → Option Text
and_then_str none = none
and_then_str (some v) = as_str v
