-- ===== src/Json/Maps.antt =====
-- Lookups after the changes to a map. A map of serde_json has no key twice.
use webtoken.Common.{◌≡◌, refl, ◌∙◌, none, some, Text, if◌then◌else◌, eqb, eqb_iff, arith}
use webtoken.Json.{Value, Fields, end, field, lookup, insert, last_first, under_first, remove}

-- No key stands twice.
abbrev pub IsUnique : Fields → Type 0
IsUnique end = Unit {0}
IsUnique (field k v rest) = (lookup k rest ≡ none) × IsUnique rest

pub eqb_comm : (a b : Text) → eqb a b ≡ eqb b a
eqb_comm a b = ground (arith, eqb_iff a b, eqb_iff b a)

pub lookup-insert :
    (k j : Text) (v : Value) (m : Fields)
    → lookup j (insert k v m) ≡ (if eqb k j then some v else lookup j m)
unfolding lookup insert
lookup-insert k j v end = refl
lookup-insert k j v (field i w rest) =
    ground (arith, eqb_iff i k, eqb_iff i j, eqb_iff k j, lookup-insert k j v rest)

lookup-under_first :
    (k a : Text) (v : Value) (m : Fields)
    → lookup a m ≡ none
    → lookup k (under_first a v m) ≡ lookup k (field a v m)
unfolding lookup
lookup-under_first k a v end h = refl
lookup-under_first k a v (field j w rest) h = ground (arith, eqb_iff j a, eqb_iff j k, eqb_iff a k)

lookup-field :
    (k a : Text) (v : Value) (m m' : Fields)
    → lookup k m ≡ lookup k m'
    → lookup k (field a v m) ≡ lookup k (field a v m')
unfolding lookup
lookup-field k a v m m' e = ground arith

lookup-last_first : (k : Text) (m : Fields) → IsUnique m → lookup k (last_first m) ≡ lookup k m
unfolding last_first
lookup-last_first k end u = refl
lookup-last_first k (field a v end) u = refl
lookup-last_first k (field a v (field b w rest)) u =
    lookup-under_first k a v (last_first (field b w rest))
      (lookup-last_first a (field b w rest) u.1 ∙ u.0)
    ∙ lookup-field k a v (last_first (field b w rest)) (field b w rest)
        (lookup-last_first k (field b w rest) u.1)

-- Behind `remove` the key is gone, and every other key has the value it had.
pub lookup-remove :
    (k j : Text) (m : Fields)
    → IsUnique m
    → lookup j (remove k m) ≡ (if eqb k j then none else lookup j m)
unfolding lookup remove
lookup-remove k j end u = ground arith
lookup-remove k j (field i w rest) u = ground (
  arith,
  eqb_iff i k,
  eqb_iff i j,
  eqb_iff k j,
  lookup-last_first j rest u.1,
  lookup-remove k j rest u.1,
)

pub insert-IsUnique : (k : Text) (v : Value) (m : Fields) → IsUnique m → IsUnique (insert k v m)
unfolding insert
insert-IsUnique k v end u = (unfold lookup in refl, tt)
insert-IsUnique k v (field j w rest) u =
    ground (arith, eqb_iff j k, eqb_iff k j, lookup-insert k j v rest, insert-IsUnique k v rest u.1)

lookup-last_first-none :
    (k : Text) (m : Fields) → IsUnique m → lookup k m ≡ none → lookup k (last_first m) ≡ none
lookup-last_first-none k m u e = lookup-last_first k m u ∙ e

under_first-IsUnique :
    (a : Text) (v : Value) (m : Fields)
    → lookup a m ≡ none
    → IsUnique m
    → IsUnique (under_first a v m)
unfolding lookup
under_first-IsUnique a v end h u = (refl, tt)
under_first-IsUnique a v (field j w rest) h u = ground (arith, eqb_iff j a, eqb_iff a j)

last_first-IsUnique : (m : Fields) → IsUnique m → IsUnique (last_first m)
unfolding last_first
last_first-IsUnique end u = tt
last_first-IsUnique (field a v end) u = u
last_first-IsUnique (field a v (field b w rest)) u =
    under_first-IsUnique a v (last_first (field b w rest))
      (lookup-last_first-none a (field b w rest) u.1 u.0) (last_first-IsUnique (field b w rest) u.1)

pub remove-IsUnique : (k : Text) (m : Fields) → IsUnique m → IsUnique (remove k m)
unfolding remove
remove-IsUnique k end u = tt
remove-IsUnique k (field j w rest) u =
    ground
      (arith, last_first-IsUnique rest u.1, lookup-remove k j rest u.1, remove-IsUnique k rest u.1)
