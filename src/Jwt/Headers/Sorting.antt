-- ===== src/Jwt/Headers/Sorting.antt =====
-- `sort_map` of src/jwt.rs sorts the entries and loses none.
use webtoken.Common.{
  ◌≡◌, refl, sym, ap, ◌∙◌, inl, inr, true, false, [], ◌∷◌, none, some, Text, if◌then◌else◌,
  Bool-cases, eqb, eqb_iff, arith,
}
use webtoken.Json.{Value, Fields, end, field, lookup, insert}
use webtoken.Json.Maps.{IsUnique, eqb_comm}
use webtoken.Jwt.Headers.{le_text, insert_sorted, sort_entries, insert_all, sort_map}

abbrev BelowFirst : Text → Fields → Type 0
BelowFirst k end = Unit {0}
BelowFirst k (field j w rest) = le_text k j ≡ true

-- The keys are in order.
abbrev pub IsSorted : Fields → Type 0
IsSorted end = Unit {0}
IsSorted (field k v rest) = BelowFirst k rest × IsSorted rest

le_text_total : (a b : Text) → le_text a b ≡ false → le_text b a ≡ true
unfolding le_text
le_text_total [] b h = cc
le_text_total (x ∷ xs) [] h = refl
le_text_total (x ∷ xs) (y ∷ ys) h = ground (arith, le_text_total xs ys)

BelowFirst-insert_sorted :
    (i k : Text) (v : Value) (m : Fields)
    → le_text i k ≡ true
    → BelowFirst i m
    → BelowFirst i (insert_sorted k v m)
unfolding insert_sorted
BelowFirst-insert_sorted i k v end h b = h
BelowFirst-insert_sorted i k v (field j w rest) h b = elim (Bool-cases (le_text k j)) [
  | inl p ↦ rw p h
  | inr p ↦ rw p b
]

insert_sorted-IsSorted :
    (k : Text) (v : Value) (m : Fields) → IsSorted m → IsSorted (insert_sorted k v m)
unfolding insert_sorted
insert_sorted-IsSorted k v end s = (tt, tt)
insert_sorted-IsSorted k v (field j w rest) s = elim (Bool-cases (le_text k j)) [
  | inl p ↦ rw p (p, s)
  | inr p ↦ rw p (
    BelowFirst-insert_sorted j k v rest (le_text_total k j p) s.0,
    insert_sorted-IsSorted k v rest s.1,
  )
]

sort_entries-IsSorted : (m : Fields) → IsSorted (sort_entries m)
unfolding sort_entries
sort_entries-IsSorted end = tt
sort_entries-IsSorted (field k v rest) =
    insert_sorted-IsSorted k v (sort_entries rest) (sort_entries-IsSorted rest)

lookup-insert_sorted :
    (k j : Text) (v : Value) (m : Fields)
    → lookup k m ≡ none
    → lookup j (insert_sorted k v m) ≡ (if eqb k j then some v else lookup j m)
unfolding lookup insert_sorted
lookup-insert_sorted k j v end h = refl
lookup-insert_sorted k j v (field i w rest) h =
    ground (arith, eqb_iff i k, eqb_iff i j, eqb_iff k j, lookup-insert_sorted k j v rest)

lookup-sort_entries : (j : Text) (m : Fields) → IsUnique m → lookup j (sort_entries m) ≡ lookup j m
unfolding lookup sort_entries
lookup-sort_entries j end u = refl
lookup-sort_entries j (field k v rest) u =
    lookup-insert_sorted k j v (sort_entries rest) (lookup-sort_entries k rest u.1 ∙ u.0)
    ∙ ap (λ t. if eqb k j then some v else t) (lookup-sort_entries j rest u.1)

insert_sorted-IsUnique :
    (k : Text) (v : Value) (m : Fields)
    → lookup k m ≡ none
    → IsUnique m
    → IsUnique (insert_sorted k v m)
unfolding insert_sorted lookup
insert_sorted-IsUnique k v end h u = (refl, tt)
insert_sorted-IsUnique k v (field j w rest) h u = ground (
  arith,
  eqb_iff j k,
  eqb_iff k j,
  lookup-insert_sorted k j v rest,
  insert_sorted-IsUnique k v rest,
)

sort_entries-IsUnique : (m : Fields) → IsUnique m → IsUnique (sort_entries m)
unfolding sort_entries
sort_entries-IsUnique end u = tt
sort_entries-IsUnique (field k v rest) u =
    insert_sorted-IsUnique k v (sort_entries rest) (lookup-sort_entries k rest u.1 ∙ u.0)
      (sort_entries-IsUnique rest u.1)

append_fields : Fields → Fields → Fields
append_fields end m = m
append_fields (field k v rest) m = field k v (append_fields rest m)

-- Inserting new keys one by one appends them.
insert_new :
    (k : Text) (v : Value) (m : Fields)
    → lookup k m ≡ none
    → insert k v m ≡ append_fields m (field k v end)
unfolding insert lookup append_fields
insert_new k v end h = refl
insert_new k v (field j w rest) h = ground (arith, insert_new k v rest)

abbrev Disjoint : Fields → Fields → Type 0
Disjoint m end = Unit {0}
Disjoint m (field k v rest) = (lookup k m ≡ none) × Disjoint m rest

Disjoint-end : (s : Fields) → Disjoint end s
unfolding lookup
Disjoint-end end = tt
Disjoint-end (field k v rest) = (refl, Disjoint-end rest)

lookup-append_end :
    (j k : Text) (v : Value) (m : Fields)
    → lookup j m ≡ none
    → eqb k j ≡ false
    → lookup j (append_fields m (field k v end)) ≡ none
unfolding lookup append_fields
lookup-append_end j k v end h e = ground arith
lookup-append_end j k v (field i w rest) h e = ground (arith, lookup-append_end j k v rest)

eqb_of_absent :
    (k j : Text) (w : Value) (rest : Fields) → lookup k (field j w rest) ≡ none → eqb j k ≡ false
unfolding lookup
eqb_of_absent k j w rest h = ground arith

lookup_rest :
    (k j : Text) (w : Value) (rest : Fields)
    → lookup k (field j w rest) ≡ none
    → lookup k rest ≡ none
unfolding lookup
lookup_rest k j w rest h = ground arith

Disjoint-append_end :
    (k : Text) (v : Value) (m s : Fields)
    → lookup k s ≡ none
    → Disjoint m s
    → Disjoint (append_fields m (field k v end)) s
Disjoint-append_end k v m end h d = tt
Disjoint-append_end k v m (field j w rest) h d = (
  lookup-append_end j k v m d.0 (eqb_comm k j ∙ eqb_of_absent k j w rest h),
  Disjoint-append_end k v m rest (lookup_rest k j w rest h) d.1,
)

append_fields_assoc :
    (m : Fields) (k : Text) (v : Value) (s : Fields)
    → append_fields (append_fields m (field k v end)) s ≡ append_fields m (field k v s)
unfolding append_fields
append_fields_assoc end k v s = refl
append_fields_assoc (field j w rest) k v s = ap (field j w) (append_fields_assoc rest k v s)

append_fields_end : (m : Fields) → append_fields m end ≡ m
unfolding append_fields
append_fields_end end = refl
append_fields_end (field k v rest) = ap (field k v) (append_fields_end rest)

insert_all-append : (s m : Fields) → IsUnique s → Disjoint m s → insert_all m s ≡ append_fields m s
unfolding insert_all
insert_all-append end m u d = sym (append_fields_end m)
insert_all-append (field k v rest) m u d =
    ap (λ t. insert_all t rest) (insert_new k v m d.0)
    ∙ insert_all-append rest (append_fields m (field k v end)) u.1
        (Disjoint-append_end k v m rest u.0 d.1)
    ∙ append_fields_assoc m k v rest

sort_map-sort_entries : (m : Fields) → IsUnique m → sort_map m ≡ sort_entries m
unfolding sort_map append_fields
sort_map-sort_entries m u =
    insert_all-append (sort_entries m) end (sort_entries-IsUnique m u)
      (Disjoint-end (sort_entries m))

-- `sort_map` leaves a map with its keys in order, each of them once, and every lookup as it was.
pub sort_map_sorts :
    (m : Fields)
    → IsUnique m
    → IsSorted (sort_map m)
      × IsUnique (sort_map m)
      × ((k : Text) → lookup k (sort_map m) ≡ lookup k m)
sort_map_sorts m u =
    rw (sort_map-sort_entries m u)
      (sort_entries-IsSorted m, sort_entries-IsUnique m u, λ k. lookup-sort_entries k m u)
