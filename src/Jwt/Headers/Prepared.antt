-- ===== src/Jwt/Headers/Prepared.antt =====
-- The header that `prepare_headers` of src/jwt.rs returns, entry by entry.
use webtoken.Common.{
  eqb→eq, and_true, sym, ◌∙◌, ◌&&◌, eqb_refl, Bool-cases, ◌≡◌, refl, ◌∙◌, inl, inr, Bool, true,
  false, [], ◌∷◌, Option, none, some, Text, ok, err, if◌then◌else◌, Option-cases, lit, eqb, is,
  eqb_refl, eqb_iff, arith,
}
use webtoken.Errors.{invalid_token}
use webtoken.Json.{Value, null, bool, number, string, array, object, Fields, lookup, insert}
use webtoken.Json.Maps.{
  eqb_comm, IsUnique, lookup-insert, lookup-remove, insert-IsUnique, remove-IsUnique,
}
use webtoken.Jwt.Headers.{
  or_insert, default_typ, remove_if, is_true, holds_null, string_or_absent, insert_alg,
  drop_true_b64, settle_typ, sort_map, prepare_headers,
}
use webtoken.Jwt.Headers.Sorting.{IsSorted, sort_map_sorts}

-- The entry "alg" is the caller's, or the algorithm.
abbrev pub alg_entry : Text → Option Value → Option Value
alg_entry algorithm none = some (string algorithm)
alg_entry algorithm (some v) = some v

-- The entry "b64" is the caller's unless that is `true`.
abbrev pub b64_entry : Option Value → Option Value
b64_entry (some (bool true)) = none
b64_entry found = found

-- The entry "typ" is "JWT" where the caller has none, and goes where the caller has null or "".
abbrev pub typ_entry : Option Value → Option Value
typ_entry none = some (string (lit "JWT"))
typ_entry (some null) = none
typ_entry (some (string [])) = none
typ_entry (some v) = some v

-- The entry of the prepared header under the key `k`.
abbrev pub prepared_entry : Text → Fields → Text → Option Value
prepared_entry algorithm m k =
    if is k "alg"
    then alg_entry algorithm (lookup (lit "alg") m)
    else if is k "b64"
    then b64_entry (lookup (lit "b64") m)
    else if is k "typ"
    then typ_entry (lookup (lit "typ") m)
    else lookup k m

lookup-insert_alg :
    (algorithm k : Text) (m : Fields)
    → lookup k (insert_alg algorithm m)
      ≡ (if eqb (lit "alg") k then alg_entry algorithm (lookup (lit "alg") m) else lookup k m)
unfolding insert_alg
lookup-insert_alg algorithm k m = elim (Option-cases (lookup (lit "alg") m)) [
  | inl e ↦ rw e (lookup-insert (lit "alg") k (string algorithm) m)
  | inr (v, e) ↦ ground (arith, e, eqb_iff (lit "alg") k)
]

lookup-drop_true_b64 :
    (k : Text) (m : Fields)
    → IsUnique m
    → lookup k (drop_true_b64 m)
      ≡ (if eqb (lit "b64") k then b64_entry (lookup (lit "b64") m) else lookup k m)
unfolding drop_true_b64
lookup-drop_true_b64 k m u = ground (arith, lookup-remove (lit "b64") k m u, eqb_iff (lit "b64") k)

-- The steps on "typ", for what the map holds there.
abbrev typed : Fields → Option Value → Fields
typed m found =
    let with_typ = default_typ m found in
    remove_if (holds_null (lookup (lit "typ") with_typ)) (lit "typ") with_typ

typed_null :
    (k : Text) (m : Fields)
    → IsUnique m
    → let with_typ = insert (lit "typ") null m in
      lookup k (remove_if (holds_null (lookup (lit "typ") with_typ)) (lit "typ") with_typ)
      ≡ (if eqb (lit "typ") k then none else lookup k m)
typed_null k m u = ground (
  arith,
  eqb_refl (lit "typ"),
  lookup-insert (lit "typ") (lit "typ") null m,
  lookup-insert (lit "typ") k null m,
  lookup-remove (lit "typ") k (insert (lit "typ") null m) (insert-IsUnique (lit "typ") null m u),
)

lookup-typed :
    (k : Text) (m : Fields) (found : Option Value)
    → IsUnique m
    → lookup (lit "typ") m ≡ found
    → lookup k (typed m found) ≡ (if eqb (lit "typ") k then typ_entry found else lookup k m)
lookup-typed k m none u e = ground (
  arith,
  eqb_refl (lit "typ"),
  lookup-insert (lit "typ") (lit "typ") (string (lit "JWT")) m,
  lookup-insert (lit "typ") k (string (lit "JWT")) m,
)
lookup-typed k m (some null) u e = typed_null k m u
lookup-typed k m (some (string [])) u e = typed_null k m u
lookup-typed k m (some (string (c ∷ cs))) u e = ground (arith, e, eqb_iff (lit "typ") k)
lookup-typed k m (some (bool b)) u e = ground (arith, e, eqb_iff (lit "typ") k)
lookup-typed k m (some (number n)) u e = ground (arith, e, eqb_iff (lit "typ") k)
lookup-typed k m (some (array vs)) u e = ground (arith, e, eqb_iff (lit "typ") k)
lookup-typed k m (some (object o)) u e = ground (arith, e, eqb_iff (lit "typ") k)

remove_if-IsUnique : (b : Bool) (k : Text) (m : Fields) → IsUnique m → IsUnique (remove_if b k m)
remove_if-IsUnique true k m u = remove-IsUnique k m u
remove_if-IsUnique false k m u = u

or_insert-IsUnique :
    (k : Text) (v : Value) (m : Fields) (found : Option Value)
    → IsUnique m
    → IsUnique (or_insert k v m found)
or_insert-IsUnique k v m none u = insert-IsUnique k v m u
or_insert-IsUnique k v m (some w) u = u

default_typ-IsUnique :
    (m : Fields) (found : Option Value) → IsUnique m → IsUnique (default_typ m found)
default_typ-IsUnique m none u = insert-IsUnique (lit "typ") (string (lit "JWT")) m u
default_typ-IsUnique m (some null) u = insert-IsUnique (lit "typ") null m u
default_typ-IsUnique m (some (string [])) u = insert-IsUnique (lit "typ") null m u
default_typ-IsUnique m (some (string (c ∷ cs))) u = u
default_typ-IsUnique m (some (bool b)) u = u
default_typ-IsUnique m (some (number n)) u = u
default_typ-IsUnique m (some (array vs)) u = u
default_typ-IsUnique m (some (object o)) u = u

insert_alg-IsUnique :
    (algorithm : Text) (m : Fields) → IsUnique m → IsUnique (insert_alg algorithm m)
unfolding insert_alg
insert_alg-IsUnique algorithm m u =
    or_insert-IsUnique (lit "alg") (string algorithm) m (lookup (lit "alg") m) u

drop_true_b64-IsUnique : (m : Fields) → IsUnique m → IsUnique (drop_true_b64 m)
unfolding drop_true_b64
drop_true_b64-IsUnique m u = remove_if-IsUnique (is_true (lookup (lit "b64") m)) (lit "b64") m u

settle_typ-IsUnique : (m : Fields) → IsUnique m → IsUnique (settle_typ m)
unfolding settle_typ
settle_typ-IsUnique m u =
    let with_typ = default_typ m (lookup (lit "typ") m) in
    remove_if-IsUnique (holds_null (lookup (lit "typ") with_typ)) (lit "typ") with_typ
      (default_typ-IsUnique m (lookup (lit "typ") m) u)

lookup-settle_typ :
    (k : Text) (m : Fields)
    → IsUnique m
    → lookup k (settle_typ m)
      ≡ (if eqb (lit "typ") k then typ_entry (lookup (lit "typ") m) else lookup k m)
unfolding settle_typ
lookup-settle_typ k m u = lookup-typed k m (lookup (lit "typ") m) u refl

-- The three names are different texts.
names_differ :
    (eqb (lit "alg") (lit "b64") ≡ false)
    × (eqb (lit "alg") (lit "typ") ≡ false)
    × (eqb (lit "b64") (lit "typ") ≡ false)
    × (eqb (lit "alg") (lit "kid") ≡ false)
unfolding eqb lit
names_differ = (refl, refl, refl, refl)

-- No text is equal to two different names.
exclusive : (x y k : Text) → eqb x y ≡ false → (eqb x k && eqb y k) ≡ false
exclusive x y k h = elim (Bool-cases (eqb x k && eqb y k)) [
  | inr none_of_them ↦ none_of_them
  | inl both ↦
      let (p, q) = and_true (eqb x k) (eqb y k) both in
      let same : x ≡ y = eqb→eq x k p ∙ sym (eqb→eq y k q) in cc (rw same at h, eqb_refl y)
]

-- The order in which the names are tested makes no difference.
reorder :
    {A : Type 0} (a b t : Bool) (alg b64 typ other : A)
    → (a && b) ≡ false
    → (a && t) ≡ false
    → (b && t) ≡ false
    → (if t then typ else if b then b64 else if a then alg else other)
      ≡ (if a then alg else if b then b64 else if t then typ else other)
reorder true true t alg b64 typ other ab at_ bt = cc
reorder true false true alg b64 typ other ab at_ bt = cc
reorder true false false alg b64 typ other ab at_ bt = refl
reorder false true true alg b64 typ other ab at_ bt = cc
reorder false true false alg b64 typ other ab at_ bt = refl
reorder false false t alg b64 typ other ab at_ bt = refl

lookup_typ :
    (algorithm : Text) (m : Fields)
    → IsUnique m
    → lookup (lit "typ") (drop_true_b64 (insert_alg algorithm m)) ≡ lookup (lit "typ") m
lookup_typ algorithm m u =
    let (alg_b64, alg_typ, b64_typ, _) = names_differ in
    rw
      (lookup-drop_true_b64 (lit "typ") (insert_alg algorithm m)
        (insert_alg-IsUnique algorithm m u))
      (rw b64_typ (rw (lookup-insert_alg algorithm (lit "typ") m) (rw alg_typ)))

lookup_b64 :
    (algorithm : Text) (m : Fields)
    → lookup (lit "b64") (insert_alg algorithm m) ≡ lookup (lit "b64") m
lookup_b64 algorithm m =
    let (alg_b64, alg_typ, b64_typ, _) = names_differ in
    rw (lookup-insert_alg algorithm (lit "b64") m) (rw alg_b64)

lookup_prepared :
    (algorithm : Text) (m : Fields) (k : Text)
    → IsUnique m
    → lookup k (settle_typ (drop_true_b64 (insert_alg algorithm m))) ≡ prepared_entry algorithm m k
unfolding is
lookup_prepared algorithm m k u =
    let u1 = insert_alg-IsUnique algorithm m u in
    let u2 = drop_true_b64-IsUnique (insert_alg algorithm m) u1 in
    let (alg_b64, alg_typ, b64_typ, _) = names_differ in
    rw (lookup-settle_typ k (drop_true_b64 (insert_alg algorithm m)) u2) (
      rw (lookup_typ algorithm m u) (
        rw (lookup-drop_true_b64 k (insert_alg algorithm m) u1) (
          rw (lookup_b64 algorithm m) (
            rw (lookup-insert_alg algorithm k m) (
              rw (eqb_comm k (lit "alg"), eqb_comm k (lit "b64"), eqb_comm k (lit "typ"))
                (reorder (eqb (lit "alg") k) (eqb (lit "b64") k) (eqb (lit "typ") k)
                  (alg_entry algorithm (lookup (lit "alg") m)) (b64_entry (lookup (lit "b64") m))
                  (typ_entry (lookup (lit "typ") m)) (lookup k m)
                  (exclusive (lit "alg") (lit "b64") k alg_b64)
                  (exclusive (lit "alg") (lit "typ") k alg_typ)
                  (exclusive (lit "b64") (lit "typ") k b64_typ)))))))

kid_kept :
    (algorithm : Text) (m : Fields)
    → lookup (lit "kid") (insert_alg algorithm m) ≡ lookup (lit "kid") m
kid_kept algorithm m = ground (arith, lookup-insert_alg algorithm (lit "kid") m, names_differ)

-- For headers without a key twice, whose "kid", if any, is a text, `prepare_headers` returns a header
-- without a key twice, whose entry under each key is the one that `prepared_entry` gives, and whose
-- keys are in order if that was asked for.
pub prepare_headers_entries :
    (algorithm : Text) (m : Fields) (sort_headers : Bool)
    → IsUnique m
    → string_or_absent (lookup (lit "kid") m) ≡ true
    → (out : Fields) × (prepare_headers algorithm m sort_headers ≡ ok out)
      × IsUnique out
      × ((k : Text) → lookup k out ≡ prepared_entry algorithm m k)
      × (sort_headers ≡ true → IsSorted out)
unfolding prepare_headers
prepare_headers_entries algorithm m true u kid =
    let steps =
      drop_true_b64-IsUnique (insert_alg algorithm m) (insert_alg-IsUnique algorithm m u) in
    let prepared = settle_typ (drop_true_b64 (insert_alg algorithm m)) in
    let (sorted, unique, same) =
      sort_map_sorts prepared
        (settle_typ-IsUnique (drop_true_b64 (insert_alg algorithm m)) steps) in
    (
      sort_map prepared,
      rw (kid_kept algorithm m) (rw kid),
      unique,
      λ k. same k ∙ lookup_prepared algorithm m k u,
      λ _. sorted,
    )
prepare_headers_entries algorithm m false u kid =
    let steps =
      drop_true_b64-IsUnique (insert_alg algorithm m) (insert_alg-IsUnique algorithm m u) in
    (
      settle_typ (drop_true_b64 (insert_alg algorithm m)),
      rw (kid_kept algorithm m) (rw kid),
      settle_typ-IsUnique (drop_true_b64 (insert_alg algorithm m)) steps,
      λ k. lookup_prepared algorithm m k u,
      λ e. cc,
    )

-- A "kid" that is no text is refused.
pub prepare_headers_bad_kid :
    (algorithm : Text) (m : Fields) (sort_headers : Bool)
    → string_or_absent (lookup (lit "kid") m) ≡ false
    → prepare_headers algorithm m sort_headers
      ≡ err (invalid_token (lit "Key ID header parameter must be a string"))
unfolding prepare_headers
prepare_headers_bad_kid algorithm m sort_headers kid = rw (kid_kept algorithm m) (rw kid)
