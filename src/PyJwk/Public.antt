-- ===== src/PyJwk/Public.antt =====
-- PyJWK::public_key of src/pyjwt_jwk_api.rs.
pub mod Extraction
use webtoken.Common.{
  ◌≡◌, refl, ap, sym, ◌∙◌, true, Bool, false, ◌||◌, List, [], ◌∷◌, none, Text, if◌then◌else◌, lit,
  eqb, arith,
}
use webtoken.Json.{Value, Fields, object, lookup, get, remove}
use webtoken.Json.Maps.{IsUnique, lookup-remove, remove-IsUnique}
use webtoken.PyJwk.{PyJwk}

unfoldable pub remove_all : List Text → Fields → Fields
remove_all [] m = m
remove_all (k ∷ ks) m = remove_all ks (remove k m)

abbrev pub private_members : List Text
private_members =
    lit "d" ∷ lit "p" ∷ lit "q" ∷ lit "dp" ∷ lit "dq" ∷ lit "qi" ∷ lit "oth" ∷ lit "k" ∷ []

abbrev without_private : Value → Value
without_private (object m) = object (remove_all private_members m)
without_private v = v

-- PyJWK::public_key
unfoldable pub public_key : PyJwk → PyJwk
public_key key = record { inner = without_private key.inner; algorithm_name = key.algorithm_name }

abbrev pub is_member : Text → List Text → Bool
is_member j [] = false
is_member j (k ∷ ks) = eqb k j || is_member j ks

lookup-remove_all :
    (ks : List Text) (j : Text) (m : Fields)
    → IsUnique m
    → lookup j (remove_all ks m) ≡ (if is_member j ks then none else lookup j m)
unfolding remove_all
lookup-remove_all [] j m u = refl
lookup-remove_all (k ∷ ks) j m u =
    ground
      (arith, lookup-remove k j m u, lookup-remove_all ks j (remove k m) (remove-IsUnique k m u))

-- The types of keys of RFC 7518 and RFC 8037.
pub data KeyType : Type 0 where
  rsa ec oct okp : KeyType

abbrev pub kty_name : KeyType → Text
kty_name rsa = lit "RSA"
kty_name ec = lit "EC"
kty_name oct = lit "oct"
kty_name okp = lit "OKP"

-- Their private parameters: sections 6.3.2, 6.2.2 and 6.4.1 of RFC 7518, and section 2 of RFC 8037.
abbrev pub private_parameters : KeyType → List Text
private_parameters rsa =
    lit "d" ∷ lit "p" ∷ lit "q" ∷ lit "dp" ∷ lit "dq" ∷ lit "qi" ∷ lit "oth" ∷ []
private_parameters ec = lit "d" ∷ []
private_parameters oct = lit "k" ∷ []
private_parameters okp = lit "d" ∷ []

-- A name that is private for some type of key.
abbrev pub is_private : Text → Bool
is_private name =
    is_member name (private_parameters rsa)
    || (is_member name (private_parameters oct)
        || (is_member name (private_parameters ec) || is_member name (private_parameters okp)))

same_names :
    (d p q dp dq qi oth k : Bool)
    → (d || (p || (q || (dp || (dq || (qi || (oth || (k || false)))))))) ≡ (
        (d || (p || (q || (dp || (dq || (qi || (oth || false)))))))
        || ((k || false) || ((d || false) || (d || false))))
same_names true p q dp dq qi oth k = refl
same_names false true q dp dq qi oth k = refl
same_names false false true dp dq qi oth k = refl
same_names false false false true dq qi oth k = refl
same_names false false false false true qi oth k = refl
same_names false false false false false true oth k = refl
same_names false false false false false false true k = refl
same_names false false false false false false false true = refl
same_names false false false false false false false false = refl

removed-is_private : (name : Text) → is_member name private_members ≡ is_private name
removed-is_private name =
    same_names (eqb (lit "d") name) (eqb (lit "p") name) (eqb (lit "q") name) (eqb (lit "dp") name)
      (eqb (lit "dq") name) (eqb (lit "qi") name) (eqb (lit "oth") name) (eqb (lit "k") name)

-- In the public key of a JWK with unique members, a name that RFC 7518 or RFC 8037 has as a private
-- parameter of some type of key is not found, and each other member has the value that it had.
pub public_key_members :
    (key : PyJwk) (m : Fields) (name : Text)
    → key.inner ≡ object m
    → IsUnique m
    → (found : Fields) × ((public_key key).inner ≡ object found)
      × (lookup name found ≡ (if is_private name then none else lookup name m))
unfolding public_key
public_key_members key m name e u = (
  remove_all private_members m,
  ap without_private e,
  lookup-remove_all private_members name m u
      ∙ ap (λ b. if b then none else lookup name m) (removed-is_private name),
)

-- A member of the public key, by its name as a member of the key.
pub get-public_key :
    (key : PyJwk) (m : Fields) (name : Text)
    → key.inner ≡ object m
    → IsUnique m
    → get (public_key key).inner name ≡ (if is_private name then none else get key.inner name)
unfolding get
get-public_key key m name e u =
    let (found, is_object, looked) = public_key_members key m name e u in
    ap (λ v. get v name) is_object
    ∙ looked
    ∙ ap (λ v. if is_private name then none else get v name) (sym e)
