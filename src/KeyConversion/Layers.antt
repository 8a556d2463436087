-- ===== src/KeyConversion/Layers.antt =====
-- The fuel of parse_rsa_private is enough.
use webtoken.Common.{
  ℕ, zero, suc, ◌+◌, ◌≤◌, ◌<◌, ◌≡◌, ◌≢◌, refl, ap, ◌∙◌, Bytes, Text, Result, ok, err, panic, ◌>>=◌,
  guard, map_err, >>=-eq-ok, if◌then◌else◌, length, lit, eqb, arith,
}
use webtoken.External.{Base64}
use webtoken.Json.{Value}
use webtoken.Der.{Reader, try, read_sequence, read_integer_bytes, read_oid, read_octet_string}
use webtoken.Der.Progress.{on-read_tag_shrinks}
use webtoken.Der.Returns.{
  >>=-returns, map_err-returns, guard_then, either-returns, try-returns, read_sequence_returns,
  read_integer_bytes_returns, read_octet_string_returns, read_oid_returns,
}
use webtoken.Der.Oids.{oid_rsa_encryption}
use webtoken.KeyConversion.{
  rsa_from_pkcs8, named, at_sequence, rsa_private_jwk, parse_rsa_layers, parse_rsa_private,
}

abbrev made : Bytes → Result Text Bytes
made a = ok a

>>=-cong :
    {E A B : Type 0} (run : Result E A) (f g : A → Result E B)
    → ((a : A) → run ≡ ok a → f a ≡ g a)
    → (run >>= f) ≡ (run >>= g)
>>=-cong (ok a) f g h = h a refl
>>=-cong (err e) f g h = refl
>>=-cong panic f g h = refl

map_err-eq-ok :
    {E F A : Type 0} (f : E → F) (run : Result E A) {a : A} → map_err f run ≡ ok a → run ≡ ok a
map_err-eq-ok f (ok b) h = cc
map_err-eq-ok f (err e) h = cc
map_err-eq-ok f panic h = cc

-- A reader that takes what it returns from its input.
abbrev IsShrinking : Reader Bytes → Type 0
IsShrinking m =
    (input content : Bytes)
    → (m input).0 ≡ ok content
    → length content + length (m input).1 + 2 ≤ length input

try-eq-ok :
    {A : Type 0} (m : Reader A) (input rest : Bytes) (a : A)
    → try m input ≡ ok (a, rest)
    → ((m input).0 ≡ ok a) × ((m input).1 ≡ rest)
try-eq-ok m input rest a h = let (b, e, k) = >>=-eq-ok (m input).0 _ h in (e ∙ cc, cc)

read_sequence-IsShrinking : IsShrinking read_sequence
unfolding read_sequence
read_sequence-IsShrinking input content h =
    let (tag, c, k, shrinks) = on-read_tag_shrinks _ input content h in ground arith

read_octet_string-IsShrinking : IsShrinking read_octet_string
unfolding read_octet_string
read_octet_string-IsShrinking input content h =
    let (tag, c, k, shrinks) = on-read_tag_shrinks _ input content h in ground arith

read_integer_bytes_shrinks :
    (input content : Bytes)
    → (read_integer_bytes input).0 ≡ ok content
    → length (read_integer_bytes input).1 + 2 ≤ length input
unfolding read_integer_bytes
read_integer_bytes_shrinks input content h =
    let (tag, c, k, shrinks) = on-read_tag_shrinks _ input content h in omega arith

taken :
    (f g : Text → Text) (reader algo rest left octets : Bytes)
    → map_err f (try read_sequence reader) ≡ ok (algo, rest)
    → map_err g (try read_octet_string rest) ≡ ok (octets, left)
    → length octets < length reader
taken f g reader algo rest left octets one two =
    let (a, b) = try-eq-ok read_sequence reader rest algo (map_err-eq-ok f _ one) in
    let (c, _) = try-eq-ok read_octet_string rest left octets (map_err-eq-ok g _ two) in
    omega (
      arith,
      rw b at (read_sequence-IsShrinking reader algo a),
      read_octet_string-IsShrinking rest octets c,
    )

ok_inj : {a b : Bytes} → made a ≡ made b → a ≡ b
ok_inj h = cc

rsa_from_pkcs8_shrinks :
    (reader inner : Bytes) → rsa_from_pkcs8 reader ≡ ok inner → length inner < length reader
unfolding rsa_from_pkcs8
rsa_from_pkcs8_shrinks reader inner h =
    let ((algo, rest), one, h1) = >>=-eq-ok (map_err _ (try read_sequence reader)) _ h in
    let ((oid, _), two, h2) = >>=-eq-ok (map_err _ (try read_oid algo)) _ h1 in
    let (_, three, h3) = >>=-eq-ok (guard (eqb oid oid_rsa_encryption) _) _ h2 in
    let ((octets, left), four, h4) = >>=-eq-ok (map_err _ (try read_octet_string rest)) _ h3 in
    rw (ok_inj h4) at (taken _ _ reader algo rest left octets one four)

named_shrinks :
    (name : Text) (input v rest : Bytes)
    → named name input ≡ ok (v, rest)
    → length rest ≤ length input
named_shrinks name input v rest h =
    let (a, b) = try-eq-ok read_integer_bytes input rest v (map_err-eq-ok _ _ h) in
    omega (arith, rw b at (read_integer_bytes_shrinks input v a))

-- The bytes of the next layer are fewer than those of this one.
inner_shrinks :
    (der reader v rest inner : Bytes)
    → map_err (λ _. lit "Not a sequence") (read_sequence der).0 ≡ ok reader
    → named (lit "Version") reader ≡ ok (v, rest)
    → rsa_from_pkcs8 rest ≡ ok inner
    → length inner < length der
inner_shrinks der reader v rest inner one two found =
    let inside : length reader + length (read_sequence der).1 + 2 ≤ length der =
      read_sequence-IsShrinking der reader (map_err-eq-ok _ _ one) in
    let after : length rest ≤ length reader = named_shrinks _ reader v rest two in
    let less : length inner < length rest = rsa_from_pkcs8_shrinks rest inner found in omega arith

-- One layer, when the next ones agree on shorter inputs.
layer-cong :
    {f g : Bytes → Result Text Value}
    → (b64 : Base64) (der reader v rest : Bytes)
    → map_err (λ _. lit "Not a sequence") (read_sequence der).0 ≡ ok reader
    → named (lit "Version") reader ≡ ok (v, rest)
    → ((inner : Bytes) → length inner < length der → f inner ≡ g inner)
    → (if at_sequence rest then rsa_from_pkcs8 rest >>= f else rsa_private_jwk b64 rest)
      ≡ (if at_sequence rest then rsa_from_pkcs8 rest >>= g else rsa_private_jwk b64 rest)
layer-cong {f} {g} b64 der reader v rest one two again =
    let same =
      >>=-cong (rsa_from_pkcs8 rest) f g
        λ inner found. again inner (inner_shrinks der reader v rest inner one two found) in
    ap (λ r. if at_sequence rest then r else rsa_private_jwk b64 rest) same

-- More fuel than the input has bytes does not change what the layers give.
parse_rsa_layers_enough :
    (b64 : Base64) (k j : ℕ) (der : Bytes)
    → length der < k
    → length der < j
    → parse_rsa_layers b64 k der ≡ parse_rsa_layers b64 j der
unfolding parse_rsa_layers
parse_rsa_layers_enough b64 zero j der h h' = absurd (omega arith)
parse_rsa_layers_enough b64 (suc k) zero der h h' = absurd (omega arith)
parse_rsa_layers_enough b64 (suc k) (suc j) der h h' =
    >>=-cong (map_err _ (read_sequence der).0) _ _ λ reader one.
      >>=-cong (named (lit "Version") reader) _ _ λ (v, rest) two.
        layer-cong b64 der reader v rest one two
          λ inner less. parse_rsa_layers_enough b64 k j inner (omega arith) (omega arith)

named_returns : (name : Text) (input : Bytes) → named name input ≢ panic
named_returns name input = try-returns _ read_integer_bytes input (read_integer_bytes_returns input)

rsa_from_pkcs8_returns : (reader : Bytes) → rsa_from_pkcs8 reader ≢ panic
unfolding rsa_from_pkcs8
rsa_from_pkcs8_returns reader =
    >>=-returns (map_err _ (try read_sequence reader)) _
      (try-returns _ read_sequence reader (read_sequence_returns reader))
      λ (algo, rest) _.
        >>=-returns (map_err _ (try read_oid algo)) _
          (try-returns _ read_oid algo (read_oid_returns algo))
          λ (oid, left) _. guard_then (eqb oid oid_rsa_encryption) _ _ (
            >>=-returns (map_err _ (try read_octet_string rest)) _
              (try-returns _ read_octet_string rest (read_octet_string_returns rest))
              (λ a found e. cc))

rsa_private_jwk_returns : (b64 : Base64) (reader : Bytes) → rsa_private_jwk b64 reader ≢ panic
unfolding rsa_private_jwk
rsa_private_jwk_returns b64 reader = >>=-returns _ _ (named_returns (lit "n") reader) λ (n, r) _.
    >>=-returns _ _ (named_returns (lit "e") r) λ (e, r) _.
      >>=-returns _ _ (named_returns (lit "d") r) λ (d, r) _.
        >>=-returns _ _ (named_returns (lit "p") r) λ (p, r) _.
          >>=-returns _ _ (named_returns (lit "q") r) λ (q, r) _.
            >>=-returns _ _ (named_returns (lit "dp") r) λ (dp, r) _.
              >>=-returns _ _ (named_returns (lit "dq") r)
                λ (dq, r) _. >>=-returns _ _ (named_returns (lit "qi") r) λ (qi, r) found e. cc

parse_rsa_layers_returns :
    (b64 : Base64) (fuel : ℕ) (der : Bytes)
    → length der < fuel
    → parse_rsa_layers b64 fuel der ≢ panic
unfolding parse_rsa_layers
parse_rsa_layers_returns b64 zero der h = absurd (omega arith)
parse_rsa_layers_returns b64 (suc fuel) der h =
    >>=-returns (map_err _ (read_sequence der).0) _
      (map_err-returns _ _ (read_sequence_returns der))
      λ reader one.
        >>=-returns (named (lit "Version") reader) _ (named_returns (lit "Version") reader)
          λ (v, rest) two.
            either-returns (at_sequence rest) _ _
              (>>=-returns (rsa_from_pkcs8 rest) _ (rsa_from_pkcs8_returns rest) λ inner found.
                parse_rsa_layers_returns b64 fuel inner
                  (omega (arith, inner_shrinks der reader v rest inner one two found)))
              (rsa_private_jwk_returns b64 rest)

-- With more fuel than the input has bytes, the layers of parse_rsa_private neither run out of fuel nor
-- panic, and they give what parse_rsa_private gives: a key or an error.
pub parse_rsa_private_enough :
    (b64 : Base64) (fuel : ℕ) (der : Bytes)
    → length der < fuel
    → (parse_rsa_layers b64 fuel der ≢ panic)
      × (parse_rsa_layers b64 fuel der ≡ parse_rsa_private b64 der)
unfolding parse_rsa_private
parse_rsa_private_enough b64 fuel der h = (
  parse_rsa_layers_returns b64 fuel der h,
  parse_rsa_layers_enough b64 fuel (suc (length der)) der h (omega arith),
)
