-- ===== src/Paseto/Parts.antt =====
-- The fields of the PASERK bodies of src/paseto.rs, read back from their concatenation.
use webtoken.Common.{
  ℕ, ◌+◌, ◌≡◌, refl, sym, ◌∙◌, ◌++◌, append_assoc, Bytes, length, take, drop, length-append,
  take-length_append, drop-length_append, drop-past, arith,
}
use webtoken.Paseto.{slice}

-- Two fields of 32 bytes before the rest.
pub tag_first :
    (t n c : Bytes)
    → length t ≡ 32
    → length n ≡ 32
    → (take 32 (t ++ (n ++ c)) ≡ t)
      × (slice 32 64 (t ++ (n ++ c)) ≡ n)
      × (drop 64 (t ++ (n ++ c)) ≡ c)
      × (length (t ++ (n ++ c)) ≡ 64 + length c)
tag_first t n c ht hn = (
  take-length_append t (n ++ c) 32 (sym ht),
  rw (drop-past 0 32 t (n ++ c) (omega arith)) (take-length_append n c 32 (sym hn)),
  drop-past 32 64 t (n ++ c) (omega arith) ∙ drop-past 0 32 n c (omega arith),
  omega (arith, length-append t (n ++ c), length-append n c),
)

module _ (s mem time para n edk t : Bytes) (hs : length s ≡ 16) (hm : length mem ≡ 8)
    (hi : length time ≡ 4) (hp : length para ≡ 4) (hn : length n ≡ 24) (ht : length t ≡ 32) where
  abbrev pub fields : Bytes
  fields = s ++ (mem ++ (time ++ (para ++ (n ++ edk))))

  -- The fields of a key under a password, with the tag at the end.
  pub length-fields : length (fields ++ t) ≡ 88 + length edk
  length-fields = omega (
    arith,
    length-append fields t,
    length-append s (mem ++ (time ++ (para ++ (n ++ edk)))),
    length-append mem (time ++ (para ++ (n ++ edk))),
    length-append time (para ++ (n ++ edk)),
    length-append para (n ++ edk),
    length-append n edk,
  )

  nested : fields ++ t ≡ s ++ (mem ++ (time ++ (para ++ (n ++ (edk ++ t)))))
  nested = simp (append_assoc)

  pub fields_salt : take 16 (fields ++ t) ≡ s
  fields_salt = rw nested (take-length_append s _ 16 (sym hs))

  past_salt :
      (m k : ℕ)
      → k ≡ 16 + m
      → drop k (fields ++ t) ≡ drop m (mem ++ (time ++ (para ++ (n ++ (edk ++ t)))))
  past_salt m k h = rw nested (drop-past m k s _ (omega arith))

  past_memory :
      (m k : ℕ) → k ≡ 24 + m → drop k (fields ++ t) ≡ drop m (time ++ (para ++ (n ++ (edk ++ t))))
  past_memory m k h = past_salt (8 + m) k (omega arith) ∙ drop-past m (8 + m) mem _ (omega arith)

  past_time : (m k : ℕ) → k ≡ 28 + m → drop k (fields ++ t) ≡ drop m (para ++ (n ++ (edk ++ t)))
  past_time m k h = past_memory (4 + m) k (omega arith) ∙ drop-past m (4 + m) time _ (omega arith)

  past_lanes : (m k : ℕ) → k ≡ 32 + m → drop k (fields ++ t) ≡ drop m (n ++ (edk ++ t))
  past_lanes m k h = past_time (4 + m) k (omega arith) ∙ drop-past m (4 + m) para _ (omega arith)

  past_nonce : (m k : ℕ) → k ≡ 56 + m → drop k (fields ++ t) ≡ drop m (edk ++ t)
  past_nonce m k h = past_lanes (24 + m) k (omega arith) ∙ drop-past m (24 + m) n _ (omega arith)

  pub fields_memory : slice 16 24 (fields ++ t) ≡ mem
  fields_memory = rw (past_salt 0 16 refl) (take-length_append mem _ 8 (sym hm))

  pub fields_time : slice 24 28 (fields ++ t) ≡ time
  fields_time = rw (past_memory 0 24 refl) (take-length_append time _ 4 (sym hi))

  pub fields_lanes : slice 28 32 (fields ++ t) ≡ para
  fields_lanes = rw (past_time 0 28 refl) (take-length_append para _ 4 (sym hp))

  pub fields_nonce : slice 32 56 (fields ++ t) ≡ n
  fields_nonce = rw (past_lanes 0 32 refl) (take-length_append n _ 24 (sym hn))

  pub fields_key : (k : ℕ) → k ≡ length edk → take k (drop 56 (fields ++ t)) ≡ edk
  fields_key k h = rw (past_nonce 0 56 refl) (take-length_append edk t k h)

  pub fields_tag : (k : ℕ) → k ≡ 56 + length edk → drop k (fields ++ t) ≡ t
  fields_tag k h = past_nonce (length edk) k h ∙ drop-length_append edk t (length edk) refl
