-- ===== src/Paseto/Pae.antt =====
-- The pre-authentication encoding of src/paseto.rs and src/crypto.rs names its pieces uniquely.
use webtoken.Common.{
  ◌^◌, ◌<◌, ◌≡◌, refl, sym, ◌∙◌, List, [], ◌∷◌, ◌++◌, Bytes, length, All, append_inj, to_le_bytes,
  length-to_le_bytes, to_le_bytes_inj, arith,
}
use webtoken.Paseto.{pae, pae_pieces}

-- A length fits the 64-bit field before its piece.
abbrev pub IsShort : Bytes → Type 0
IsShort piece = length piece < 256 ^ 8

pae_pieces_inj :
    (ps qs : List Bytes)
    → length ps ≡ length qs
    → All IsShort ps
    → All IsShort qs
    → pae_pieces ps ≡ pae_pieces qs
    → ps ≡ qs
unfolding pae_pieces
pae_pieces_inj [] [] n h k e = refl
pae_pieces_inj [] (q ∷ qs) n h k e = absurd (omega arith)
pae_pieces_inj (p ∷ ps) [] n h k e = absurd (omega arith)
pae_pieces_inj (p ∷ ps) (q ∷ qs) n h k e =
    let (same_field, rest) =
      append_inj (to_le_bytes 8 (length p)) (to_le_bytes 8 (length q)) (p ++ pae_pieces ps)
        (q ++ pae_pieces qs)
        (length-to_le_bytes 8 (length p) ∙ sym (length-to_le_bytes 8 (length q))) e in
    let (same, others) =
      append_inj p q (pae_pieces ps) (pae_pieces qs)
        (to_le_bytes_inj 8 (length p) (length q) h.0 k.0 same_field) rest in
    cc (same, pae_pieces_inj ps qs (omega arith) h.1 k.1 others)

-- Two sequences of pieces with one encoding are the same sequence, when the number of pieces and the
-- length of each fit 64 bits.
pub pae_inj :
    (ps qs : List Bytes)
    → length ps < 256 ^ 8
    → length qs < 256 ^ 8
    → All IsShort ps
    → All IsShort qs
    → pae ps ≡ pae qs
    → ps ≡ qs
unfolding pae
pae_inj ps qs m n h k e =
    let (same_count, rest) =
      append_inj (to_le_bytes 8 (length ps)) (to_le_bytes 8 (length qs)) (pae_pieces ps)
        (pae_pieces qs) (length-to_le_bytes 8 (length ps) ∙ sym (length-to_le_bytes 8 (length qs)))
        e in
    pae_pieces_inj ps qs (to_le_bytes_inj 8 (length ps) (length qs) m n same_count) h k rest
