-- ===== src/Common/Splitting.antt =====
-- `str::split('.')`.
use Prim.Native.Nat.{ℕ}
use mathlib.Core.Path.{◌≡◌, refl}
use mathlib.Core.Logic.{◌≢◌}
use mathlib.Core.List.{List, [], ◌∷◌, ◌++◌}
use native.Mathlib.Omega.{arith}
use webtoken.Common.Tests.{◌==◌, if◌then◌else◌}
use webtoken.Common.Lists.{All}
use webtoken.Common.Strings.{Text}

abbrev pub NoDot : Text → Type 0
NoDot = All (λ c. c ≢ b'.')

abbrev first_part : ℕ → List Text → List Text
first_part c [] = (c ∷ []) ∷ []
first_part c (p ∷ ps) = (c ∷ p) ∷ ps

-- The parts between the dots; there is one at least.
unfoldable pub split_dots : Text → List Text
split_dots [] = [] ∷ []
split_dots (c ∷ cs) =
    let parts = split_dots cs in if c == b'.' then [] ∷ parts else first_part c parts

infixr 66 ◌⊙◌
-- `format!("{}.{}", a, b)`
abbrev pub ◌⊙◌ : Text → Text → Text
a ⊙ b = a ++ b'.' ∷ b

pub split_dots-join : (a b : Text) → NoDot a → split_dots (a ⊙ b) ≡ a ∷ split_dots b
unfolding split_dots
split_dots-join [] b h = ground arith
split_dots-join (c ∷ cs) b h = ground (arith, split_dots-join cs b h.1)

pub split_dots-NoDot : (a : Text) → NoDot a → split_dots a ≡ a ∷ []
unfolding split_dots
split_dots-NoDot [] h = refl
split_dots-NoDot (c ∷ cs) h = ground (arith, split_dots-NoDot cs h.1)
