-- ===== src/Prelude/Separated.antt =====
-- Joining parts by `::`. Parts without a colon can be read back.
use mathlib.Core.Path.{◌≡◌, sym, ap, ap₂}
use mathlib.Core.Logic.{◌≢◌}
use mathlib.Core.List.{List, [], ◌∷◌, ◌++◌}
use native.Mathlib.Omega.{arith}
use ink.Prelude.Lists.{Bytes, join}
use ink.Prelude.Distinct.{NotIn}

-- b"::"
abbrev pub separator : Bytes
separator = b':' ∷ b':' ∷ []

-- No part contains a colon.
abbrev pub NoColon : List Bytes → Type 0
NoColon [] = Unit
NoColon (p ∷ ps) = NotIn b':' p × NoColon ps

-- The first colon of a text ends its first part.
first_part :
    (p q : Bytes) (rest more : Bytes)
    → NotIn b':' p
    → NotIn b':' q
    → (p ++ (b':' ∷ rest)) ≡ (q ++ (b':' ∷ more))
    → (p ≡ q) × (rest ≡ more)
first_part [] [] rest more hp hq e = ground arith
first_part [] (y ∷ q) rest more hp hq e = ground arith
first_part (x ∷ p) [] rest more hp hq e = ground arith
first_part (x ∷ p) (y ∷ q) rest more hp hq e = ground (arith, first_part p q rest more)

-- A text with a colon is no part.
no_part : (p q rest : Bytes) → NotIn b':' p → (q ++ (b':' ∷ rest)) ≢ p
no_part [] [] rest hp e = ground arith
no_part [] (y ∷ q) rest hp e = ground arith
no_part (x ∷ p) [] rest hp e = ground arith
no_part (x ∷ p) (y ∷ q) rest hp e = ground (arith, no_part p q rest)

-- Lists of parts without colons are equal when they join to the same text.
pub join-injective :
    (p q : Bytes) (ps qs : List Bytes)
    → NoColon (p ∷ ps)
    → NoColon (q ∷ qs)
    → join separator (p ∷ ps) ≡ join separator (q ∷ qs)
    → (p ∷ ps) ≡ (q ∷ qs)
join-injective p q [] [] hp hq e = ap (λ r. r ∷ []) e
join-injective p q [] (r ∷ qs) hp hq e = absurd (no_part p q _ hp.0 (sym e))
join-injective p q (r ∷ ps) [] hp hq e = absurd (no_part q p _ hq.0 e)
join-injective p q (r ∷ ps) (t ∷ qs) hp hq e =
    let (same, rest) = first_part p q _ _ hp.0 hq.0 e in
    let later = join-injective r t ps qs hp.1 hq.1 (ground (arith, rest)) in
    ap₂ (λ a b. a ∷ b) same later
