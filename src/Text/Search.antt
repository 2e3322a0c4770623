-- ===== src/Text/Search.antt =====
-- What `contains` finds, and what `cut` takes apart.
use zylo.Prelude.{ℕ, ◌≡◌, refl, true, false, some, [], ◌∷◌, ◌++◌, arith, any, eqb}
use zylo.Text.{Text, has_prefix, contains, cut}

has_prefix-append : (s t : Text) → has_prefix (s ++ t) s ≡ true
unfolding has_prefix
has_prefix-append [] t = refl
has_prefix-append (c ∷ s) t = ground (arith, has_prefix-append s t)

pub contains-empty : (s : Text) → contains s [] ≡ true
unfolding contains
contains-empty [] = refl
contains-empty (c ∷ s) = refl

contains-prefix : (s t : Text) → has_prefix s t ≡ true → contains s t ≡ true
unfolding contains
contains-prefix [] t h = h
contains-prefix (c ∷ s) t h = ground arith

-- A text contains whatever stands in it, whatever comes before and after.
pub contains-middle : (s t u : Text) → contains (s ++ (t ++ u)) t ≡ true
unfolding contains
contains-middle [] t u = contains-prefix (t ++ u) t (has_prefix-append t u)
contains-middle (c ∷ s) t u = ground (arith, contains-middle s t u)

pub contains-left : (t u : Text) → contains (t ++ u) t ≡ true
contains-left t u = contains-middle [] t u

-- `cut` finds the first separator.
pub cut-append :
    (sep : ℕ) (s rest : Text)
    → any (λ c. eqb c sep) s ≡ false
    → cut sep (s ++ sep ∷ rest) ≡ some (s, rest)
unfolding cut
cut-append sep [] rest h = ground arith
cut-append sep (c ∷ s) rest h = ground (arith, cut-append sep s rest)
