-- ===== src/Text/Lines.antt =====
-- `join` and `split` are inverse on lines that do not hold the separator.
use zylo.Prelude.{ℕ, ◌≡◌, refl, ap, ◌∙◌, ◌≢◌, false, List, [], ◌∷◌, ◌++◌, arith, any, All, eqb}
use zylo.Text.{Text, push, split, join}

-- The separator stands nowhere in the text.
abbrev pub Free : ℕ → Text → Type 0
Free sep s = any (λ c. eqb c sep) s ≡ false

join-push : (sep c : ℕ) (ls : List Text) → ls ≢ [] → join sep (push c ls) ≡ c ∷ join sep ls
unfolding join
join-push sep c [] h = absurd (h refl)
join-push sep c (l ∷ []) h = refl
join-push sep c (l ∷ m ∷ ls) h = refl

pub split-ne-nil : (sep : ℕ) (s : Text) → split sep s ≢ []
unfolding split
split-ne-nil sep [] = ground arith
split-ne-nil sep (c ∷ s) = ground (arith, split-ne-nil sep s)

join-nil : (sep : ℕ) (ls : List Text) → ls ≢ [] → join sep ([] ∷ ls) ≡ sep ∷ join sep ls
unfolding join
join-nil sep [] h = absurd (h refl)
join-nil sep (l ∷ ls) h = refl

-- Splitting a text and joining the parts gives the text back.
pub join-split : (sep : ℕ) (s : Text) → join sep (split sep s) ≡ s
unfolding split
join-split sep [] = unfold join in refl
join-split sep (c ∷ s) =
    let parts = split sep s in
    let ne = split-ne-nil sep s in
    ground (arith, join-split sep s, join-nil sep parts ne, join-push sep c parts ne)

split-Free : (sep : ℕ) (l : Text) → Free sep l → split sep l ≡ l ∷ []
unfolding split
split-Free sep [] h = refl
split-Free sep (c ∷ l) h = ground (arith, split-Free sep l)

pub split-append :
    (sep : ℕ) (l rest : Text) → Free sep l → split sep (l ++ sep ∷ rest) ≡ l ∷ split sep rest
unfolding split
split-append sep [] rest h = ground arith
split-append sep (c ∷ l) rest h = ground (arith, split-append sep l rest)

-- Joining lines that do not hold the separator, and splitting, gives the lines back.
pub split-join :
    (sep : ℕ) (ls : List Text) → ls ≢ [] → All (Free sep) ls → split sep (join sep ls) ≡ ls
unfolding join
split-join sep [] h free = absurd (h refl)
split-join sep (l ∷ []) h free = split-Free sep l free.0
split-join sep (l ∷ m ∷ ls) h free =
    split-append sep l (join sep (m ∷ ls)) free.0
    ∙ ap (λ r. l ∷ r) (split-join sep (m ∷ ls) (ground arith) free.1)

-- No part of a split text holds the separator.
pub split-All-Free : (sep : ℕ) (s : Text) → All (Free sep) (split sep s)
unfolding split
split-All-Free sep [] = (refl, tt)
split-All-Free sep (c ∷ s) = ground (arith, split-All-Free sep s)
