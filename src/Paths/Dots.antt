-- ===== src/Paths/Dots.antt =====
-- path/filepath: names without two dots, and their parts.
use zylo.Prelude.{
  ◌≡◌, refl, sym, subst, arith, true, false, List, [], ◌∷◌, ◌++◌, append-nil, All, Bool-cases, inl,
  inr,
}
use zylo.Text.{Text, codes, ◌==◌, contains, has_prefix, split, join}
use zylo.Text.Equality.{==_sound}
use zylo.Text.Lines.{join-split}
use zylo.Text.Search.{contains-left}

abbrev pub dots : Text
dots = codes ".."

pub contains-tail : (a s t : Text) → contains (a ++ s) t ≡ false → contains s t ≡ false
unfolding contains
contains-tail [] s t h = h
contains-tail (c ∷ a) s t h = contains-tail a s t (ground arith)

no_dots : (l s : Text) → contains (l ++ s) dots ≡ false → (l == dots) ≡ false
no_dots l s h = elim (Bool-cases (l == dots)) [
  | inr e ↦ e
  | inl e ↦ absurd (
      ground (
        arith,
        contains-left dots s,
        subst (λ x. contains (x ++ s) dots ≡ false) (==_sound l dots e) h,
      ))
]

pub join-parts :
    (ls : List Text) → contains (join b'/' ls) dots ≡ false → All (λ p. (p == dots) ≡ false) ls
unfolding join
join-parts [] h = tt
join-parts (l ∷ []) h =
    (no_dots l [] (subst (λ x. contains x dots ≡ false) (sym (append-nil l)) h), tt)
join-parts (l ∷ m ∷ ls) h = (
  no_dots l (b'/' ∷ join b'/' (m ∷ ls)) h,
  join-parts (m ∷ ls) (
      contains-tail (b'/' ∷ []) (join b'/' (m ∷ ls)) dots
        (contains-tail l (b'/' ∷ join b'/' (m ∷ ls)) dots h)),
)

has_prefix-left : (l s t : Text) → has_prefix l t ≡ true → has_prefix (l ++ s) t ≡ true
unfolding has_prefix
has_prefix-left [] [] [] h = h
has_prefix-left [] (c ∷ s) [] h = refl
has_prefix-left [] s (b ∷ t) h = absurd (cc)
has_prefix-left (a ∷ l) s [] h = refl
has_prefix-left (a ∷ l) s (b ∷ t) h = ground (arith, has_prefix-left l s t)

contains-start : (l s : Text) → contains l dots ≡ true → contains (l ++ s) dots ≡ true
unfolding contains has_prefix
contains-start [] s h = absurd (cc)
contains-start (c ∷ l) s h = elim (Bool-cases (has_prefix (c ∷ l) dots)) [
  | inl e ↦ ground (arith, has_prefix-left (c ∷ l) s dots e)
  | inr e ↦ ground (arith, contains-start l s)
]

contains-head : (l s : Text) → contains (l ++ s) dots ≡ false → contains l dots ≡ false
contains-head l s h = ground (arith, contains-start l s)

join-no_dots :
    (ls : List Text) → contains (join b'/' ls) dots ≡ false → All (λ p. contains p dots ≡ false) ls
unfolding join
join-no_dots [] h = tt
join-no_dots (l ∷ []) h = (h, tt)
join-no_dots (l ∷ m ∷ ls) h = (
  contains-head l (b'/' ∷ join b'/' (m ∷ ls)) h,
  join-no_dots (m ∷ ls) (
      contains-tail (b'/' ∷ []) (join b'/' (m ∷ ls)) dots
        (contains-tail l (b'/' ∷ join b'/' (m ∷ ls)) dots h)),
)

-- No part of a text without two dots holds them.
pub split-no_dots :
    (name : Text)
    → contains name dots ≡ false
    → All (λ p. contains p dots ≡ false) (split b'/' name)
split-no_dots name h = join-no_dots (split b'/' name) (rw (join-split b'/' name) h)
