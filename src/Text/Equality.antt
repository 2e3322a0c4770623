-- ===== src/Text/Equality.antt =====
-- The test `==` decides equality of texts.
use zylo.Prelude.{◌≡◌, refl, ◌↔◌, ◌≢◌, true, false, [], ◌∷◌, arith}
use zylo.Text.{Text, is_empty, ◌==◌}

pub ==_sound : (s t : Text) → (s == t) ≡ true → s ≡ t
unfolding ◌==◌
==_sound [] [] h = refl
==_sound [] (b ∷ t) h = cc
==_sound (a ∷ s) [] h = cc
==_sound (a ∷ s) (b ∷ t) h = ground (arith, ==_sound s t)

pub ==_refl : (s : Text) → (s == s) ≡ true
unfolding ◌==◌
==_refl [] = refl
==_refl (a ∷ s) = ground (arith, ==_refl s)

pub ==_iff : (s t : Text) → ((s == t) ≡ true) ↔ (s ≡ t)
==_iff s t = (==_sound s t, λ e. rw e (==_refl t))

pub ==_ne : (s t : Text) → s ≢ t → (s == t) ≡ false
==_ne s t h = ground (arith, ==_iff s t)

pub ==_sym : (s t : Text) → (s == t) ≡ (t == s)
==_sym s t = ground (arith, ==_iff s t, ==_iff t s)

pub ==_nil : (s : Text) → (s == []) ≡ is_empty s
unfolding ◌==◌
==_nil [] = refl
==_nil (c ∷ s) = refl
