-- ===== src/Integer/Laws.antt =====
-- Go's numbers: what Atoi makes of a text.
use zylo.Prelude.{ℕ, ◌+◌, ◌-◌, ◌*◌, ◌^◌, ◌<◌, ◌≡◌, refl, true, some, [], ◌∷◌, arith, ◌↔◌, ◌≢◌}
use zylo.Text.{Text, decimal}
use zylo.Text.Decimal.{AllDigits, decimal-AllDigits, value, value-decimal, decimal-ne-nil}
use zylo.Integer.{ℤ, pos, negsuc, int_eq, read_digits, atoi, itoa}

pub int_eq_iff : (a b : ℤ) → (int_eq a b ≡ true) ↔ (a ≡ b)
int_eq_iff (pos m) (pos n) = ground arith
int_eq_iff (negsuc m) (negsuc n) = ground arith
int_eq_iff (pos m) (negsuc n) = ground arith
int_eq_iff (negsuc m) (pos n) = ground arith

read_digits-value : (acc : ℕ) (s : Text) → AllDigits s → read_digits acc s ≡ some (value acc s)
unfolding read_digits value
read_digits-value acc [] h = refl
read_digits-value acc (c ∷ s) h = ground (arith, read_digits-value (acc * 10 + (c - 48)) s h.1)

atoi-digits :
    (s : Text) (n : ℕ)
    → AllDigits s
    → s ≢ []
    → value 0 s ≡ n
    → n < 2 ^ 63
    → atoi s ≡ record { value = pos n; is_ok = true }
unfolding atoi
atoi-digits [] n d ne v h = absurd (ne refl)
atoi-digits (c ∷ s) n d ne v h = ground (arith, read_digits-value 0 (c ∷ s) d)

pub atoi-decimal : (n : ℕ) → n < 2 ^ 63 → atoi (decimal n) ≡ record { value = pos n; is_ok = true }
atoi-decimal n h =
    atoi-digits (decimal n) n (decimal-AllDigits n) (decimal-ne-nil n) (value-decimal n) h

-- Atoi reads back what Itoa prints, for every number of 64 bits that is not negative.
atoi-itoa_pos : (n : ℕ) → n < 2 ^ 63 → atoi (itoa (pos n)) ≡ record { value = pos n; is_ok = true }
unfolding itoa
atoi-itoa_pos n h = atoi-decimal n h
