-- ===== src/Integer.antt =====
-- Go's `int` (64 bits) with strconv.Atoi and strconv.Itoa.
pub mod Laws
use zylo.Prelude.{
  ℕ, suc, ◌+◌, ◌-◌, ◌*◌, ◌^◌, Bool, true, false, ◌&&◌, Option, none, some, List, [], ◌∷◌, leb, ltb,
  eqb, if◌then◌else◌,
}
use zylo.Text.{Text, decimal}

-- `negsuc n` is -(n + 1).
pub data ℤ : Type 0 where
  pos negsuc : ℕ → ℤ

abbrev pub int_eq : ℤ → ℤ → Bool
int_eq (pos m) (pos n) = eqb m n
int_eq (negsuc m) (negsuc n) = eqb m n
int_eq _ _ = false

-- What Atoi returns beside its error: the value read, 0 for a text that is no number, or the
-- nearest value for a number out of range.
pub record Parsed : Type 0 where
  pub value : ℤ
  pub is_ok : Bool

-- The digits, behind those already read.
unfoldable pub read_digits : ℕ → Text → Option ℕ
read_digits acc [] = some acc
read_digits acc (c ∷ s) =
    let rest = read_digits (acc * 10 + (c - 48)) s in if leb 48 c && leb c 57 then rest else none

abbrev syntax_error : Parsed
syntax_error = record { value = pos 0; is_ok = false }

abbrev positive : Option ℕ → Parsed
positive none = syntax_error
positive (some n) =
    if ltb n (2 ^ 63)
    then record { value = pos n; is_ok = true }
    else record { value = pos (2 ^ 63 - 1); is_ok = false }

abbrev minus : ℕ → ℤ
minus n = if eqb n 0 then pos 0 else negsuc (n - 1)

abbrev negative : Option ℕ → Parsed
negative none = syntax_error
negative (some n) =
    if leb n (2 ^ 63)
    then record { value = minus n; is_ok = true }
    else record { value = negsuc (2 ^ 63 - 1); is_ok = false }

abbrev unsigned : Text → Option ℕ
unsigned [] = none
unsigned (c ∷ s) = read_digits 0 (c ∷ s)

unfoldable pub atoi : Text → Parsed
unfolding read_digits
atoi [] = syntax_error
atoi (c ∷ s) =
    if eqb c b'-'
    then negative (unsigned s)
    else if eqb c b'+'
    then positive (unsigned s)
    else positive (unsigned (c ∷ s))

unfoldable pub itoa : ℤ → Text
itoa (pos n) = decimal n
itoa (negsuc n) = b'-' ∷ decimal (suc n)
