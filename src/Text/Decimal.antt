-- ===== src/Text/Decimal.antt =====
-- A printed number can be read back, so two numbers with the same digits are the same.
use zylo.Prelude.{
  ℕ, zero, suc, ◌+◌, ◌-◌, ◌*◌, ◌/◌, ◌%◌, ◌<◌, ◌≡◌, sym, ◌∙◌, ap, refl, any-append, eqb, Bool-cases,
  inl, inr, ltb, All, length, length-append, All-append, ◌≤◌, ◌≢◌, [], ◌∷◌, ◌++◌, arith,
}
use zylo.Text.Lines.{Free}
use zylo.Text.{Text, digits, decimal}

-- The number that a text of digits stands for, behind the digits already read.
unfoldable pub value : ℕ → Text → ℕ
value acc [] = acc
value acc (c ∷ s) = value (acc * 10 + (c - 48)) s

value-append : (acc : ℕ) (s : Text) (c : ℕ) → value acc (s ++ c ∷ []) ≡ value acc s * 10 + (c - 48)
unfolding value
value-append acc [] c = refl
value-append acc (d ∷ s) c = value-append (acc * 10 + (d - 48)) s c

value-digits : (fuel n : ℕ) → n < fuel → value 0 (digits fuel n) ≡ n
unfolding value digits
value-digits zero n h = elim h [ ]
value-digits (suc fuel) n h =
    ground (arith, value-digits fuel (n / 10), value-append 0 (digits fuel (n / 10)) (48 + n % 10))

pub value-decimal : (n : ℕ) → value 0 (decimal n) ≡ n
unfolding decimal
value-decimal n = value-digits (suc n) n (omega arith)

pub decimal_injective : (m n : ℕ) → decimal m ≡ decimal n → m ≡ n
decimal_injective m n e = sym (value-decimal m) ∙ ap (value 0) e ∙ value-decimal n

digits-Free : (fuel n : ℕ) → Free b'.' (digits fuel n)
unfolding digits
digits-Free zero n = refl
digits-Free (suc fuel) n = ground (
  arith,
  digits-Free fuel (n / 10),
  any-append (λ (c : ℕ). eqb c b'.') (digits fuel (n / 10)) ((48 + n % 10) ∷ []),
)

-- A printed number holds no dot.
pub decimal-Free : (n : ℕ) → Free b'.' (decimal n)
unfolding decimal
decimal-Free n = digits-Free (suc n) n

abbrev pub AllDigits : Text → Type 0
AllDigits = All (λ c. (48 ≤ c) × (c ≤ 57))

digits-AllDigits : (fuel n : ℕ) → AllDigits (digits fuel n)
unfolding digits
digits-AllDigits zero n = tt
digits-AllDigits (suc fuel) n = elim (Bool-cases (ltb n 10)) [
  | inl e ↦ rw e ((omega arith, ground arith), tt)
  | inr e ↦ rw e (
      All-append (λ c. (48 ≤ c) × (c ≤ 57)) (digits fuel (n / 10)) ((48 + n % 10) ∷ [])
        (digits-AllDigits fuel (n / 10)) ((omega arith, omega arith), tt))
]

pub decimal-AllDigits : (n : ℕ) → AllDigits (decimal n)
unfolding decimal
decimal-AllDigits n = digits-AllDigits (suc n) n

append-ne-nil : (s : Text) (c : ℕ) → s ++ c ∷ [] ≢ []
append-ne-nil [] c = ground arith
append-ne-nil (d ∷ s) c = ground arith

pub decimal-ne-nil : (n : ℕ) → decimal n ≢ []
unfolding decimal digits
decimal-ne-nil n = ground (arith, append-ne-nil (digits n (n / 10)) (48 + n % 10))

abbrev tens : ℕ → ℕ
tens zero = 1
tens (suc k) = 10 * tens k

tens-pos : (k : ℕ) → 1 ≤ tens k
tens-pos zero = omega arith
tens-pos (suc k) = omega (arith, tens-pos k)

digits-length : (k fuel n : ℕ) → tens k ≤ n → n < fuel → k < length (digits fuel n)
unfolding digits
digits-length k zero n h l = absurd (omega arith)
digits-length zero (suc fuel) n h l =
    ground (arith, length-append (digits fuel (n / 10)) ((48 + n % 10) ∷ []))
digits-length (suc k) (suc fuel) n h l =
    let more = digits-length k fuel (n / 10) (omega arith) (omega (arith, tens-pos k)) in
    ground (arith, length-append (digits fuel (n / 10)) ((48 + n % 10) ∷ []), tens-pos k)

-- A number from 10 ^ 9 on has ten digits or more.
pub decimal-length : (n : ℕ) → 1000000000 ≤ n → 9 < length (decimal n)
unfolding decimal
decimal-length n h = digits-length 9 (suc n) n h (omega arith)
