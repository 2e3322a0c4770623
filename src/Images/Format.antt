-- ===== src/Images/Format.antt =====
-- formatBytes of image/utils.go.
use zylo.Prelude.{
  ℕ, zero, suc, ◌+◌, ◌*◌, ◌/◌, ◌^◌, ◌<◌, ◌≤◌, ◌≡◌, refl, ap, sym, ◌∙◌, Option, none, some, [], ◌∷◌,
  ltb, arith, if◌then◌else◌, Bool-cases, inl, inr,
}
use native.Mathlib.Nat.{mul-le-mul_left, mul_assoc}
use zylo.Text.{Text, codes}
use zylo.Integer.{ℤ, pos, negsuc}

-- What is printed: the bytes themselves, or the quotient of the bytes by a power of 1024, with the
-- letter of its unit. The rounding of the quotient to one decimal is left to fmt.
pub data Shown : Type 0 where
  plain : ℤ → Shown
  scaled : ℕ → ℕ → Option ℕ → Shown

abbrev pub letter : ℕ → Text → Option ℕ
letter n [] = none
letter zero (c ∷ s) = some c
letter (suc n) (c ∷ s) = letter n s

-- The loop: `div` and `exp` when it ends, with fuel.
unfoldable pub scale : ℕ → ℕ → ℕ → ℕ → Option (ℕ × ℕ)
scale zero n div exp = none
scale (suc fuel) n div exp =
    let rest = scale fuel (n / 1024) (div * 1024) (exp + 1) in
    if ltb n 1024 then some (div, exp) else rest

abbrev show_scaled : ℕ → Option (ℕ × ℕ) → Option Shown
show_scaled bytes none = none
show_scaled bytes (some (div, exp)) = some (scaled bytes div (letter exp (codes "KMGTPE")))

unfoldable pub format_bytes : ℤ → Option Shown
format_bytes (negsuc n) = some (plain (negsuc n))
format_bytes (pos bytes) =
    let big = show_scaled bytes (scale 6 (bytes / 1024) 1024 0) in
    if ltb bytes 1024 then some (plain (pos bytes)) else big

pair-≡ : {a b c d : ℕ} → a ≡ b → c ≡ d → ◌≡◌ {A = ℕ × ℕ} (a, c) (b, d)
pair-≡ e f = rw (e, f) refl

-- Where the loop ends: how many times it went round, and what it holds then.
record Ends (fuel n div exp bytes : ℕ) : Type 0 where
  rounds : ℕ
  few : rounds < fuel
  value : scale fuel n div exp ≡ some (div * 1024 ^ rounds, exp + rounds)
  low : div * 1024 ^ rounds ≤ bytes
  high : bytes < div * 1024 ^ rounds * 1024

scale-Ends :
    (fuel n div exp bytes : ℕ)
    → n < 1024 ^ fuel
    → 1 ≤ n
    → div * n ≤ bytes
    → bytes < div * (n + 1)
    → Ends fuel n div exp bytes
unfolding scale
scale-Ends zero n div exp bytes h h1 low high = absurd (ground arith)
scale-Ends (suc fuel) n div exp bytes h h1 low high = elim (Bool-cases (ltb n 1024)) [
  | inl e ↦
      let small : n < 1024 = ground arith in
      let top = mul-le-mul_left {m = n + 1} {n = 1024} div (omega (arith, small)) in
      record {
        rounds = 0;
        few = omega arith;
        value = rw e (ap some (pair-≡ (omega arith) (omega arith)));
        low = omega (arith, low, mul-le-mul_left {m = 1} {n = n} div h1);
        high = omega (arith, top, high);
      }
  | inr e ↦
      let large : 1024 ≤ n = ground arith in
      let q = n / 1024 in
      let below = mul-le-mul_left {m = 1024 * q} {n = n} div (omega arith) in
      let above = mul-le-mul_left {m = n + 1} {n = 1024 * (q + 1)} div (omega arith) in
      let rest =
        scale-Ends fuel q (div * 1024) (exp + 1) bytes (omega (arith, h)) (omega (arith, large))
          (omega (arith, low, below, mul_assoc div 1024 q))
          (omega (arith, high, above, mul_assoc div 1024 (q + 1))) in
      let power : div * 1024 ^ suc rest.rounds ≡ div * 1024 * 1024 ^ rest.rounds =
        ap (λ x. div * x) (omega arith) ∙ sym (mul_assoc div 1024 (1024 ^ rest.rounds)) in
      record {
        rounds = suc rest.rounds;
        few = omega (arith, rest.few);
        value = rw e (rest.value ∙ ap some (pair-≡ (omega (arith, power)) (omega arith)));
        low = omega (arith, power, rest.low);
        high = omega (arith, power, rest.high);
      }
]

-- The letter of a unit, and how many bytes it has.
pub data IsUnit : ℕ → ℕ → Type 0 where
  kilo : IsUnit b'K' (1024 ^ 1)
  mega : IsUnit b'M' (1024 ^ 2)
  giga : IsUnit b'G' (1024 ^ 3)
  tera : IsUnit b'T' (1024 ^ 4)
  peta : IsUnit b'P' (1024 ^ 5)
  exa : IsUnit b'E' (1024 ^ 6)

letter_total :
    (r : ℕ) → r < 6 → (l : ℕ) × (letter r (codes "KMGTPE") ≡ some l) × IsUnit l (1024 * 1024 ^ r)
letter_total zero h = (b'K', refl, kilo)
letter_total (suc zero) h = (b'M', refl, mega)
letter_total (suc (suc zero)) h = (b'G', refl, giga)
letter_total (suc (suc (suc zero))) h = (b'T', refl, tera)
letter_total (suc (suc (suc (suc zero)))) h = (b'P', refl, peta)
letter_total (suc (suc (suc (suc (suc zero))))) h = (b'E', refl, exa)
letter_total (suc (suc (suc (suc (suc (suc r)))))) h = absurd (omega arith)

-- A size of at least 1024 and below 2 ^ 63, the bound of an int64, is shown with the letter of a unit,
-- K, M, G, T, P or E for the powers 1 to 6 of 1024, and is divided by that power, which fits an int64
-- too, with a quotient from 1 to below 1024.
pub format_bytes-bounds :
    (bytes : ℕ)
    → 1024 ≤ bytes
    → bytes < 2 ^ 63
    → (div letter : ℕ) × (format_bytes (pos bytes) ≡ some (scaled bytes div (some letter)))
      × IsUnit letter div
      × (div < 2 ^ 63)
      × (div ≤ bytes)
      × (bytes < div * 1024)
unfolding format_bytes
format_bytes-bounds bytes low high =
    let ends =
      scale-Ends 6 (bytes / 1024) 1024 0 bytes (omega (arith, high)) (omega (arith, low))
        (omega arith) (omega arith) in
    let (l, named, unit) = letter_total ends.rounds ends.few in
    (
      1024 * 1024 ^ ends.rounds,
      l,
      shown ends.rounds l ends.value named,
      unit,
      omega (arith, high, ends.low),
      ends.low,
      ends.high,
    )
  where
    shown :
        (r l : ℕ)
        → scale 6 (bytes / 1024) 1024 0 ≡ some (1024 * 1024 ^ r, 0 + r)
        → letter r (codes "KMGTPE") ≡ some l
        → format_bytes (pos bytes) ≡ some (scaled bytes (1024 * 1024 ^ r) (some l))
    shown r l e n = ground arith
