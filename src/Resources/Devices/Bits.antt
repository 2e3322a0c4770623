-- ===== src/Resources/Devices/Bits.antt =====
-- The bits of numbers whose shifted parts do not overlap.
use Prim.Native.Nat.{min, max, bit_and, bit_or, digits, bit_and-bitwise, bit_or-bitwise}
use zylo.Prelude.{ℕ, zero, suc, ◌+◌, ◌*◌, ◌/◌, ◌%◌, ◌<◌, ◌≤◌, ◌≡◌, refl, ap, ◌∙◌, arith}

module _ (z : ℕ → ℕ) (f : ℕ → ℕ → ℕ) where
  -- More fuel than the first number has digits changes nothing.
  digits_enough : (n m a b : ℕ) → a ≤ n → a ≤ m → digits z f n a b ≡ digits z f m a b
  digits_enough zero zero zero b p q = refl
  digits_enough zero (suc m) zero b p q = refl
  digits_enough (suc n) zero zero b p q = refl
  digits_enough (suc n) (suc m) zero b p q = refl
  digits_enough zero m (suc a) b p q = absurd (omega arith)
  digits_enough (suc n) zero (suc a) b p q = absurd (omega arith)
  digits_enough (suc n) (suc m) (suc a) b p q =
      omega (arith, digits_enough n m (suc a / 2) (b / 2) (omega arith) (omega arith))

bit_or_last : (a b : ℕ) → bit_or a b ≡ bit_or (a / 2) (b / 2) * 2 + max (a % 2) (b % 2)
bit_or_last zero b = omega (arith, bit_or-bitwise 0 b, bit_or-bitwise 0 (b / 2))
bit_or_last (suc a) b = omega (
  arith,
  bit_or-bitwise (suc a) b,
  bit_or-bitwise (suc a / 2) (b / 2),
  digits_enough (λ c. c) max a (suc a / 2) (suc a / 2) (b / 2) (omega arith) (omega arith),
)

bit_and_last : (a b : ℕ) → bit_and a b ≡ bit_and (a / 2) (b / 2) * 2 + min (a % 2) (b % 2)
bit_and_last zero b = omega (arith, bit_and-bitwise 0 b, bit_and-bitwise 0 (b / 2))
bit_and_last (suc a) b = omega (
  arith,
  bit_and-bitwise (suc a) b,
  bit_and-bitwise (suc a / 2) (b / 2),
  digits_enough (λ c. zero) min a (suc a / 2) (suc a / 2) (b / 2) (omega arith) (omega arith),
)

-- The same with the halves and the last bits given.
or_parts :
    (a b p q r s : ℕ)
    → a ≡ p * 2 + r
    → b ≡ q * 2 + s
    → r < 2
    → s < 2
    → bit_or a b ≡ bit_or p q * 2 + max r s
or_parts a b p q r s ea eb hr hs =
    let ha : a / 2 ≡ p = omega (arith, ea, hr) in
    let hb : b / 2 ≡ q = omega (arith, eb, hs) in
    let la : a % 2 ≡ r = omega (arith, ea, hr) in
    let lb : b % 2 ≡ s = omega (arith, eb, hs) in bit_or_last a b ∙ rw (ha, hb, la, lb) refl

and_parts :
    (a b p q r s : ℕ)
    → a ≡ p * 2 + r
    → b ≡ q * 2 + s
    → r < 2
    → s < 2
    → bit_and a b ≡ bit_and p q * 2 + min r s
and_parts a b p q r s ea eb hr hs =
    let ha : a / 2 ≡ p = omega (arith, ea, hr) in
    let hb : b / 2 ≡ q = omega (arith, eb, hs) in
    let la : a % 2 ≡ r = omega (arith, ea, hr) in
    let lb : b % 2 ≡ s = omega (arith, eb, hs) in bit_and_last a b ∙ rw (ha, hb, la, lb) refl

-- t << k
abbrev pub shift : ℕ → ℕ → ℕ
shift zero t = t
shift (suc k) t = shift k t * 2

or_nothing : (n a : ℕ) → a ≤ n → bit_or a 0 ≡ a
or_nothing n zero h = bit_or-bitwise 0 0
or_nothing zero (suc a) h = absurd (omega arith)
or_nothing (suc n) (suc a) h =
    omega (arith, bit_or_last (suc a) 0, or_nothing n (suc a / 2) (omega arith))

-- A number below 2 ^ k fits below one that is shifted by k, on either side.
pub or_below : (k t x : ℕ) → x < shift k 1 → bit_or (shift k t) x ≡ shift k t + x
or_below zero t zero h = omega (arith, or_nothing t t (omega arith))
or_below zero t (suc x) h = absurd (omega arith)
or_below (suc k) t x h = omega (
  arith,
  or_parts (shift k t * 2) x (shift k t) (x / 2) 0 (x % 2) (omega arith) (omega arith) (omega arith)
      (omega arith),
  or_below k t (x / 2) (omega arith),
)

pub or_above : (k t x : ℕ) → x < shift k 1 → bit_or x (shift k t) ≡ x + shift k t
or_above zero t zero h = omega (arith, bit_or-bitwise 0 t)
or_above zero t (suc x) h = absurd (omega arith)
or_above (suc k) t x h = omega (
  arith,
  or_parts x (shift k t * 2) (x / 2) (shift k t) (x % 2) 0 (omega arith) (omega arith) (omega arith)
      (omega arith),
  or_above k t (x / 2) (omega arith),
)

-- A mask of k ones.
abbrev ones : ℕ → ℕ
ones zero = 0
ones (suc k) = ones k * 2 + 1

and_nothing : (n a : ℕ) → a ≤ n → bit_and a 0 ≡ 0
and_nothing n zero h = bit_and-bitwise 0 0
and_nothing zero (suc a) h = absurd (omega arith)
and_nothing (suc n) (suc a) h =
    omega (arith, bit_and_last (suc a) 0, and_nothing n (suc a / 2) (omega arith))

-- A number is its part under the mask and a shifted rest.
and_ones :
    (k a : ℕ) → (q : ℕ) × (a ≡ shift k q + bit_and a (ones k)) × (bit_and a (ones k) < shift k 1)
and_ones zero a =
    (a, omega (arith, and_nothing a a (omega arith)), omega (arith, and_nothing a a (omega arith)))
and_ones (suc k) a =
    let (q, e, l) = and_ones k (a / 2) in
    let last =
      and_parts a (ones k * 2 + 1) (a / 2) (ones k) (a % 2) 1 (omega arith) (omega arith)
        (omega arith) (omega arith) in
    (q, omega (arith, last, e, l), omega (arith, last, l))

pub and_byte : (a : ℕ) → bit_and a 255 ≡ a % 256
and_byte a = let (q, e, l) = and_ones 8 a in omega (arith, e, l)

and_shift :
    (k m a q r : ℕ)
    → a ≡ shift k q + r
    → r < shift k 1
    → bit_and a (shift k m) ≡ shift k (bit_and q m)
and_shift zero m a q zero e h = ap (λ x. bit_and x m) (e ∙ omega arith)
and_shift zero m a q (suc r) e h = absurd (omega arith)
and_shift (suc k) m a q r e h = omega (
  arith,
  and_parts a (shift k m * 2) (a / 2) (shift k m) (a % 2) 0 (omega arith) (omega arith)
      (omega arith) (omega arith),
  and_shift k m (a / 2) q (r / 2) (omega (arith, e)) (omega arith),
)

-- The second byte, where it stands.
pub and_high_byte : (a : ℕ) → bit_and a 65280 ≡ a / 256 % 256 * 256
and_high_byte a =
    omega
      (arith, and_shift 8 255 a (a / 256) (a % 256) (omega arith) (omega arith), and_byte (a / 256))
