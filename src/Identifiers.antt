-- ===== src/Identifiers.antt =====
-- internal/identifiers/hash.go: the identifier of a container.
use zylo.Prelude.{ℕ, ◌≤◌, ◌<◌, ◌≢◌, refl, [], ◌∷◌, ◌++◌, length, length-append, arith}
use zylo.Text.{Text, decimal}
use zylo.Text.Decimal.{decimal-length, decimal-ne-nil}

length-pos : (s : Text) → s ≢ [] → 0 < length s
length-pos [] h = absurd (h refl)
length-pos (c ∷ s) h = omega arith

-- The seconds of the clock and a random number.
unfoldable pub hash : ℕ → ℕ → Text
unfolding decimal
hash timestamp random_number = decimal timestamp ++ b'-' ∷ decimal random_number

-- An identifier made after September 2001 has twelve bytes or more.
pub hash-length : (t r : ℕ) → 1000000000 ≤ t → 12 ≤ length (hash t r)
unfolding hash
hash-length t r h = ground (
  arith,
  length-append (decimal t) (b'-' ∷ decimal r),
  decimal-length t,
  length-pos (decimal r) (decimal-ne-nil r),
)
