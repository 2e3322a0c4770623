-- ===== src/Resources/Devices/Numbers.antt =====
-- makedev of internal/container/resources/devices.go, against the numbers that Linux reads back.
use Prim.Native.Nat.{bit_or}
use zylo.Prelude.{ℕ, ◌+◌, ◌*◌, ◌/◌, ◌%◌, ◌^◌, ◌<◌, ◌≡◌, arith, ap, sym, ◌∙◌}
use zylo.Resources.Devices.{makedev}
use zylo.Resources.Devices.Bits.{shift, or_below, or_above, and_byte, and_high_byte}

-- new_decode_dev of Linux: the major number has the bits from 8 to 19, the minor number the lowest
-- eight and those from 20 on.
abbrev pub kernel_major : ℕ → ℕ
kernel_major dev = dev / 2 ^ 8 % 2 ^ 12

abbrev pub kernel_minor : ℕ → ℕ
kernel_minor dev = dev % 2 ^ 8 + dev / 2 ^ 20 * 2 ^ 8

low_parts : (major byte : ℕ) → byte < 256 → bit_or (major * 256) byte ≡ major * 256 + byte
low_parts major byte h =
    let e : major * 256 ≡ shift 8 major = omega arith in
    ap (λ x. bit_or x byte) e ∙ or_below 8 major byte h ∙ ap (λ (x : ℕ). x + byte) (sym e)

high_parts : (x byte : ℕ) → x < 1048576 → bit_or x (byte * 256 * 4096) ≡ x + byte * 1048576
high_parts x byte h =
    let e : byte * 256 * 4096 ≡ shift 20 byte = omega arith in
    ap (bit_or x) e ∙ or_above 20 byte x h ∙ omega arith

makedev-sum :
    (major minor : ℕ)
    → major < 4096
    → makedev major minor ≡ major * 256 + minor % 256 + minor / 256 % 256 * 1048576
unfolding makedev
makedev-sum major minor h =
    rw (and_byte minor, and_high_byte minor, low_parts major (minor % 256) (omega arith))
      (high_parts (major * 256 + minor % 256) (minor / 256 % 256) (omega arith))

-- For a major number below 4096 and a minor number below 65536, Linux reads both back from the number
-- that makedev makes.
pub kernel_numbers-makedev :
    (major minor : ℕ)
    → major < 4096
    → minor < 65536
    → (kernel_major (makedev major minor) ≡ major) × (kernel_minor (makedev major minor) ≡ minor)
kernel_numbers-makedev major minor h l =
    (omega (arith, makedev-sum major minor h), omega (arith, makedev-sum major minor h))
