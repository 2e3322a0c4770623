-- ===== src/Images/Examples.antt =====
-- The theorem on shown sizes at a concrete size, and tests.
use zylo.Prelude.{ℕ, ◌*◌, ◌^◌, ◌<◌, ◌≤◌, ◌≡◌, refl, some, arith}
use zylo.Text.{codes}
use zylo.Integer.{pos}
use zylo.Images.{sanitize}
use zylo.Images.Format.{IsUnit, scaled, scale, format_bytes, format_bytes-bounds}

format_bytes-bounds_example :
    (div letter : ℕ) × (format_bytes (pos 5368709120) ≡ some (scaled 5368709120 div (some letter)))
    × IsUnit letter div
    × (div < 2 ^ 63)
    × (div ≤ 5368709120)
    × (5368709120 < div * 1024)
format_bytes-bounds_example = format_bytes-bounds 5368709120 (omega arith) (omega arith)

five_gigabytes : format_bytes (pos 5368709120) ≡ some (scaled 5368709120 1073741824 (some b'G'))
unfolding format_bytes scale
five_gigabytes = refl

largest :
    format_bytes (pos 9223372036854775807)
    ≡ some (scaled 9223372036854775807 1152921504606846976 (some b'E'))
unfolding format_bytes scale
largest = refl

tag : sanitize (codes "my/app:2") ≡ codes "my_app_2"
unfolding sanitize
tag = refl
