-- ===== src/Images/Pull/Examples.antt =====
-- The theorems on downloads at concrete images, and tests.
use zylo.Prelude.{ℕ, ◌≡◌, refl, true, false, some, none, List, [], ◌∷◌, ok, err, eqb, if◌then◌else◌}
use zylo.Text.{codes, ◌==◌, split, join}
use zylo.Paths.{join_path}
use zylo.Table.{Table, get, put, remove}
use zylo.Images.{image_path, sanitize}
use zylo.Images.Pull.{
  PullFate, lock_file, Entry, tree, layer_failed, fill, download, finish, extract_all, pull_image,
}
use zylo.Images.Pull.Whole.{WholeOrAbsent, pull_image-WholeOrAbsent}
use zylo.Images.Pull.Retry.{all_well, pull_image-retry}

-- The second layer fails.
abbrev half : PullFate
half = record all_well { extracted = λ n. if eqb n 1 then false else true }

abbrev layers : List ℕ
layers = 7 ∷ 8 ∷ 9 ∷ []

abbrev empty : Table (Entry ℕ)
empty = []

half_fails : (pull_image half (codes "python") (some layers) empty).0 ≡ err layer_failed
unfolding pull_image download fill extract_all finish get put remove ◌==◌ join_path sanitize split
    join
half_fails = refl

no_image : get (image_path (codes "python")) empty ≡ none
unfolding get
no_image = refl

pull_image-WholeOrAbsent_example :
    WholeOrAbsent
      (codes "python")
      (some layers)
      (pull_image half (codes "python") (some layers) empty)
pull_image-WholeOrAbsent_example =
    pull_image-WholeOrAbsent half (codes "python") (some layers) empty no_image

no_lock : get (lock_file (codes "python")) empty ≡ none
unfolding get
no_lock = refl

pull_image-retry_example :
    let t =
      pull_image all_well
        (codes "python")
        (some layers)
        (pull_image half (codes "python") (some layers) empty).1 in
    (t.0 ≡ ok tt) × (get (image_path (codes "python")) t.1 ≡ some (tree layers))
pull_image-retry_example =
    pull_image-retry half (codes "python") (some layers) layers empty layer_failed no_image no_lock
      refl refl half_fails
