-- ===== src/Images.antt =====
-- api/image.go, image/ and ensureImage of internal/container/config.go.
pub mod Format
pub mod Pull
pub mod Layer
pub mod Commands
pub mod Listing
mod Examples
use zylo.Prelude.{Bool, true, false, Result, ok, err, List, [], ◌∷◌, map, ◌||◌, eqb, if◌then◌else◌}
use zylo.Prelude.Actions.{Done}
use zylo.Text.{Text}
use zylo.Paths.{join_path, imgs_pth}

-- Sanitize: a colon and a slash each become an underscore.
unfoldable pub sanitize : Text → Text
sanitize name = map (λ c. if eqb c b':' || eqb c b'/' then b'_' else c) name

abbrev pub image_path : Text → Text
image_path name = join_path imgs_pth (sanitize name)

pub data ImageError : Type 0 where
  pull_failed : ImageError

-- `there` says which paths os.Stat finds, and `pulled` how PullImage of a name goes.
unfoldable pub ensure_image : (Text → Bool) → (Text → Bool) → Text → Result ImageError Done
ensure_image there pulled name =
    if there (image_path name) then ok tt else if pulled name then ok tt else err pull_failed
