-- ===== src/Images/Commands.antt =====
-- Pull of image/pull.go and Delete of image/delete.go.
use zylo.Prelude.{
  ℕ, ◌*◌, Bool, true, false, not, Option, none, some, List, ok, any, ltb, if◌then◌else◌,
}
use zylo.Prelude.Actions.{Act, Done, fail_if, modify, wrap, ◌>>◌}
use zylo.Text.{Text, ◌==◌, is_empty}
use zylo.Table.{Table, get, remove}
use zylo.Paths.{imgs_pth, join_path}
use zylo.Images.{image_path}
use zylo.Images.Pull.{PullFate, PullError, Entry, pull_image}
use zylo.Container.{Container, Runtime, list_containers}

pub data CommandError : Type 0 where
  name_required no_tty no_registry no_space image_not_found image_in_use not_removed : CommandError
  pull_failed : PullError → CommandError

-- What the system answers: the terminal, the registry of images, the free space, and the removal.
pub record CommandFate : Type 0 where
  pub tty : Bool
  pub ping : Bool
  pub free_space : Option ℕ
  pub pull : PullFate
  pub removed : Bool

abbrev too_little : Option ℕ → Bool
too_little none = false
too_little (some free) = ltb free (512 * 1024 * 1024)

abbrev is_there {ℓ} : {A : Type ℓ} → Option A → Bool
is_there none = false
is_there (some a) = true

abbrev pub uses_image : Text → Container → Bool
uses_image name c = c.image == name

module _ {L : Type 0} where
  -- `Pull`; where the free space cannot be asked for, the download goes on.
  unfoldable pub pull :
      CommandFate → Text → Option (List L) → Act (Table (Entry L)) CommandError Done
  unfolding pull_image
  pull w name layers = do
    fail_if (is_empty name) name_required
    fail_if (not w.tty) no_tty
    fail_if (not w.ping) no_registry
    (λ s.
        if is_there (get (image_path name) s)
        then (ok tt, s)
        else (do
          fail_if (too_little w.free_space) no_space
          wrap pull_failed (pull_image w.pull name layers))
            s)

  -- `Delete`, with the containers of the daemon. The name is joined as it is.
  unfoldable pub delete : CommandFate → Runtime → Text → Act (Table (Entry L)) CommandError Done
  unfolding list_containers
  delete w r name = do
    fail_if (is_empty name) name_required
    fail_if (not w.tty) no_tty
    (λ s. fail_if (not (is_there (get (join_path imgs_pth name) s))) image_not_found s)
    fail_if (any (uses_image name) (list_containers r)) image_in_use
    fail_if (not w.removed) not_removed
    modify (remove (join_path imgs_pth name))
