-- ===== src/Container/Find.antt =====
-- findContainer of internal/container/runtime_cleanup.go.
pub mod Unique
use zylo.Prelude.{
  Bool, true, false, not, Option, none, some, List, [], ◌∷◌, Result, ok, err, keep, first,
  if◌then◌else◌,
}
use zylo.Text.{Text, ◌==◌, is_empty}
use zylo.Container.{
  Container, Runtime, Error, no_containers, not_found, none_match, many_match, list_containers,
}

abbrev pub has_id : Text → Container → Bool
has_id hash c = c.id == hash

abbrev pub has_path : Text → Container → Bool
has_path path c = c.cmd_path == path

abbrev pub found : Option Container → Result Error Container
found none = err not_found
found (some c) = ok c

abbrev pub only : List Container → Result Error Container
only [] = err none_match
only (c ∷ []) = ok c
only (c ∷ d ∷ cs) = err many_match

abbrev pub find_in : Text → Text → Text → List Container → Result Error Container
find_in cmd_path hash cwd [] = err no_containers
find_in cmd_path hash cwd (c ∷ cs) =
    if not (is_empty hash)
    then found (first (has_id hash) (c ∷ cs))
    else if not (is_empty cmd_path)
    then only (keep (has_path cmd_path) (c ∷ cs))
    else only (keep (has_path cwd) (c ∷ cs))

-- `cwd` is the daemon's working directory.
unfoldable pub find_container : Text → Text → Text → Runtime → Result Error Container
find_container cmd_path hash cwd s = find_in cmd_path hash cwd (list_containers s)
