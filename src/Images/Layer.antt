-- ===== src/Images/Layer.antt =====
-- extractLayer of api/image.go: the archive of one layer, entry by entry.
pub mod Below
mod Examples
use zylo.Prelude.{
  ℕ, suc, Bool, true, false, not, ◌&&◌, Option, none, some, List, [], ◌∷◌, ◌++◌, Result, ok, err,
  keep, if◌then◌else◌,
}
use zylo.Prelude.Actions.{Act, Done, pure, fail, fail_if, modify, ◌>>=◌, ◌>>◌}
use zylo.Text.{Text, codes, is_empty, has_prefix, contains, split, join}
use zylo.Paths.{slash, drop_last, reversed, enter_all, join_path}

-- The type flag of an entry; the types that the code passes over are `other`.
pub data Kind : Type 0 where
  directory regular symlink hard_link other : Kind

pub record Header : Type 0 where
  pub name : Text
  pub kind : Kind
  pub link_name : Text

-- A call that changes the file system, with its paths.
pub data Call : Type 0 where
  make_dir make_parent create remove_all : Text → Call
  make_symlink make_link : Text → Text → Call

pub data LayerError : Type 0 where
  no_archive read_failed no_dir no_parent not_opened not_copied : LayerError

-- How the calls for the n-th entry go.
pub record LayerFate : Type 0 where
  pub made : ℕ → Bool
  pub parent : ℕ → Bool
  pub opened : ℕ → Bool
  pub copied : ℕ → Bool

-- The calls so far, the last one first.
abbrev pub Extracting : Type 0 → Type 0
Extracting A = Act (List Call) LayerError A

abbrev pub call : Call → Extracting Done
call c = modify (λ cs. c ∷ cs)

-- filepath.Dir of a rooted path that is clean
unfoldable pub dir_of : Text → Text
unfolding enter_all
dir_of path = slash ++ join b'/' (reversed [] (drop_last (enter_all [] (split b'/' path))))

abbrev pub last_or : Text → List Text → Text
last_or d [] = d
last_or d (p ∷ ps) = last_or p ps

-- filepath.Base
unfoldable pub base_name : Text → Text
base_name path =
    if is_empty path
    then codes "."
    else last_or slash (keep (λ p. not (is_empty p)) (split b'/' path))

abbrev pub whiteout : Text
whiteout = codes ".wh."

abbrev pub drop_four : Text → Text
drop_four (a ∷ b ∷ c ∷ d ∷ s) = s
drop_four s = s

-- What stands behind a whiteout is removed.
abbrev pub white_out : Text → Text → Extracting Done
white_out target base = call (remove_all (join_path (dir_of target) (drop_four base)))

-- The `switch` over the type of the entry.
unfoldable pub extract_kind : LayerFate → ℕ → Text → Text → Kind → Text → Extracting Done
unfolding dir_of
extract_kind w n dest target directory link = do
  call (make_dir target)
  fail_if (not (w.made n)) no_dir
extract_kind w n dest target regular link = do
  call (make_parent (dir_of target))
  fail_if (not (w.parent n)) no_parent
  call (create target)
  fail_if (not (w.opened n)) not_opened
  fail_if (not (w.copied n)) not_copied
extract_kind w n dest target symlink link = do
  call (make_parent (dir_of target))
  call (make_symlink link target)
extract_kind w n dest target hard_link link = call (make_link (join_path dest link) target)
extract_kind w n dest target other link = pure tt

unfoldable pub extract_entry : LayerFate → ℕ → Text → Header → Extracting Done
unfolding extract_kind base_name
extract_entry w n dest h =
    if contains h.name (codes "..")
    then pure tt
    else if has_prefix (base_name h.name) whiteout
    then white_out (join_path dest h.name) (base_name h.name)
    else extract_kind w n dest (join_path dest h.name) h.kind h.link_name

-- The loop, from the n-th entry on; `ended` says whether the archive ends well behind the entries.
unfoldable pub extract_entries : LayerFate → ℕ → Text → Bool → List Header → Extracting Done
unfolding extract_entry
extract_entries w n dest ended [] = fail_if (not ended) read_failed
extract_entries w n dest ended (h ∷ hs) = do
  extract_entry w n dest h
  extract_entries w (suc n) dest ended hs

abbrev pub archive : LayerFate → Text → Option (List Header × Bool) → Extracting Done
archive w dest none = fail no_archive
archive w dest (some (hs, ended)) = extract_entries w 0 dest ended hs

unfoldable pub extract_layer : LayerFate → Text → Option (List Header × Bool) → Extracting Done
unfolding extract_entries
extract_layer w dest layer = archive w dest layer
