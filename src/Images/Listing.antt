-- ===== src/Images/Listing.antt =====
-- List of image/list.go: the directories of the images with their sizes.
use zylo.Prelude.{
  ℕ, ◌+◌, ◌-◌, ◌%◌, ◌^◌, Bool, not, Option, none, some, List, [], ◌∷◌, ◌++◌, Result, ok, err, ltb,
  if◌then◌else◌,
}
use zylo.Text.{Text, codes}
use zylo.Integer.{ℤ, pos, negsuc}
use zylo.Paths.{imgs_pth, join_path}
use zylo.Images.Format.{Shown, format_bytes}

-- An entry of the directory of the images, with the sizes of the files that a walk through it finds.
pub record Dir : Type 0 where
  pub name : Text
  pub is_dir : Bool
  pub sizes : List ℕ

pub data Line : Type 0 where
  plain : Text → Line
  header : List Text → Line
  row : Text → Shown → Text → Line

pub data ListError : Type 0 where
  no_dir no_tty : ListError

-- A number of 64 bits read as an int64.
abbrev pub int64 : ℕ → ℤ
int64 n = if ltb n (2 ^ 63) then pos n else negsuc (2 ^ 64 - 1 - n)

-- The walk: sums wrap around.
unfoldable pub total_size : ℕ → List ℕ → ℤ
total_size acc [] = int64 acc
total_size acc (n ∷ ns) = total_size ((acc + n) % 2 ^ 64) ns

abbrev pub dir_row : Dir → Option Shown → Option (List Line) → Option (List Line)
dir_row d none rest = none
dir_row d (some size) none = none
dir_row d (some size) (some ls) = some (row d.name size (join_path imgs_pth d.name) ∷ ls)

-- The loop. What is no directory is passed over, the locks among it; a directory of a download
-- that is under way is shown.
unfoldable pub dir_rows : List Dir → Option (List Line)
unfolding total_size format_bytes
dir_rows [] = some []
dir_rows (d ∷ ds) =
    let rest = dir_rows ds in
    if not d.is_dir then rest else dir_row d (format_bytes (total_size 0 d.sizes)) rest

abbrev blank : Line
blank = plain []

abbrev pub framed : Option (List Line) → Option (Result ListError (List Line))
framed none = none
framed (some rows) =
    some
      (ok (blank ∷ header (codes "NAME" ∷ codes "SIZE" ∷ codes "PATH" ∷ []) ∷ (rows ++ blank ∷ [])))

abbrev pub table : List Dir → Option (Result ListError (List Line))
table [] = some (ok (blank ∷ plain (codes "No images found.") ∷ blank ∷ []))
table (d ∷ ds) = framed (dir_rows (d ∷ ds))

-- The entries, where the directory can be read, and whether the terminal can be opened.
unfoldable pub list : Option (List Dir) → Bool → Option (Result ListError (List Line))
unfolding dir_rows
list none tty = some (err no_dir)
list (some ds) tty = if not tty then some (err no_tty) else table ds
