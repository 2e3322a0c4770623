-- ===== src/Paths.antt =====
-- path/filepath for rooted paths, which are all that the program joins, and global/global.go.
pub mod Dots
pub mod Below
use zylo.Prelude.{List, [], ◌∷◌, ◌++◌, if◌then◌else◌}
use zylo.Text.{Text, ◌==◌, codes, is_empty, split, join}

abbrev pub main_net_name : Text
main_net_name = codes "zylo0"

abbrev pub vol_pth : Text
vol_pth = codes "/var/lib/zylo/volumes"

abbrev pub imgs_pth : Text
imgs_pth = codes "/var/lib/zylo/images"

abbrev pub ctrs_pth : Text
ctrs_pth = codes "/var/lib/zylo/containers"

abbrev pub drop_last : List Text → List Text
drop_last [] = []
drop_last (p ∷ ps) = ps

-- One part of a path, on the parts before it, the last one first.
unfoldable pub enter : List Text → Text → List Text
enter ps p =
    if is_empty p
    then ps
    else if p == codes "."
    then ps
    else if p == codes ".."
    then drop_last ps
    else p ∷ ps

unfoldable pub enter_all : List Text → List Text → List Text
unfolding enter
enter_all ps [] = ps
enter_all ps (q ∷ qs) = enter_all (enter ps q) qs

abbrev pub reversed : List Text → List Text → List Text
reversed acc [] = acc
reversed acc (p ∷ ps) = reversed (p ∷ acc) ps

abbrev pub slash : Text
slash = b'/' ∷ []

-- filepath.Clean of a rooted path
unfoldable pub clean : Text → Text
unfolding enter_all
clean path = slash ++ join b'/' (reversed [] (enter_all [] (split b'/' path)))

-- filepath.Join of a rooted path and one more element
unfoldable pub join_path : Text → Text → Text
unfolding clean
join_path base elem = clean (base ++ (slash ++ elem))
