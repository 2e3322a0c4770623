-- ===== src/Images/Layer/Examples.antt =====
-- The theorem on layers at a concrete layer, and tests.
use zylo.Prelude.{◌≡◌, refl, true, some, List, [], ◌∷◌, ok, All}
use zylo.Text.{Text, codes, ◌==◌, has_prefix, contains, split, join}
use zylo.Paths.{join_path, enter, enter_all, clean}
use zylo.Images.Layer.{
  Header, regular, directory, hard_link, make_dir, make_parent, create, make_link, remove_all,
  LayerFate, dir_of, base_name, extract_kind, extract_entry, extract_entries, extract_layer,
}
use zylo.Images.Layer.Below.{MakesBelow, extract_layer-MakesBelow}

abbrev smooth : LayerFate
smooth = record { made = λ n. true; parent = λ n. true; opened = λ n. true; copied = λ n. true }

abbrev dest : Text
dest = codes "/images/app.tmp"

abbrev entries : List Header
entries =
    record { name = codes "bin"; kind = directory; link_name = [] }
    ∷ record { name = codes "bin/sh"; kind = regular; link_name = [] }
    ∷ record { name = codes "../etc/passwd"; kind = regular; link_name = [] }
    ∷ record { name = codes "bin/.wh.old"; kind = regular; link_name = [] }
    ∷ []

extract_layer-MakesBelow_example :
    All (MakesBelow dest) (extract_layer smooth dest (some (entries, true)) []).1
extract_layer-MakesBelow_example = extract_layer-MakesBelow smooth dest (some (entries, true))

calls : extract_layer smooth dest (some (entries, true)) [] ≡ (
  ok tt,
  remove_all (codes "/images/app.tmp/bin/old")
      ∷ create (codes "/images/app.tmp/bin/sh")
      ∷ make_parent (codes "/images/app.tmp/bin")
      ∷ make_dir (codes "/images/app.tmp/bin")
      ∷ [],
)
unfolding extract_layer extract_entries extract_entry extract_kind contains has_prefix base_name
    join_path clean enter enter_all dir_of split join ◌==◌
calls = refl

-- The old path of a hard link is not looked at, so it may be a file of the host.
link_escapes :
    extract_entry smooth 0 dest
      (record { name = codes "x"; kind = hard_link; link_name = codes "../../etc/shadow" })
      []
    ≡ (ok tt, make_link (codes "/etc/shadow") (codes "/images/app.tmp/x") ∷ [])
unfolding extract_entry extract_kind contains has_prefix base_name join_path clean enter enter_all
    dir_of split join ◌==◌
link_escapes = refl

-- The mark of an opaque directory holds two dots and is passed over.
opaque_skipped :
    extract_entry smooth 0 dest
      (record { name = codes "bin/.wh..wh..opq"; kind = regular; link_name = [] })
      []
    ≡ (ok tt, [])
unfolding extract_entry contains has_prefix
opaque_skipped = refl

-- A whiteout without a name removes the directory of the image.
bare_whiteout :
    extract_entry smooth 0 dest (record { name = codes ".wh."; kind = regular; link_name = [] }) []
    ≡ (ok tt, remove_all dest ∷ [])
unfolding extract_entry contains has_prefix base_name join_path clean enter enter_all dir_of split
    join ◌==◌
bare_whiteout = refl
