-- ===== src/Volume.antt =====
-- volume/: the registry of volumes, one JSON file.
pub mod Lookup
pub mod Unique
pub mod Usage
mod Examples
use zylo.Prelude.{
  Bool, true, false, not, ◌&&◌, ◌||◌, Option, none, some, List, [], ◌∷◌, ◌++◌, Result, ok, err, any,
  keep, first, if◌then◌else◌,
}
use zylo.Prelude.Actions.{Act, Done, pure, fail, lift, wrap, ◌>>=◌, ◌>>◌}
use zylo.Text.{Text, ◌==◌, is_empty}
use zylo.Disk.{File, Fault, Write, read_or, write}

pub record Volume : Type 0 where
  pub name : Text
  pub path : Text
  pub created : Text
  pub used_by : List Text

abbrev pub Registry : Type 0
Registry = List Volume

pub data Error : Type 0 where
  disk : Fault → Error
  name_exists path_exists in_use name_not_found path_not_found : Error

abbrev pub Volumes : Type 0 → Type 0
Volumes A = Act (File Registry) Error A

unfoldable pub load_registry : Act (File Registry) Fault Registry
unfolding read_or
load_registry f = (read_or [] f, f)

unfoldable pub save_registry : Write → Registry → Act (File Registry) Fault Done
unfolding write
save_registry w reg = write w reg

-- The loop of RegisterVolume: the first volume that clashes decides the error.
unfoldable pub clash : Text → Text → Registry → Result Error Done
clash name path [] = ok tt
clash name path (v ∷ reg) =
    if v.name == name
    then err name_exists
    else if v.path == path
    then err path_exists
    else clash name path reg

unfoldable pub register_volume : Write → Text → Text → Text → Volumes Done
unfolding load_registry save_registry clash
register_volume w now name path = do
  reg ← wrap disk load_registry
  lift (clash name path reg)
  wrap disk (
      save_registry w
        (reg ++ record { name = name; path = path; created = now; used_by = [] } ∷ []))

-- (name != "" && v.Name == name) || (path != "" && v.Path == path)
abbrev pub picks : Text → Text → Volume → Bool
picks name path v =
    (not (is_empty name) && v.name == name) || (not (is_empty path) && v.path == path)

-- The loop of UnregisterVolume: the volumes that stay, or the error at a picked one in use.
unfoldable pub strike : Text → Text → Registry → Result Error Registry
strike name path [] = ok []
strike name path (v ∷ reg) =
    let rest = strike name path reg in
    if picks name path v
    then elim v.used_by [ [] ↦ rest | c ∷ cs ↦ err in_use ]
    else elim rest [ ok vs ↦ ok (v ∷ vs) | err e ↦ err e ]

abbrev missing : Text → Error
missing name = if not (is_empty name) then name_not_found else path_not_found

unfoldable pub unregister_volume : Write → Text → Text → Volumes Done
unfolding load_registry save_registry strike
unregister_volume w name path = do
  reg ← wrap disk load_registry
  left ← lift (strike name path reg)
  if any (picks name path) reg then wrap disk (save_registry w left) else fail (missing name)

abbrev pub add_user : Text → Volume → Volume
add_user id v = record v { used_by = v.used_by ++ id ∷ [] }

abbrev pub drop_user : Text → Volume → Volume
drop_user id v = record v { used_by = keep (λ u. not (u == id)) v.used_by }

-- The registry with the first picked volume changed.
abbrev pub change : Text → Text → (Volume → Volume) → Registry → Registry
change name path f [] = []
change name path f (v ∷ reg) = if picks name path v then f v ∷ reg else v ∷ change name path f reg

abbrev mark_used_in : Write → Text → Text → Text → Registry → Option Volume → Volumes Done
mark_used_in w name path id reg none = pure tt
mark_used_in w name path id reg (some v) =
    if any (λ u. u == id) v.used_by
    then pure tt
    else wrap disk (save_registry w (change name path (add_user id) reg))

unfoldable pub mark_volume_used : Write → Text → Text → Text → Volumes Done
unfolding load_registry save_registry
mark_volume_used w name path id = do
  reg ← wrap disk load_registry
  mark_used_in w name path id reg (first (picks name path) reg)

abbrev mark_unused_in : Write → Text → Text → Text → Registry → Option Volume → Volumes Done
mark_unused_in w name path id reg none = pure tt
mark_unused_in w name path id reg (some v) =
    wrap disk (save_registry w (change name path (drop_user id) reg))

unfoldable pub mark_volume_unused : Write → Text → Text → Text → Volumes Done
unfolding load_registry save_registry
mark_volume_unused w name path id = do
  reg ← wrap disk load_registry
  mark_unused_in w name path id reg (first (picks name path) reg)

unfoldable pub list_volumes : Volumes Registry
unfolding load_registry
list_volumes = wrap disk load_registry

unfoldable pub find_volume : Text → Text → Volumes (Option Volume)
unfolding load_registry
find_volume name path = do reg ← wrap disk load_registry; pure (first (picks name path) reg)
