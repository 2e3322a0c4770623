-- ===== src/Container/Volumes.antt =====
-- internal/container/volumes.go and checkVolumes of config.go: the deletion of a volume, and whether
-- a running container mounts it.
pub mod Delete
pub mod InUse
mod Examples
use zylo.Prelude.{
  Bool, true, false, not, ◌&&◌, ◌||◌, Option, none, some, List, [], ◌∷◌, ◌++◌, Result, ok, err, any,
  if◌then◌else◌,
}
use zylo.Prelude.Results
use zylo.Prelude.Actions.{Act, Done, pure, fail, fail_if, lift, wrap, ignore, ◌>>=◌, ◌>>◌}
use zylo.Text.{Text, ◌==◌, is_empty, trim_space}
use zylo.Disk.{File, Fault, TextFile, Write, read, read_text}
use zylo.Integer.{ℤ, Parsed, atoi}
use zylo.Zylofile.{Mount}
use zylo.Volume
use zylo.Volume.{Volume, Registry, find_volume, register_volume, unregister_volume}
use zylo.Volume.Lookup.{is_used}
use zylo.Container.{Container}

pub data Error : Type 0 where
  both_given none_given volume_not_found volume_in_use not_removed : Error
  registry_failed : Volume.Error → Error

abbrev found_volume : Option Volume → Result Error Volume
found_volume none = err volume_not_found
found_volume (some v) = ok v

abbrev remove_dir : Bool → Write → Text → Volume → Act (File Registry) Error Done
remove_dir true again now v = pure tt
remove_dir false again now v = do ignore (register_volume again now v.name v.path); fail not_removed

-- `removed` says whether os.RemoveAll takes the directory away, and `again` how the write goes that
-- registers the volume anew where it does not.
unfoldable pub volume_delete :
    Bool → Write → Write → Text → Text → Text → Act (File Registry) Error Done
volume_delete removed w again now name path = do
  fail_if (not (is_empty name) && not (is_empty path)) both_given
  fail_if (is_empty name && is_empty path) none_given
  found ← wrap registry_failed (find_volume name path)
  v ← lift (found_volume found)
  fail_if (is_used v) volume_in_use
  wrap registry_failed (unregister_volume w name path)
  remove_dir removed again now v

-- One directory of a base directory: its container.json and its pid file.
pub record Entry : Type 0 where
  pub file : File Container
  pub pid : TextFile

module _ (running : ℤ → Bool) where
  abbrev pub is_running : Result Fault Text → Bool
  is_running (err e) = false
  is_running (ok text) = let n = atoi (trim_space text) in n.is_ok && running n.value

  abbrev pub mounts : Text → Entry → Bool
  mounts host_path d = elim (read d.file) [
    | err e ↦ false
    | ok c ↦ is_running (read_text d.pid) && any (λ v. v.host_path == host_path) c.volumes
  ]

  -- The loop over the directories of both base directories.
  unfoldable pub is_volume_in_use : Text → List Entry → Bool
  unfolding read read_text atoi trim_space
  is_volume_in_use host_path [] = false
  is_volume_in_use host_path (d ∷ dirs) =
      let rest = is_volume_in_use host_path dirs in if mounts host_path d then true else rest

  -- The host path of the first volume in use is the error.
  unfoldable pub check_volumes : List Entry → List Mount → Result Text Done
  unfolding is_volume_in_use
  check_volumes dirs [] = ok tt
  check_volumes dirs (v ∷ vs) =
      let rest = check_volumes dirs vs in
      if is_volume_in_use v.host_path dirs then err v.host_path else rest
