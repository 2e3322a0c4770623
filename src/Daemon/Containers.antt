-- ===== src/Daemon/Containers.antt =====
-- cleanRuntimeContainers, cleanLibContainers and cleanContainerResources of daemon/cleanup.go: the
-- containers that a former daemon left.
pub mod Volumes
pub mod Living
pub mod Examples
use zylo.Prelude.{
  ℕ, suc, Bool, true, false, not, ◌&&◌, Option, none, some, List, [], ◌∷◌, ◌++◌, Result, ok, err,
  if◌then◌else◌,
}
use zylo.Prelude.Actions.{Act, Done}
use zylo.Text.{Text, ◌==◌}
use zylo.Disk.{File, Fault, TextFile, Write, read_text}
use zylo.Table.{Table, get, remove}
use zylo.Integer.{ℤ, pos, int_eq, atoi}
use zylo.Name.{unregister_name}
use zylo.Volume
use zylo.Volume.{Volume, Registry, list_volumes, mark_volume_unused}
use zylo.Network.Ipam
use zylo.Daemon.{release_container_from_all_networks}
use zylo.Container.{Container, Runtime}

-- What a cleaning meets outside: the files of the processes, the processes that a signal reaches,
-- the writes, and what os.RemoveAll leaves of each directory of the two base directories.
pub record CleanFate : Type 0 where
  pub pids : Text → TextFile
  pub running : ℤ → Bool
  pub volume : Text → ℕ → Write
  pub name : Text → Write
  pub net : Text → Text → Ipam.Fate
  pub left : Text → Option (File Container)
  pub lib_left : Text → Bool

-- MarkVolumeUnused at each of the volumes, from the n-th on.
unfoldable pub release_volumes :
    (ℕ → Write) → Text → ℕ → List Volume → File Registry → File Registry
unfolding mark_volume_unused
release_volumes w hash n [] s = s
release_volumes w hash n (v ∷ vs) s =
    release_volumes w hash (suc n) vs (mark_volume_unused (w n) v.name v.path hash s).1

abbrev pub listed : Result Volume.Error Registry → List Volume
listed (ok vs) = vs
listed (err e) = []

-- The mounts and the links of the container go too; nothing here depends on them.
unfoldable pub clean_container_resources : CleanFate → Text → Runtime → Runtime
unfolding release_volumes list_volumes unregister_name
clean_container_resources w hash s =
    let vs = listed (list_volumes s.volumes).0 in
    record s {
      volumes = release_volumes (w.volume hash) hash 0 vs s.volumes;
      names = (unregister_name (w.name hash) hash s.names).1;
    }

abbrev pub lives_as : (ℤ → Bool) → Result Fault Text → Bool
lives_as running (err e) = false
lives_as running (ok text) = let n = (atoi text).value in not (int_eq n (pos 0)) && running n

abbrev pub is_live : CleanFate → Text → Bool
is_live w hash = lives_as w.running (read_text (w.pids hash))

abbrev pub add_left :
    Text → Option (File Container) → Table (File Container) → Table (File Container)
add_left hash none dirs = dirs
add_left hash (some f) dirs = (hash, f) ∷ dirs

abbrev drop_lib : CleanFate → Text → List Text → List Text
drop_lib w hash [] = []
drop_lib w hash (h ∷ hs) =
    let rest = drop_lib w hash hs in if h == hash && not (w.lib_left hash) then rest else h ∷ rest

-- The loop of cleanRuntimeContainers over the directories: those that stay, the directories of `lib`
-- that stay, and the state.
unfoldable pub clean_runtime_containers :
    CleanFate
    → Table (File Container)
    → List Text
    → Runtime
    → Table (File Container) × List Text × Runtime
unfolding read_text atoi clean_container_resources
clean_runtime_containers w [] lib s = ([], lib, s)
clean_runtime_containers w ((hash, f) ∷ dirs) lib s =
    if is_live w hash
    then (let (rest, hs, t) = clean_runtime_containers w dirs lib s in ((hash, f) ∷ rest, hs, t))
    else (let (rest, hs, t) =
          clean_runtime_containers w dirs (drop_lib w hash lib)
            (clean_container_resources w hash s) in
        (add_left hash (w.left hash) rest, hs, t))

abbrev is_missing : Option (File Container) → Bool
is_missing none = true
is_missing (some f) = false

abbrev release_all : CleanFate → Text → Runtime → Runtime
release_all w hash s =
    clean_container_resources w hash
      (record s { net = (release_container_from_all_networks (w.net hash) hash s.net) })

-- The loop of cleanLibContainers: a directory without one of the same name among the
-- configurations is taken away.
unfoldable pub clean_lib_containers : CleanFate → List Text → Runtime → List Text × Runtime
unfolding clean_container_resources release_container_from_all_networks
clean_lib_containers w [] s = ([], s)
clean_lib_containers w (hash ∷ lib) s =
    if is_missing (get hash s.containers)
    then (let (rest, t) = clean_lib_containers w lib (release_all w hash s) in
        (if w.lib_left hash then hash ∷ rest else rest, t))
    else (let (rest, t) = clean_lib_containers w lib s in (hash ∷ rest, t))
