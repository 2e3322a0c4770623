-- ===== src/Container/Cleanup.antt =====
-- RuntimeCleanup of internal/container/runtime_cleanup.go: the containers whose process is gone are
-- taken off the disk before each request.
pub mod Living
use zylo.Prelude.{
  ℕ, Bool, true, false, not, ◌&&◌, Option, none, some, List, [], ◌∷◌, Result, ok, err, eqb,
  if◌then◌else◌,
}
use zylo.Text.{Text}
use zylo.Disk.{File, Fault, read}
use zylo.Table.{Table}
use zylo.Network.Ipam
use zylo.Container.{Container, Runtime}
use zylo.Container.Down.{Iptables, cleanup_network}

-- What a sweep meets outside: whether signal 0 reaches a process, whether iptables can be set up,
-- the writes of the network for each container, and what os.RemoveAll leaves of each directory:
-- nothing where it succeeds.
pub record Sweep : Type 0 where
  pub running : ℕ → Bool
  pub iptables : Iptables
  pub net : Text → Ipam.Fate
  pub left : Text → Option (File Container)

abbrev pub is_alive : (ℕ → Bool) → Container → Bool
is_alive running c = not (eqb c.pid 0) && running c.pid

abbrev add_left : Text → Option (File Container) → Table (File Container) → Table (File Container)
add_left hash none dirs = dirs
add_left hash (some f) dirs = (hash, f) ∷ dirs

abbrev dir_after :
    Sweep
    → Text
    → File Container
    → Result Fault Container
    → Table (File Container)
    → Table (File Container)
dir_after w hash f (err e) dirs = (hash, f) ∷ dirs
dir_after w hash f (ok c) dirs =
    if is_alive w.running c then (hash, f) ∷ dirs else add_left hash (w.left hash) dirs

abbrev clean_dir : Sweep → Text → Result Fault Container → Runtime → Runtime
clean_dir w hash (err e) s = s
clean_dir w hash (ok c) s =
    if is_alive w.running c then s else (cleanup_network w.iptables (w.net hash) c s).1

-- The loop over the directories of one base directory, and the directories that it leaves.
unfoldable pub sweep_dirs :
    Sweep → Table (File Container) → Runtime → Table (File Container) × Runtime
unfolding read
sweep_dirs w [] s = ([], s)
sweep_dirs w ((hash, f) ∷ dirs) s =
    let (rest, t) = sweep_dirs w dirs (clean_dir w hash (read f) s) in
    (dir_after w hash f (read f) rest, t)

-- Both base directories, first the one of the configurations and then `lib`, the one of the root
-- file systems, where a container.json is read just the same.
unfoldable pub runtime_cleanup :
    Sweep → Sweep → Table (File Container) → Runtime → Table (File Container) × Runtime
runtime_cleanup w v lib s =
    let (dirs, t) = sweep_dirs w s.containers s in sweep_dirs v lib (record t { containers = dirs })
