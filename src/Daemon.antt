-- ===== src/Daemon.antt =====
-- daemon/cleanup.go: what the daemon takes off the disk when it starts, and network/sync.go, which
-- writes the hosts files anew.
pub mod Networks
pub mod Sync
pub mod Release
pub mod Containers
pub mod Router
pub mod Startup
pub mod Health
mod Examples
use zylo.Prelude.{
  ℕ, suc, Bool, true, false, not, ◌&&◌, ◌||◌, Option, none, some, List, [], ◌∷◌, Result, ok, err,
  map, if◌then◌else◌,
}
use zylo.Prelude.Actions.{Act, Done, modify, ◌>>=◌, ◌>>◌}
use zylo.Text.{Text, ◌==◌}
use zylo.Disk.{File, Fault, TextWrite, read}
use zylo.Table.{Table, get}
use zylo.Paths.{main_net_name}
use zylo.Hosts
use zylo.Hosts.{ContainerInfo, new_hosts_manager, update_all_containers}
use zylo.Network.{
  Net, NetState, ContainerNetInfo, Network, Error, on_hosts, get_network, list_networks,
}
use zylo.Network.Ipam
use zylo.Network.Ipam.{release_ip}

-- A network with no container is taken away, unless it is the daemon's own.
abbrev pub is_unused : Net → Bool
is_unused config = has_none config.containers && not (config.name == main_net_name)
  where
    has_none : Table ContainerNetInfo → Bool
    has_none [] = true
    has_none (c ∷ cs) = false

-- `removed` says where os.Remove succeeds.
module _ (removed : Text → Bool) where
  -- One file, with what comes of the files behind it: `cfg.Name` of a file that cannot be read or
  -- decoded is a field of a nil pointer, which ends the daemon.
  abbrev pub clean_file :
      Text → File Net → Result Fault Net → Option (Table (File Net)) → Option (Table (File Net))
  clean_file name f (err e) rest = none
  clean_file name f (ok config) none = none
  clean_file name f (ok config) (some files) =
      if is_unused config && removed name then some files else some ((name, f) ∷ files)

  -- cleanNetworks, with a manager: the files it leaves, or nothing where it panics.
  unfoldable pub clean_networks : Table (File Net) → Option (Table (File Net))
  unfolding read
  clean_networks [] = some []
  clean_networks ((name, f) ∷ files) = clean_file name f (read f) (clean_networks files)

abbrev pub has_entry : Text → Net → Bool
has_entry id config = elim (get id config.containers) [ none ↦ false | some c ↦ true ]

abbrev release_if : Ipam.Fate → Text → Text → Result Error Net → NetState → NetState
release_if w id name (err e) s = s
release_if w id name (ok config) s = if has_entry id config then (release_ip w name id s).1 else s

unfoldable pub release_from : (Text → Ipam.Fate) → Text → List Net → NetState → NetState
release_from w id [] s = s
release_from w id (n ∷ ns) s =
    release_from w id ns (release_if (w n.name) id n.name (get_network n.name s).0 s)

unfoldable pub release_container_from_all_networks : (Text → Ipam.Fate) → Text → NetState → NetState
unfolding list_networks release_from
release_container_from_all_networks w id s = elim (list_networks s).0 [
  | ok ns ↦ release_from w id ns s
  | err e ↦ s
]

-- The two writes of one hosts file.
pub record SyncFate : Type 0 where
  pub made : Bool
  pub base : TextWrite
  pub all : TextWrite

abbrev pub info_of : Text × ContainerNetInfo → ContainerInfo
info_of (id, c) = record { id = c.id; name = c.name; ip = c.ip }

-- A network whose directory of hosts files or base file cannot be made is passed over, and a write
-- that fails is only warned of.
abbrev pub sync_hosts : SyncFate → Text → Net → Act NetState Hosts.Error Done
sync_hosts w name config = on_hosts name (do
  new_hosts_manager w.made w.base
  update_all_containers w.all (map info_of config.containers))

-- The configuration is read again under the name that stands in it, and written under the name of
-- the listed network.
abbrev pub sync_network : SyncFate → Text → Result Error Net → NetState → NetState
sync_network w name (err e) s = s
sync_network w name (ok config) s = (sync_hosts w name config s).1

unfoldable pub sync_each : (Text → SyncFate) → List Net → NetState → NetState
sync_each w [] s = s
sync_each w (n ∷ ns) s = sync_each w ns (sync_network (w n.name) n.name (get_network n.name s).0 s)

unfoldable pub sync_all_hosts : (Text → SyncFate) → Network Done
unfolding list_networks sync_each
sync_all_hosts w = do networks ← list_networks; modify (sync_each w networks)
