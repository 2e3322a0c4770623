-- ===== src/Network/Restore.antt =====
-- getAllNetworks and RestoreNetworks of network/config.go: at the start of the daemon each network
-- but the main one gets its links and a server of names.
pub mod Resolves
mod Examples
use zylo.Prelude.{
  Bool, true, false, Option, none, some, List, [], ◌∷◌, ◌++◌, Result, ok, err, if◌then◌else◌,
}
use zylo.Prelude.Actions.{Done}
use zylo.Text.{Text, ◌==◌, codes}
use zylo.Disk.{File, read}
use zylo.Table.{Table}
use zylo.Paths.{main_net_name}
use zylo.Network.{Net, NetState, ContainerNetInfo}
use zylo.Network.Create
use zylo.Network.Create.{Links, restore_network}

-- The server of names of one network: where it listens, and the containers that its resolver looks
-- through.
pub record Server : Type 0 where
  pub listen : Text
  pub containers : Table ContainerNetInfo

-- What comes of one network: the links, the server, and whether it is heard of within five seconds.
pub record Restored : Type 0 where
  pub name : Text
  pub links : Result Create.Error Done
  pub server : Server
  pub heard : Bool

-- The resolver that RestoreNetworks makes.
unfoldable pub resolve : Table ContainerNetInfo → Text → Option Text
resolve [] name = none
resolve ((id, c) ∷ cs) name = if c.name == name then some c.ip else resolve cs name

unfoldable pub get_all_networks : Table (File Net) → List Net
unfolding read
get_all_networks [] = []
get_all_networks ((name, f) ∷ files) = elim (read f) [
  | ok config ↦ config ∷ get_all_networks files
  | err e ↦ get_all_networks files
]

abbrev pub server_of : Net → Server
server_of n = record { listen = n.gateway ++ codes ":53"; containers = n.containers }

abbrev pub restored : Links → Net → Restored
restored k n = record {
  name = n.name;
  links = restore_network k n;
  server = server_of n;
  heard = k.dns;
}

-- The loop: the main network is passed over, and errors are only printed.
unfoldable pub restore_each : (Text → Links) → List Net → List Restored
restore_each k [] = []
restore_each k (n ∷ ns) =
    let rest = restore_each k ns in
    if n.name == main_net_name then rest else restored (k n.name) n ∷ rest

unfoldable pub restore_networks : (Text → Links) → NetState → List Restored
unfolding get_all_networks restore_each
restore_networks k s = restore_each k (get_all_networks s.networks)
