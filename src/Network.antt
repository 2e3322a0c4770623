-- ===== src/Network.antt =====
-- network/types.go and network/config.go: the networks, one JSON file for each, and the state that
-- the network package and the hosts package share.
pub mod Laws
pub mod Ipam
pub mod Subnet
pub mod Create
pub mod Nat
pub mod Restore
use zylo.Prelude.{
  Bool, true, false, Option, none, some, List, [], ◌∷◌, Result, ok, err, if◌then◌else◌,
}
use zylo.Prelude.Actions.{Act, Done, pure, fail, wrap, ◌>>=◌, ◌>>◌}
use zylo.Text.{Text}
use zylo.Disk.{File, Fault, Write, TextFile, not_exist, absent, read, write, missing}
use zylo.Table.{Table, get, put}

pub record ContainerNetInfo : Type 0 where
  pub id : Text
  pub name : Text
  pub ip : Text

-- `DNS` is left out: the tag `json:"-"` keeps it off the disk.
pub record Net : Type 0 where
  pub name : Text
  pub id : Text
  pub kind : Text
  pub driver : Text
  pub created : Text
  pub subnet : Text
  pub gateway : Text
  pub ip_range : Text
  pub containers : Table ContainerNetInfo
  pub options : Table Text
  pub labels : Table Text
  pub internal : Bool

-- The directory of networks, by the name before `.json`, and the hosts file of each network.
pub record NetState : Type 0 where
  pub networks : Table (File Net)
  pub hosts : Table TextFile

pub data Error : Type 0 where
  network_not_found invalid_gateway no_free_ip no_free_subnet container_not_found : Error
  load_failed save_failed : Fault → Error

abbrev pub Network : Type 0 → Type 0
Network A = Act NetState Error A

unfoldable pub file_of : Text → NetState → File Net
file_of name s = elim (get name s.networks) [ none ↦ absent | some f ↦ f ]

unfoldable pub hosts_of : Text → NetState → TextFile
hosts_of name s = elim (get name s.hosts) [ none ↦ missing | some f ↦ f ]

-- An action on the hosts file of one network.
unfoldable pub on_hosts {κ} : {E : Type κ} {A : Type 0} → Text → Act TextFile E A → Act NetState E A
on_hosts name m s = let (r, f) = m (hosts_of name s) in (r, record s { hosts = put name f s.hosts })

unfoldable pub save_config : Write → Net → Act NetState Fault Done
unfolding write
save_config w config s =
    let (r, f) = write w config (file_of config.name s) in
    (r, record s { networks = put config.name f s.networks })

abbrev pub network_error : Fault → Error
network_error not_exist = network_not_found
network_error f = load_failed f

unfoldable pub get_network : Text → Network Net
unfolding read
get_network name s = wrap network_error (λ t. (read (file_of name t), t)) s

-- os.Stat of the file
unfoldable pub network_exists : Text → NetState → Bool
network_exists name s = elim (file_of name s) [ absent ↦ false | _ ↦ true ]

abbrev readable : File Net → List Net → List Net
readable f rest = elim (read f) [ ok config ↦ config ∷ rest | err e ↦ rest ]

unfoldable pub readable_networks : Table (File Net) → List Net
unfolding read
readable_networks [] = []
readable_networks ((name, f) ∷ files) = readable f (readable_networks files)

-- The files that cannot be read or decoded are passed over.
unfoldable pub list_networks : Network (List Net)
unfolding readable_networks
list_networks s = (ok (readable_networks s.networks), s)
