-- ===== src/Container.antt =====
-- internal/container: the containers that run, and the state that the daemon's packages share.
pub mod Ports
pub mod Find
pub mod Listing
pub mod Down
pub mod Cleanup
pub mod Lifecycle
pub mod Volumes
pub mod Setup
pub mod Init
pub mod Start
pub mod Up
mod Examples
use zylo.Prelude.{ℕ, Bool, Option, List, [], ◌∷◌, Result, ok, err}
use zylo.Prelude.Actions.{Act}
use zylo.Text.{Text}
use zylo.Disk.{File, Fault, read}
use zylo.Table.{Table}
use zylo.Zylofile.{Mount}
use zylo.Name
use zylo.Volume
use zylo.Network
use zylo.Network.{NetState}

-- `Container` of container.go, less the fields that the tag `json:"-"` keeps off the disk.
pub record Container : Type 0 where
  pub id : Text
  pub name : Text
  pub rootfs : Text
  pub image : Text
  pub copy_dir : Text
  pub workdir : Text
  pub volumes : List Mount
  pub network : Text
  pub env : Table Text
  pub cmd : List Text
  pub cmd_path : Text
  pub user_tty : Text
  pub ports : List Text
  pub ip : Text
  pub pid : ℕ

-- A rule of the chain ZYLO that forwards a port of the host.
pub record Rule : Type 0 where
  pub host_port : Text
  pub container_ip : Text
  pub container_port : Text

-- `containers` is the directory /var/run/zylo/containers: the file container.json of each container
-- that has a directory there.
pub record Runtime : Type 0 where
  pub containers : Table (File Container)
  pub names : File Name.NameRegistry
  pub volumes : File Volume.Registry
  pub net : NetState
  pub rules : List Rule

pub data Error : Type 0 where
  hash_required still_waiting remove_failed no_containers not_found none_match many_match : Error
  load_failed : Fault → Error
  bad_port port_in_use port_taken : Error

abbrev pub Daemon : Type 0 → Type 0
Daemon A = Act Runtime Error A

abbrev readable : File Container → List Container → List Container
readable f rest = elim (read f) [ ok c ↦ c ∷ rest | err e ↦ rest ]

unfoldable pub readable_containers : Table (File Container) → List Container
unfolding read
readable_containers [] = []
readable_containers ((hash, f) ∷ dirs) = readable f (readable_containers dirs)

-- The directories whose container.json cannot be read or decoded are passed over.
unfoldable pub list_containers : Runtime → List Container
unfolding readable_containers
list_containers s = readable_containers s.containers
