-- ===== src/Container/Start.antt =====
-- SetupNetwork and AttachNetwork of internal/container/network.go, AddPortForward of
-- network/iptables.go, and internal/container/state.go.
pub mod Attach
pub mod Forward
pub mod Networks
pub mod Run
pub mod Examples
use zylo.Prelude.{
  ℕ, zero, suc, ◌-◌, Bool, true, false, not, ◌&&◌, Option, none, some, List, [], ◌∷◌, ◌++◌, Result,
  ok, err, leb, ltb, length, if◌then◌else◌,
}
use zylo.Prelude.Actions.{Act, Done, pure, fail, fail_if, lift, gets, modify, wrap, ◌>>=◌, ◌>>◌}
use zylo.Text.{Text, codes, is_empty, split, cut, decimal}
use zylo.Text.Decimal.{value}
use zylo.Disk.{File, Fault, Write, absent, write}
use zylo.Table.{get, put}
use zylo.Paths.{main_net_name}
use zylo.Integer.{atoi, itoa}
use zylo.Network
use zylo.Network.{Net, NetState, get_network}
use zylo.Network.Ipam
use zylo.Network.Ipam.{allocate_ip}
use zylo.Container.{Container, Rule, Runtime}
use zylo.Container.Down.{rule_of, container_file}

-- A container on its way: what the daemon keeps, and the container in memory, whose address and
-- process are not known at first.
pub record Running : Type 0 where
  pub runtime : Runtime
  pub container : Container

-- What the system answers: whether the manager of networks is there, the link of the bridge, which
-- commands succeed, the rules that iptables takes, the processes that a signal reaches before and
-- after the state is written, and the writes.
pub record StartFate : Type 0 where
  pub manager : Bool
  pub bridge : Bool
  pub is_up : Bool
  pub set_up : Bool
  pub ipam : Ipam.Fate
  pub command : List Text → Bool
  pub forward : ℕ → Bool
  pub alive : ℕ → Bool
  pub alive_again : ℕ → Bool
  pub made : Bool
  pub json : Write
  pub pid_file : Bool

pub data StartError : Type 0 where
  no_manager bridge_not_found bridge_down no_veth not_attached veth_down forward_failed : StartError
  is_dead no_address bad_subnet no_dir no_pid_file : StartError
  not_moved no_addr eth_down lo_down no_route not_shown : StartError
  ip_failed network_failed : Network.Error → StartError
  json_failed : Fault → StartError

abbrev pub Starting : Type 0 → Type 0
Starting A = Act Running StartError A

abbrev pub network_of : Container → Text
network_of c = if is_empty c.network then main_net_name else c.network

drop : ℕ → Text → Text
drop zero s = s
drop (suc n) [] = []
drop (suc n) (c ∷ s) = drop n s

-- c.ID[len(c.ID)-8:]; the identifiers are never shorter.
unfoldable pub suffix : Text → Text
unfolding drop
suffix id = drop (length id - 8) id

abbrev pub host_veth : Container → Text
host_veth c = b'v' ∷ suffix c.id

abbrev pub peer_name : Container → Text
peer_name c = b'e' ∷ suffix c.id

abbrev pub add_veth : Container → List Text
add_veth c =
    codes "ip"
    ∷ codes "link"
    ∷ codes "add"
    ∷ host_veth c
    ∷ codes "type"
    ∷ codes "veth"
    ∷ codes "peer"
    ∷ codes "name"
    ∷ peer_name c
    ∷ []

abbrev pub attach_veth : Container → List Text
attach_veth c =
    codes "ip" ∷ codes "link" ∷ codes "set" ∷ host_veth c ∷ codes "master" ∷ network_of c ∷ []

abbrev pub veth_up : Container → List Text
veth_up c = codes "ip" ∷ codes "link" ∷ codes "set" ∷ host_veth c ∷ codes "up" ∷ []

abbrev set_ip : Text → Running → Running
set_ip ip s = record s { container = record s.container { ip = ip } }

abbrev pub set_pid : ℕ → Running → Running
set_pid pid s = record s { container = record s.container { pid = pid } }

abbrev pub put_address : Result Network.Error Text → Starting Done
put_address (ok ip) s = (ok tt, set_ip ip s)
put_address (err e) s = (err (ip_failed e), s)

-- AllocateIP, and the address put into the container.
abbrev pub take_address : StartFate → Starting Done
take_address w s =
    let c = s.container in
    let (r, net) = allocate_ip w.ipam (network_of c) c.id c.name s.runtime.net in
    put_address r (record s { runtime = record s.runtime { net = net } })

-- PortForward: the rule goes behind the others.
abbrev pub port_forward : Bool → Rule → List Rule → Option (List Rule)
port_forward true q rules = some (rules ++ q ∷ [])
port_forward false q rules = none

abbrev pub forward_port : Bool → Text → List Text → List Rule → Option (List Rule)
forward_port go ip (host ∷ port ∷ []) rules = port_forward go (rule_of true ip host port) rules
forward_port go ip _ rules = some rules

-- The loop over the ports, from the n-th on: whether all were taken, and the rules then.
unfoldable pub forward_ports : (ℕ → Bool) → Text → ℕ → List Text → List Rule → Bool × List Rule
forward_ports go ip n [] rules = (true, rules)
forward_ports go ip n (p ∷ ps) rules = elim (forward_port (go n) ip (split b':' p) rules) [
  | none ↦ (false, rules)
  | some more ↦ forward_ports go ip (suc n) ps more
]

abbrev pub forward_all : StartFate → Starting Done
forward_all w s =
    let (good, rules) =
      forward_ports w.forward s.container.ip 0 s.container.ports s.runtime.rules in
    (
      if good then ok tt else err forward_failed,
      record s { runtime = record s.runtime { rules = rules } },
    )

-- The part of SetupNetwork behind the allocation. The links of the same names are deleted first.
unfoldable pub join_bridge : StartFate → Container → Starting Done
unfolding forward_ports
join_bridge w c = do
  fail_if (not (w.command (add_veth c))) no_veth
  fail_if (not (w.command (attach_veth c))) not_attached
  fail_if (not (w.command (veth_up c))) veth_down
  forward_all w

-- `c` is the container, as far as it does not change.
unfoldable pub setup_network : StartFate → Container → Starting Done
unfolding allocate_ip join_bridge
setup_network w c = do
  fail_if (not w.manager) no_manager
  fail_if (not w.bridge) bridge_not_found
  fail_if (not w.is_up && not w.set_up) bridge_down
  take_address w
  join_bridge w c

abbrev write_json : StartFate → Starting Done
write_json w s =
    let id = s.container.id in
    let (r, f) = write w.json s.container (container_file id s.runtime) in
    (
      elim r [ ok u ↦ ok tt | err e ↦ err (json_failed e) ],
      record s { runtime = record s.runtime { containers = put id f s.runtime.containers } },
    )

abbrev make_dir : Starting Done
make_dir s =
    let id = s.container.id in
    let dirs = put id (container_file id s.runtime) s.runtime.containers in
    (ok tt, record s { runtime = record s.runtime { containers = dirs } })

-- `persistContainerState`. The file of the process stands beside container.json; nothing here reads
-- it, and it is left out.
unfoldable pub persist_container_state : StartFate → Starting Done
unfolding write
persist_container_state w = do
  fail_if (not w.made) no_dir
  make_dir
  write_json w
  fail_if (not w.pid_file) no_pid_file
