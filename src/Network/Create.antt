-- ===== src/Network/Create.antt =====
-- network/methods.go, EnsureDefaultNetwork of network/manager.go, restoreNetwork of network/utils.go,
-- setupNetworkIPTables of network/iptables.go and RestoreNetworks of network/config.go.
pub mod Fresh
pub mod Main
pub mod Examples
use zylo.Prelude.{
  Bool, true, false, not, ◌&&◌, ◌||◌, Option, none, some, List, [], ◌∷◌, ◌++◌, Result, ok, err,
  if◌then◌else◌,
}
use zylo.Prelude.Actions.{Act, Done, pure, fail, fail_if, lift, wrap, gets, ignore, ◌>>=◌, ◌>>◌}
use zylo.Text.{Text, ◌==◌, codes}
use zylo.Disk.{Fault, Write}
use zylo.Paths.{main_net_name}
use zylo.Network
use zylo.Network.{Net, NetState, save_config, get_network, network_exists, readable_networks}
use zylo.Network.Subnet.{Outside, find_free_subnet}

pub data Error : Type 0 where
  network_failed : Network.Error → Error
  save_failed : Fault → Error
  link_failed main_missing veth_failed no_iptables dns_failed : Error

-- What the kernel says of the links of one network, whether the manager has iptables, and whether the
-- server of names is heard of within five seconds.
pub record Links : Type 0 where
  pub bridge : Bool
  pub bridge_added : Bool
  pub main : Bool
  pub veth : Bool
  pub veth_added : Bool
  pub iptables : Bool
  pub dns : Bool

-- The pair of links to the bridge of the main network.
abbrev join_main : Links → Result Error Done
join_main k =
    if not k.main
    then err main_missing
    else if not k.veth && not k.veth_added
    then err veth_failed
    else ok tt

abbrev setup_network_iptables : Links → Result Error Done
setup_network_iptables k = if k.iptables then ok tt else err no_iptables

abbrev after_join : Result Error Done → Result Error Done → Result Error Done
after_join (ok u) r = r
after_join (err e) r = err e

-- The address and the state of the bridge, and the rules, are set without a look at the error.
unfoldable pub restore_network : Links → Net → Result Error Done
restore_network k n =
    if not k.bridge && not k.bridge_added
    then err link_failed
    else after_join (if n.name == main_net_name then ok tt else join_main k)
        (setup_network_iptables k)

abbrev pub created_net : Text → Text → Text × Text → Net
created_net name id (subnet, gateway) = record {
  name = name;
  id = id;
  kind = [];
  driver = [];
  created = codes "0001-01-01T00:00:00Z";
  subnet = subnet;
  gateway = gateway;
  ip_range = [];
  containers = [];
  options = [];
  labels = [];
  internal = false;
}

-- `id` is what generateID gives, from the time. The server of names answers from the record in
-- memory, whose map of containers stays nil.
unfoldable pub create_network : Links → Outside → Write → Text → Text → Act NetState Error Net
unfolding find_free_subnet save_config restore_network
create_network k o w id name = do
  pair ← wrap network_failed (find_free_subnet o)
  wrap save_failed (save_config w (created_net name id pair))
  lift (restore_network k (created_net name id pair))
  fail_if (not k.dns) dns_failed
  pure (created_net name id pair)

unfoldable pub create_default_network : Links → Outside → Write → Text → Act NetState Error Done
unfolding create_network
create_default_network k o w id s =
    if network_exists main_net_name s
    then (ok tt, s)
    else ignore_net (create_network k o w id main_net_name) s
  where
    ignore_net : Act NetState Error Net → Act NetState Error Done
    ignore_net m t = (elim (m t).0 [ ok n ↦ ok tt | err e ↦ err e ], (m t).1)

abbrev pub default_net : Text → Text → Text × Text → Net
default_net id now pair = record (created_net main_net_name id pair) {
  kind = codes "bridge";
  driver = codes "bridge";
  created = now;
}

abbrev make_default : Links → Outside → Write → Text → Text → Act NetState Error Done
make_default k o w id now = do
  pair ← wrap network_failed (find_free_subnet o)
  wrap save_failed (save_config w (default_net id now pair))
  lift (restore_network k (default_net id now pair))

abbrev restore_default : Links → Act NetState Error Done
restore_default k = do
  config ← wrap network_failed (get_network main_net_name)
  if k.bridge then pure tt else lift (restore_network k config)

unfoldable pub ensure_default_network :
    Links → Outside → Write → Text → Text → Act NetState Error Done
unfolding find_free_subnet save_config restore_network get_network network_exists
ensure_default_network k o w id now s =
    if network_exists main_net_name s then restore_default k s else make_default k o w id now s
