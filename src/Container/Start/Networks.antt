-- ===== src/Container/Start/Networks.antt =====
-- internal/container/network.go and state.go, seen from the networks.
use zylo.Prelude.{arith, ◌≡◌, refl, Bool, true, false, Option, none, some, Result, ok, err, ℕ}
use zylo.Prelude.Actions.{fail_if, bind_inv}
use zylo.Text.{Text}
use zylo.Network
use zylo.Network.{Net, NetState, get_network}
use zylo.Network.Laws.{get_network_same}
use zylo.Network.Ipam.{allocate_ip}
use zylo.Container.{Container}
use zylo.Container.Start.{
  Running, StartFate, StartError, network_of, put_address, take_address, join_bridge, setup_network,
  persist_container_state,
}
use zylo.Container.Start.Attach.{configure, parse_cidr, attach_network}

-- The networks are these.
abbrev pub Nets : NetState → Running → Type 0
Nets net s = s.runtime.net ≡ net

fail_if-Nets :
    (b : Bool) (e : StartError) (net : NetState) (s : Running)
    → Nets net s
    → Nets net (fail_if b e s).1
fail_if-Nets true e net s h = h
fail_if-Nets false e net s h = h

-- The networks after the allocation that SetupNetwork makes.
abbrev pub allocated : StartFate → Container → NetState → NetState
allocated w c net = (allocate_ip w.ipam (network_of c) c.id c.name net).1

put_address-Nets :
    (r : Result Network.Error Text) (net : NetState) (s : Running)
    → Nets net s
    → Nets net (put_address r s).1
put_address-Nets (ok ip) net s h = h
put_address-Nets (err e) net s h = h

join_bridge-Nets :
    (w : StartFate) (c : Container) (net : NetState) (s : Running)
    → Nets net s
    → Nets net (join_bridge w c s).1
unfolding join_bridge
join_bridge-Nets w c net s h = ground arith

-- Once the bridge is there and up, SetupNetwork leaves the networks that the allocation leaves.
pub setup_network-Nets :
    (w : StartFate) (s : Running)
    → w.manager ≡ true
    → w.bridge ≡ true
    → w.is_up ≡ true
    → Nets (allocated w s.container s.runtime.net) (setup_network w s.container s).1
unfolding setup_network
setup_network-Nets w s hm hb hu =
    let c = s.container in
    let net = allocated w c s.runtime.net in
    let taken : Nets net (take_address w s).1 =
      put_address-Nets (allocate_ip w.ipam (network_of c) c.id c.name s.runtime.net).0 net
        (record s { runtime = record s.runtime { net = net } }) refl in
    rw (hm, hb, hu)
      (bind_inv (Nets net) (take_address w) (λ _. join_bridge w c) s taken
        λ _ _. join_bridge-Nets w c net (take_address w s).1 taken)

pub persist-Nets :
    (w : StartFate) (net : NetState) (s : Running)
    → Nets net s
    → Nets net (persist_container_state w s).1
unfolding persist_container_state
persist-Nets w net s h = ground arith

configure-Nets :
    (w : StartFate) (c : Container) (gateway : Text) (mask : Option ℕ) (net : NetState)
    (s : Running)
    → Nets net s
    → Nets net (configure w c gateway mask s).1
configure-Nets w c gateway none net s h = h
configure-Nets w c gateway (some mask) net s h = ground arith

pub attach_network-Nets :
    (w : StartFate) (c : Container) (net : NetState) (s : Running)
    → Nets net s
    → Nets net (attach_network w c s).1
unfolding attach_network
attach_network-Nets w c net s h =
    let configured : (config : Net) (t : Running)
        → Nets net t
        → Nets net (configure w c config.gateway (parse_cidr config.subnet) t).1 =
      λ config t found. configure-Nets w c config.gateway (parse_cidr config.subnet) net t found in
    ground (arith, get_network_same (network_of c) s.runtime.net, configured)
