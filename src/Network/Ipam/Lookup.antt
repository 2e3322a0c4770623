-- ===== src/Network/Ipam/Lookup.antt =====
-- What an allocation gives, and what a lookup finds after it and after a release.
use zylo.Prelude.{
  ◌<◌, ◌≡◌, refl, ◌∙◌, ap, Option, none, some, ok, err, arith, length, if◌then◌else◌, Bool-cases,
  inl, inr,
}
use zylo.Text.{Text, ◌==◌, is_empty, split}
use zylo.Text.Equality.{==_refl}
use zylo.Disk.{holds, written}
use zylo.Table.{get, remove}
use zylo.Table.Laws.{get-put, get-remove}
use zylo.Network.{Net, ContainerNetInfo, NetState, container_not_found, file_of, save_config}
use zylo.Network.Laws.{save_config-ok, save_config-holds, file_of-on_hosts, get_network-holds}
use zylo.Network.Ipam.{
  Fate, base_of, free_ip, rounds, with_container, add_to_hosts, take_ip, allocate_ip,
  get_container_ip, release_ip, drop_hosts, remove_from_hosts,
}
use zylo.Network.Ipam.Free.{IsLowest, free_ip-IsLowest, free_ip_total}

file_of-add_to_hosts :
    (w : Fate) (network ip name other : Text) (s : NetState)
    → file_of other (add_to_hosts w network ip name s).1 ≡ file_of other s
unfolding add_to_hosts
file_of-add_to_hosts w network ip name other s = file_of-on_hosts network other _ s

-- With a write that succeeds, the address is taken, and the file holds it.
take_ip_lem :
    (w : Fate) (network id name : Text) (config : Net) (ip : Text) (s : NetState)
    → w.config ≡ written
    → config.name ≡ network
    → ((take_ip w network id name config ip s).0 ≡ ok ip)
      × (file_of network (take_ip w network id name config ip s).1
          ≡ holds (with_container id name ip config))
unfolding take_ip
take_ip_lem w network id name config ip s hw hn =
    let config' = with_container id name ip config in
    let saved = (save_config w.config config' s).1 in
    ground (
      arith,
      save_config-ok w.config config' s hw,
      save_config-holds w.config config' network s hw hn,
      file_of-add_to_hosts w network ip name network saved,
    )

-- What an allocation comes to once the network is read and an address is found.
allocate_ip-take_ip :
    (w : Fate) (network id name base : Text) (s : NetState) (config : Net) (ip : Text)
    → file_of network s ≡ holds config
    → base_of (split b'.' config.gateway) ≡ ok base
    → free_ip rounds 2 base config.containers ≡ ok ip
    → allocate_ip w network id name s ≡ take_ip w network id name config ip s
unfolding allocate_ip
allocate_ip-take_ip w network id name base s config ip hf hb found =
    rw (get_network-holds network s hf, hb, found)

-- A network whose file holds its configuration, with a gateway of four parts and fewer than 253
-- containers, has a free address: where the write of the configuration goes through, the allocation
-- succeeds, with the address of the lowest number from 2 to 254 that no container of the network has,
-- and the network's file then has the container with that address.
pub allocate_ip_total :
    (w : Fate) (network id name base : Text) (s : NetState) (config : Net)
    → w.config ≡ written
    → file_of network s ≡ holds config
    → config.name ≡ network
    → base_of (split b'.' config.gateway) ≡ ok base
    → length config.containers < 253
    → (ip : Text) × IsLowest 253 2 base config.containers ip
      × ((allocate_ip w network id name s).0 ≡ ok ip)
      × (file_of network (allocate_ip w network id name s).1
          ≡ holds (with_container id name ip config))
allocate_ip_total w network id name base s config hw hf hn hb few =
    let (ip, found) = free_ip_total 253 2 base config.containers few in
    let taken = take_ip_lem w network id name config ip s hw hn in
    let same = allocate_ip-take_ip w network id name base s config ip hf hb found in
    (
      ip,
      free_ip-IsLowest 253 2 base config.containers ip found,
      ap (λ r. r.0) same ∙ taken.0,
      ap (λ r. file_of network r.1) same ∙ taken.1,
    )

-- An allocation that succeeded found its address in the network's base.
allocate_ip-ok :
    (w : Fate) (network id name : Text) (s : NetState) (config : Net) (ip : Text)
    → file_of network s ≡ holds config
    → (allocate_ip w network id name s).0 ≡ ok ip
    → allocate_ip w network id name s ≡ take_ip w network id name config ip s
unfolding allocate_ip take_ip
allocate_ip-ok w network id name s config ip hf ha = ground (arith, get_network-holds network s hf)

pub get_container_ip_lem :
    (network id : Text) (s : NetState) (config : Net)
    → file_of network s ≡ holds config
    → (get_container_ip network id s).0
      ≡ (elim (get id config.containers) [ none ↦ err container_not_found | some c ↦ ok c.ip ])
unfolding get_container_ip
get_container_ip_lem network id s config hf = ground (arith, get_network-holds network s hf)

-- Such an allocation leaves the container with its address in the network's file, where the write
-- goes through.
pub allocate_ip-holds :
    (w : Fate) (network id name : Text) (s : NetState) (config : Net) {ip : Text}
    → w.config ≡ written
    → file_of network s ≡ holds config
    → config.name ≡ network
    → (allocate_ip w network id name s).0 ≡ ok ip
    → file_of network (allocate_ip w network id name s).1 ≡ holds (with_container id name ip config)
allocate_ip-holds w network id name s config {ip} hw hf hn ha =
    ap (λ r. file_of network r.1) (allocate_ip-ok w network id name s config ip hf ha)
    ∙ (take_ip_lem w network id name config ip s hw hn).1

-- Where the network's file holds its configuration and the write goes through, the address that an
-- allocation returned is the one that a lookup of the container finds.
get_container_ip-allocate :
    (w : Fate) (network id name : Text) (s : NetState) (config : Net) {ip : Text}
    → w.config ≡ written
    → file_of network s ≡ holds config
    → config.name ≡ network
    → (allocate_ip w network id name s).0 ≡ ok ip
    → (get_container_ip network id (allocate_ip w network id name s).1).0 ≡ ok ip
get_container_ip-allocate w network id name s config {ip} hw hf hn ha =
    let c : ContainerNetInfo = record { id = id; name = name; ip = ip } in
    ground (
      arith,
      get_container_ip_lem network id (allocate_ip w network id name s).1
          (with_container id name ip config)
          (allocate_ip-holds w network id name s config hw hf hn ha),
      get-put id id c config.containers,
      ==_refl id,
    )

drop_hosts_lem :
    (w : Fate) (network name : Text) (o : Option ContainerNetInfo) (s : NetState)
    → ((drop_hosts w network o s).0 ≡ ok tt)
      × (file_of name (drop_hosts w network o s).1 ≡ file_of name s)
unfolding drop_hosts remove_from_hosts
drop_hosts_lem w network name none s = (refl, refl)
drop_hosts_lem w network name (some c) s = elim (Bool-cases (is_empty c.name)) [
  | inl e ↦ rw e (refl, refl)
  | inr e ↦ rw e (refl, file_of-on_hosts network name _ s)
]

pub release_ip_lem :
    (w : Fate) (network id : Text) (s : NetState) (config : Net)
    → w.config ≡ written
    → file_of network s ≡ holds config
    → config.name ≡ network
    → ((release_ip w network id s).0 ≡ ok tt)
      × (file_of network (release_ip w network id s).1
          ≡ holds (record config { containers = remove id config.containers }))
unfolding release_ip
release_ip_lem w network id s config hw hf hn =
    let o = get id config.containers in
    let s' = (drop_hosts w network o s).1 in
    let config' : Net = record config { containers = remove id config.containers } in
    ground (
      arith,
      get_network-holds network s hf,
      drop_hosts_lem w network network o s,
      save_config-ok w.config config' s' hw,
      save_config-holds w.config config' network s' hw hn,
    )

-- Where the network's file holds its configuration and the write goes through, a release succeeds;
-- afterwards the container has no address in the network, and every other container has the address
-- that it had.
get_container_ip-release :
    (w : Fate) (network id other : Text) (s : NetState) (config : Net)
    → w.config ≡ written
    → file_of network s ≡ holds config
    → config.name ≡ network
    → ((release_ip w network id s).0 ≡ ok tt)
      × ((get_container_ip network other (release_ip w network id s).1).0
          ≡ (if id == other then err container_not_found else (get_container_ip network other s).0))
get_container_ip-release w network id other s config hw hf hn =
    let released = release_ip_lem w network id s config hw hf hn in
    let config' : Net = record config { containers = remove id config.containers } in
    (
      released.0,
      ground (
        arith,
        get_container_ip_lem network other (release_ip w network id s).1 config' released.1,
        get_container_ip_lem network other s config hf,
        get-remove id other config.containers,
      ),
    )
