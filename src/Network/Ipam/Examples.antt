-- ===== src/Network/Ipam/Examples.antt =====
-- The theorems on the addresses at a concrete network, and tests.
use zylo.Prelude.{◌≡◌, refl, Bool-cases, inl, inr, true, false, [], ◌∷◌, ok, arith}
use zylo.Text.{Text, codes, ◌==◌, split, decimal}
use zylo.Text.Equality.{==_sound}
use zylo.Disk.{holds, written, torn, whole}
use zylo.Table.{get, some_value}
use zylo.Network.{save_config, Net, ContainerNetInfo, NetState, file_of, get_network}
use zylo.Network.Ipam.{Fate, take_ip, with_container, base_of, free_ip, allocate_ip}
use zylo.Network.Ipam.Free.{IsLowest}
use zylo.Network.Ipam.Lookup.{allocate_ip_total}
use zylo.Network.Ipam.Distinct.{allocate, release, IsSound, perform_all, address_calls-IsSound}

abbrev web : ContainerNetInfo
web = record { id = codes "17-1"; name = codes "web"; ip = codes "10.20.1.2" }

abbrev pub lan : Net
lan = record {
  name = codes "lan";
  id = codes "zylo-net-1";
  kind = [];
  driver = [];
  created = [];
  subnet = codes "10.20.1.0/24";
  gateway = codes "10.20.1.1";
  ip_range = [];
  containers = (codes "17-1", web) ∷ [];
  options = [];
  labels = [];
  internal = false;
}

abbrev pub one_net : NetState
one_net = record { networks = (codes "lan", holds lan) ∷ []; hosts = [] }

abbrev pub smooth : Fate
smooth = record { config = written; made = true; base = whole; change = whole }

pub lan_file : file_of (codes "lan") one_net ≡ holds lan
unfolding file_of get ◌==◌
lan_file = refl

allocate_ip_total_example :
    (ip : Text) × IsLowest 253 2 (codes "10.20.1") lan.containers ip
    × ((allocate_ip smooth (codes "lan") (codes "17-2") (codes "db") one_net).0 ≡ ok ip)
    × (file_of
          (codes "lan")
          (allocate_ip smooth (codes "lan") (codes "17-2") (codes "db") one_net).1
        ≡ holds (with_container (codes "17-2") (codes "db") ip lan))
unfolding base_of split
allocate_ip_total_example =
    allocate_ip_total smooth (codes "lan") (codes "17-2") (codes "db") (codes "10.20.1") one_net lan
      refl lan_file refl refl (omega arith)

-- The lowest free address is the next one.
allocated :
    (allocate_ip smooth (codes "lan") (codes "17-2") (codes "db") one_net).0
    ≡ ok (codes "10.20.1.3")
unfolding allocate_ip get_network file_of get ◌==◌ base_of split free_ip some_value decimal take_ip
    save_config
allocated = refl

one_net-IsSound : IsSound one_net
unfolding file_of get some_value ◌==◌
one_net-IsSound = record {
  at_name = λ name. elim (Bool-cases (codes "lan" == name)) [
    | inl e ↦ rw e (==_sound (codes "lan") name e, (refl, tt))
    | inr e ↦ rw e tt
  ];
}

address_calls-IsSound_example : IsSound (
    perform_all
      (allocate smooth (codes "lan") (codes "17-2") (codes "db")
        ∷ release (record smooth { config = torn }) (codes "lan") (codes "17-1")
        ∷ [])
      one_net)
address_calls-IsSound_example =
    address_calls-IsSound
      (allocate smooth (codes "lan") (codes "17-2") (codes "db")
        ∷ release (record smooth { config = torn }) (codes "lan") (codes "17-1")
        ∷ [])
      one_net one_net-IsSound
