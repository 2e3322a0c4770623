-- ===== src/Network/Create/Examples.antt =====
-- The theorem on new networks at a concrete call.
use zylo.Prelude.{◌≡◌, refl, ◌≢◌, true, false, none, [], ◌∷◌, ok}
use zylo.Text.{Text, codes, ◌==◌, contains, decimal}
use zylo.Disk.{holds, written, whole}
use zylo.Network.{Net, NetState, file_of, save_config}
use zylo.Network.Ipam
use zylo.Network.Ipam.{allocate_ip}
use zylo.Network.Subnet.{Outside, fields, used_subnets, free_subnet, find_free_subnet}
use zylo.Network.Subnet.Lowest.{IsLowest}
use zylo.Network.Create.{Links, created_net, restore_network, create_network}
use zylo.Network.Create.Fresh.{create_network-allocate_ip}

abbrev pub no_nets : NetState
no_nets = record { networks = []; hosts = [] }

abbrev pub outside : Outside
outside = record { interfaces = codes "10.20.1.1/24" ∷ codes "10.20.1.0/24" ∷ []; routes = none }

abbrev pub links : Links
links = record {
  bridge = false;
  bridge_added = true;
  main = true;
  veth = false;
  veth_added = true;
  iptables = true;
  dns = true;
}

abbrev made : Net
made = created_net (codes "lan") (codes "zylo-net-1") (codes "10.20.2.0/24", codes "10.20.2.1")

lan_made :
    (create_network links outside written (codes "zylo-net-1") (codes "lan") no_nets).0 ≡ ok made
unfolding create_network find_free_subnet used_subnets free_subnet fields contains restore_network
    save_config ◌==◌ decimal
lan_made = refl

abbrev smooth : Ipam.Fate
smooth = record { config = written; made = true; base = whole; change = whole }

create_network-allocate_ip_example :
    IsLowest outside no_nets (made.subnet, made.gateway)
    × (file_of
          (codes "lan")
          (create_network links outside written (codes "zylo-net-1") (codes "lan") no_nets).1
        ≡ holds made)
    × (made.containers ≡ [])
    × ((ip : Text) × ((allocate_ip smooth
            (codes "lan")
            (codes "17-1")
            (codes "db")
            (create_network links outside written (codes "zylo-net-1") (codes "lan") no_nets).1).0
          ≡ ok ip)
        × (ip ≢ made.gateway))
create_network-allocate_ip_example =
    create_network-allocate_ip links outside written smooth (codes "zylo-net-1") (codes "lan")
      (codes "17-1") (codes "db") no_nets made lan_made refl
