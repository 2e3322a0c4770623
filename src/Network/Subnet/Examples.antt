-- ===== src/Network/Subnet/Examples.antt =====
-- The theorems on subnets at concrete inputs, and tests.
use zylo.Prelude.{◌≡◌, refl, some, false, true, [], ◌∷◌, ok}
use zylo.Text.{codes, ◌==◌, contains, split, decimal}
use zylo.Table.{get}
use zylo.Disk.{holds, written, whole}
use zylo.Network.{Net, NetState, file_of}
use zylo.Network.Ipam.{Fate}
use zylo.Network.Subnet.{Outside, fields, used_subnets, free_subnet, find_free_subnet, gateway_at}
use zylo.Network.Subnet.Lowest.{IsLowest, find_free_subnet-IsLowest}

abbrev lan : Net
lan = record {
  name = codes "lan";
  id = codes "zylo-net-1";
  kind = [];
  driver = [];
  created = [];
  subnet = codes "10.20.1.0/24";
  gateway = codes "10.20.1.1";
  ip_range = [];
  containers = [];
  options = [];
  labels = [];
  internal = false;
}

abbrev one_net : NetState
one_net = record { networks = (codes "lan", holds lan) ∷ []; hosts = [] }

abbrev outside : Outside
outside = record {
  interfaces = codes "127.0.0.1/8" ∷ [];
  routes = some (codes "10.20.2.0/24 dev br0");
}

third_is_free : (find_free_subnet outside one_net).0 ≡ ok (codes "10.20.3.0/24", codes "10.20.3.1")
unfolding find_free_subnet used_subnets free_subnet fields split contains ◌==◌ decimal
third_is_free = refl

find_free_subnet-IsLowest_example :
    IsLowest outside one_net (codes "10.20.3.0/24", codes "10.20.3.1")
find_free_subnet-IsLowest_example =
    find_free_subnet-IsLowest outside one_net (codes "10.20.3.0/24", codes "10.20.3.1")
      third_is_free

lan_file : file_of (codes "lan") one_net ≡ holds lan
unfolding file_of get ◌==◌
lan_file = refl

abbrev smooth : Fate
smooth = record { config = written; made = true; base = whole; change = whole }

lan_gateway : lan.gateway ≡ gateway_at 1
unfolding decimal
lan_gateway = refl
