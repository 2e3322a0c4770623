-- ===== src/Network/Restore/Examples.antt =====
-- The theorem on the servers of names at a concrete network, and a test.
use zylo.Prelude.{◌≡◌, ◌≢◌, refl, some, ◌∷◌, [], arith}
use zylo.Text.{codes, ◌==◌, split, decimal}
use zylo.Text.Equality.{==_iff}
use zylo.Table.{some_value, get}
use zylo.Paths.{main_net_name}
use zylo.Network.{save_config, file_of, get_network}
use zylo.Network.Create.Examples.{links}
use zylo.Network.Ipam.{take_ip, base_of, free_ip, allocate_ip}
use zylo.Network.Ipam.Examples.{lan, one_net, smooth, lan_file}
use zylo.Network.Restore.{resolve, restore_networks}
use zylo.Network.Restore.Resolves.{Serves, restore_networks-allocate_ip}

not_main : codes "lan" ≢ main_net_name
unfolding ◌==◌
not_main e = ground (arith, ==_iff (codes "lan") main_net_name)

restore_networks-allocate_ip_example : Serves (codes "lan") (codes "db") (codes "10.20.1.3") (
    restore_networks
      (λ n. links)
      (allocate_ip smooth (codes "lan") (codes "17-2") (codes "db") one_net).1)
unfolding allocate_ip get_network file_of get ◌==◌ base_of split free_ip some_value decimal take_ip
    save_config
restore_networks-allocate_ip_example =
    restore_networks-allocate_ip (λ n. links) smooth (codes "lan") (codes "17-2") (codes "db")
      one_net lan refl lan_file refl not_main refl refl

-- Two containers of one name: the first entry answers.
first_answers :
    resolve
      ((codes "1", record { id = codes "1"; name = codes "web"; ip = codes "10.20.1.2" })
        ∷ (codes "2", record { id = codes "2"; name = codes "web"; ip = codes "10.20.1.3" })
        ∷ [])
      (codes "web")
    ≡ some (codes "10.20.1.2")
unfolding resolve ◌==◌
first_answers = refl
