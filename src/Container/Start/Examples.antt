-- ===== src/Container/Start/Examples.antt =====
-- The theorems on the start of a container at concrete inputs, and tests.
use zylo.Prelude.{◌≡◌, refl, true, false, some, none, [], ◌∷◌, ok}
use zylo.Text.{codes, ◌==◌, cut, split, decimal}
use zylo.Text.Decimal.{value}
use zylo.Disk.{absent, holds, written, whole, read, write, write_text}
use zylo.Table.{get, put, remove, some_value}
use zylo.Integer.{atoi, itoa}
use zylo.Network.{Net, file_of, hosts_of, on_hosts, save_config, get_network}
use zylo.Network.Ipam
use zylo.Network.Ipam.{base_of, free_ip, add_to_hosts, take_ip, allocate_ip, drop_hosts, release_ip}
use zylo.Name.{unregister_name}
use zylo.Hosts.{new_hosts_manager, add_container}
use zylo.Container.{Container, Rule}
use zylo.Container.Down.{
  on_names, on_net, mark_all_unused, remove_port_forward, drop_rules, cleanup_network,
  read_container, drop_name, remove_dirs, release_all, down,
}
use zylo.Container.Down.Wait.{tick, wait_loop}
use zylo.Container.Start.{
  Running, StartFate, forward_ports, join_bridge, setup_network, persist_container_state, suffix,
}
use zylo.Container.Start.Attach.{parse_cidr, attach_network}
use zylo.Container.Start.Run.{
  RunFate, run_process, go_on, attach_and_wait, cleanup, mark_all_used, mark_used, run,
}
use zylo.Container.Start.Run.Rules.{networked}

abbrev rule : Rule
rule = record {
  host_port = codes "80";
  container_ip = codes "10.20.1.2";
  container_port = codes "80";
}

abbrev pub web : Container
web = record {
  id = codes "2026-000017";
  name = codes "web";
  rootfs = codes "/var/lib/zylo/containers/2026-000017";
  image = codes "alpine";
  copy_dir = [];
  workdir = [];
  volumes = [];
  network = codes "lan";
  env = [];
  cmd = [];
  cmd_path = codes "/home/web";
  user_tty = [];
  ports = codes "8080:80" ∷ [];
  ip = [];
  pid = 0;
}

abbrev pub lan : Net
lan = record {
  name = codes "lan";
  id = codes "zylo-net-1";
  kind = [];
  driver = [];
  created = [];
  subnet = codes "10.20.2.0/24";
  gateway = codes "10.20.2.1";
  ip_range = [];
  containers = [];
  options = [];
  labels = [];
  internal = false;
}

abbrev pub start : Running
start = record {
  runtime = record {
    containers = [];
    names = absent;
    volumes = absent;
    net = record { networks = (codes "lan", holds lan) ∷ []; hosts = [] };
    rules = [];
  };
  container = web;
}

abbrev smooth_net : Ipam.Fate
smooth_net = record { config = written; made = true; base = whole; change = whole }

abbrev smooth_start : StartFate
smooth_start = record {
  manager = true;
  bridge = true;
  is_up = true;
  set_up = true;
  ipam = smooth_net;
  command = λ words. true;
  forward = λ n. true;
  alive = λ pid. true;
  alive_again = λ pid. true;
  made = true;
  json = written;
  pid_file = true;
}

abbrev pub smooth : RunFate
smooth = record {
  log = true;
  volume = λ n. written;
  start = smooth_start;
  exec = λ args env. some 41;
  finished = true;
  unused = λ n. written;
  name = written;
  down = record {
    volume = λ n. written;
    name = written;
    net = smooth_net;
    iptables = record { there = true; deleted = λ q. true };
    events = tick false ∷ [];
    run_dir = true;
    lib_dir = true;
  };
}

abbrev network_ready : Running
network_ready = networked smooth start

set_up : (setup_network smooth.start web (mark_used smooth web start)).0 ≡ ok tt
unfolding setup_network join_bridge forward_ports mark_all_used allocate_ip take_ip add_to_hosts
    save_config get_network file_of on_hosts hosts_of new_hosts_manager add_container free_ip
    base_of split suffix decimal get put some_value ◌==◌ read write write_text
set_up = refl

cidr : parse_cidr (codes "10.20.2.0/24") ≡ some 24
unfolding parse_cidr cut split value
cidr = refl

cidr_of_zeros : parse_cidr (codes "10.020.2.0/24") ≡ none
unfolding parse_cidr cut split value
cidr_of_zeros = refl

-- A run that goes well to its end leaves no rule and no container, but the address taken.
smooth_run :
    ((run smooth start).0 ≡ ok tt)
    × ((run smooth start).1.runtime.rules ≡ [])
    × ((run smooth start).1.runtime.containers ≡ [])
unfolding run run_process go_on attach_and_wait setup_network join_bridge forward_ports
    persist_container_state attach_network allocate_ip take_ip add_to_hosts save_config get_network
    file_of on_hosts hosts_of new_hosts_manager add_container free_ip base_of parse_cidr value split
    cut suffix decimal get put remove ◌==◌ cleanup mark_all_used mark_all_unused on_names
    unregister_name down read_container release_all cleanup_network on_net release_ip drop_hosts
    drop_rules remove_port_forward drop_name remove_dirs atoi itoa some_value write read write_text
    wait_loop
smooth_run = (refl, refl, refl)
