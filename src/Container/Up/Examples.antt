-- ===== src/Container/Up/Examples.antt =====
-- The theorems on `Up` at concrete inputs.
use zylo.Prelude.{ℕ, ◌≡◌, ◌≢◌, refl, true, false, some, none, [], ◌∷◌, ◌++◌, ok}
use zylo.Text.{Text, codes, ◌==◌, cut, split, has_prefix, trim_space, decimal}
use zylo.Disk.{absent, missing, written, whole, read, write}
use zylo.Table.{get, put, some_value}
use zylo.Zylofile
use zylo.Zylofile.{content, load_config, parse_lines, parse_line, instruct}
use zylo.Network.{file_of, get_network, save_config, on_hosts, hosts_of}
use zylo.Network.Ipam.{base_of, free_ip, add_to_hosts, take_ip, allocate_ip}
use zylo.Hosts.{new_hosts_manager, add_container}
use zylo.Name.{register_name, name_exists}
use zylo.Container.Lifecycle.{check_name}
use zylo.Container.Setup.{setup, new_container, Host}
use zylo.Container.Start.{setup_network, join_bridge, forward_ports, suffix}
use zylo.Container.Start.Examples.{smooth, start, web}
use zylo.Container.Start.Run.{RunFate, mark_used, mark_all_used}
use zylo.Container.Up.{UpFate, check_network, load, up}
use zylo.Container.Up.Outcome.{running, up-needs_network}

-- The process dies at once.
abbrev dying : RunFate
dying = record smooth { start = record smooth.start { alive = λ pid. false } }

abbrev project : Text
project = codes "USE_IMAGE python" ++ (10 ∷ codes "NAME web")

abbrev parse : ℕ → Zylofile.Fate
parse n = record { hash = codes "h"; now = codes "t"; made = true; write = written }

abbrev pub fate : UpFate
fate = record {
  manager = true;
  decode = λ s. none;
  hash = codes "2026-000017";
  parse = parse;
  source = content project;
  tty = true;
  free_space = some 8000000000;
  image_there = λ path. true;
  image_pulled = λ name. true;
  links = record {
    bridge = true;
    bridge_added = true;
    main = true;
    veth = true;
    veth_added = true;
    iptables = true;
    dns = true;
  };
  outside = record { interfaces = []; routes = none };
  net_write = written;
  net_id = codes "zylo-net-1";
  nat = true;
  listening = λ n. false;
  running = λ pid. false;
  dirs = [];
  id = codes "2026-000017";
  setup = record {
    dirs = true;
    image = λ path. true;
    overlay = true;
    resolv_dir = true;
    resolv = whole;
    resolv_mount = true;
    hosts_dir = true;
    hosts_base = whole;
    hosts_etc = true;
    hosts_mount = true;
    devices = true;
    meta = absent;
    users = record {
      made = true;
      passwd_opened = true;
      group_opened = true;
      user = λ n. whole;
      group = λ n. whole;
    };
    mounts = record { made = λ n. true; mounted = λ n. true };
    env = whole;
  };
  name_write = written;
  now = codes "t";
  generated = codes "zylo-1";
  run = dying;
}

abbrev pub host : Host
host = record {
  runtime = start.runtime;
  mounts = [];
  resolv = missing;
  etc = record { passwd = []; group = [] };
  env_file = missing;
}

abbrev config : Zylofile.Config
config = record {
  image = codes "python";
  name = codes "web";
  open_ports = [];
  cmd_path = codes "/p";
  user_tty = codes "/dev/tty";
  set_workdir = [];
  copy_dir = [];
  env = [];
  network = [];
  volumes = [];
  cmd = [];
}

config_loads : (load fate (codes "/p") (codes "/dev/tty") host).0 ≡ ok config
unfolding load_config parse_lines parse_line instruct ◌==◌ cut has_prefix trim_space split
config_loads = refl

no_net : file_of [] host.runtime.net ≡ absent
unfolding file_of get ◌==◌
no_net = refl

up-needs_network_example :
    (check_network fate config host.runtime.net ≡ (ok tt, host.runtime.net))
    × ((setup fate.setup (new_container fate.id config) host).0 ≢ ok tt)
    × ((up fate (codes "/p") (codes "/dev/tty") host).0 ≢ ok tt)
    × ((up fate (codes "/p") (codes "/dev/tty") host).1.runtime.containers
        ≡ host.runtime.containers)
up-needs_network_example =
    up-needs_network fate (codes "/p") (codes "/dev/tty") config host config_loads refl no_net

name_registered :
    (check_name fate.name_write fate.now fate.generated web.name web.id host.runtime.names).0
    ≡ ok tt
unfolding check_name register_name name_exists
name_registered = refl

network_set_up :
    (setup_network dying.start web (mark_used dying web (running fate web host))).0 ≡ ok tt
unfolding setup_network join_bridge forward_ports mark_all_used allocate_ip take_ip add_to_hosts
    save_config get_network file_of on_hosts hosts_of new_hosts_manager add_container free_ip
    base_of split suffix decimal get put some_value ◌==◌ read write
network_set_up = refl
