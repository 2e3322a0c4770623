-- ===== src/Container/Examples.antt =====
-- The theorems on containers at concrete inputs, and tests.
use zylo.Prelude.{◌≡◌, refl, ◌↔◌, true, false, none, some, [], ◌∷◌, ok, All, Bool-cases, inl, inr}
use zylo.Text.{codes, ◌==◌}
use zylo.Text.Equality.{==_sound}
use zylo.Disk.{File, holds, absent, malformed, written, whole}
use zylo.Table.{get, some_value}
use zylo.Network.{Net, file_of}
use zylo.Network.Ipam
use zylo.Network.Ipam.Distinct.{IsSound}
use zylo.Name.{NameRegistry}
use zylo.Container.{Container, Runtime, list_containers}
use zylo.Container.Ports.{are_ports_free}
use zylo.Container.Ports.Free.{IsFree, are_ports_free_iff}
use zylo.Container.Down.{Fate}
use zylo.Container.Down.Wait.{tick, timeout, sigterm, sigkill, wait_loop, wait_loop-death}
use zylo.Container.Cleanup.{Sweep}

abbrev web : Container
web = record {
  id = codes "17-1";
  name = [];
  rootfs = codes "/var/lib/zylo/containers/17-1";
  image = codes "alpine";
  copy_dir = [];
  workdir = [];
  volumes = [];
  network = codes "lan";
  env = [];
  cmd = [];
  cmd_path = codes "/home/web";
  user_tty = [];
  ports = codes "8080:80" ∷ [];
  ip = codes "10.20.2.2";
  pid = 41;
}

abbrev db : Container
db = record web {
  id = codes "17-2";
  name = codes "db";
  cmd_path = codes "/home/db";
  ports = [];
  pid = 0;
}

abbrev lan : Net
lan = record {
  name = codes "lan";
  id = codes "zylo-net-1";
  kind = [];
  driver = [];
  created = [];
  subnet = codes "10.20.2.0/24";
  gateway = codes "10.20.2.1";
  ip_range = [];
  containers = (codes "17-1", record { id = codes "17-1"; name = []; ip = codes "10.20.2.2" }) ∷ [];
  options = [];
  labels = [];
  internal = false;
}

abbrev registry : File NameRegistry
registry =
    holds (record { name = codes "db"; container = codes "17-2"; created = codes "today" } ∷ [])

abbrev two : Runtime
two = record {
  containers =
      (codes "17-1", holds web) ∷ (codes "17-2", holds db) ∷ (codes "17-3", malformed) ∷ [];
  names = registry;
  volumes = absent;
  net = record { networks = (codes "lan", holds lan) ∷ []; hosts = [] };
  rules = [];
}

abbrev smooth_net : Ipam.Fate
smooth_net = record { config = written; made = true; base = whole; change = whole }

abbrev smooth : Fate
smooth = record {
  volume = λ n. written;
  name = written;
  net = smooth_net;
  iptables = record { there = true; deleted = λ q. true };
  events = tick true ∷ tick false ∷ [];
  run_dir = true;
  lib_dir = true;
}

abbrev one_dead : Sweep
one_dead = record {
  running = λ pid. true;
  iptables = record { there = true; deleted = λ q. true };
  net = λ hash. smooth_net;
  left = λ hash. none;
}

are_ports_free_iff_example :
    (are_ports_free (λ n. false) (codes "8080:80" ∷ []) two ≡ ok tt)
    ↔ All (IsFree (λ n. false) (list_containers two)) (codes "8080:80" ∷ [])
are_ports_free_iff_example = are_ports_free_iff (λ n. false) (codes "8080:80" ∷ []) two

wait_loop-death_example :
    (wait_loop (tick true ∷ timeout ∷ tick true ∷ []) ≡ none)
    × (wait_loop (tick true ∷ timeout ∷ tick true ∷ tick false ∷ timeout ∷ [])
        ≡ some (sigterm ∷ sigkill ∷ []))
wait_loop-death_example = wait_loop-death (tick true ∷ timeout ∷ tick true ∷ []) (timeout ∷ []) refl

two-IsSound : IsSound two.net
unfolding file_of get some_value ◌==◌
two-IsSound = record {
  at_name = λ name. elim (Bool-cases (codes "lan" == name)) [
    | inl e ↦ rw e (==_sound (codes "lan") name e, (refl, tt))
    | inr e ↦ rw e tt
  ];
}
