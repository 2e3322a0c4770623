-- ===== src/Daemon/Startup/Examples.antt =====
-- The theorems on the start and the stop of the daemon at a concrete host, and tests.
use zylo.Prelude.{◌≡◌, refl, true, false, [], ok, err, arith}
use zylo.Text.{codes, ◌==◌}
use zylo.Disk.{missing, written, whole}
use zylo.Table.{get}
use zylo.Network.{file_of}
use zylo.Network.Subnet.{used_subnets, free_subnet}
use zylo.Network.Create.Examples.{links, outside}
use zylo.Network.Nat.{init_zylo_nat}
use zylo.Network.Nat.Examples.{Chains, table, table-IsLawful, bare}
use zylo.Daemon.Containers.Examples.{fate, state}
use zylo.Daemon.Startup.{
  Boot, BootFate, DownFate, daemon_up, daemon_down, init_clean_up, prepare, write_pid, start_server,
  socket_left,
}
use zylo.Daemon.Startup.Ready.{IsUp, daemon_up-IsUp}
use zylo.Daemon.Startup.Stops.{stopped, daemon_down-daemon_up}

abbrev pub boot_fate : BootFate
boot_fate = record {
  manager = true;
  iptables = true;
  clean = fate;
  removed = λ name. true;
  main_links = links;
  links = λ name. links;
  outside = outside;
  net_write = written;
  net_id = codes "zylo-net-1";
  now = codes "t";
  sync = λ name. record { made = true; base = whole; all = whole };
  pid = 99;
  pid_write = whole;
  old_removed = true;
  listen = true;
  chmod = true;
}

abbrev pub off : Boot Chains
off = record {
  runtime = state;
  lib = [];
  nat = bare;
  servers = [];
  socket = false;
  pid_file = missing;
  killed = [];
}

abbrev pub on : Boot Chains
on = (daemon_up table boot_fate off).1

pub goes_up : (daemon_up table boot_fate off).0 ≡ ok tt
unfolding daemon_up init_zylo_nat init_clean_up prepare write_pid start_server ◌==◌ file_of get
    free_subnet used_subnets
goes_up = refl

is_up : IsUp table table-IsLawful boot_fate on
is_up = daemon_up-IsUp table table-IsLawful boot_fate off refl goes_up

abbrev smooth : DownFate
smooth = record { socket_removed = true; found = true; killed = true; pid_removed = true }

daemon_down-daemon_up_example : daemon_down smooth on ≡ (ok tt, stopped 99 on)
daemon_down-daemon_up_example =
    daemon_down-daemon_up table boot_fate smooth off goes_up (omega arith)
      (record { socket_removed = refl; found = refl; killed = refl; pid_removed = refl })

-- A stop of a daemon that is not there fails at the socket.
not_there : (daemon_down smooth off).0 ≡ err socket_left
unfolding daemon_down
not_there = refl
