-- ===== src/Daemon/Health/Examples.antt =====
-- The theorem on the health of the daemon at a concrete host, and tests.
use zylo.Prelude.{◌≡◌, refl, true, false, none, some, [], ◌∷◌, ◌++◌, ok}
use zylo.Text.{codes, ◌==◌}
use zylo.Disk.{has}
use zylo.Network.Nat.Examples.{table, table-IsLawful, printed}
use zylo.Daemon.Router.Examples.{router_fate, system}
use zylo.Daemon.Startup.Examples.{boot_fate, off, on, goes_up}
use zylo.Daemon.Health.{
  HealthFate, check_system_health, check_bridge, check_ip_forward, daemon_status,
}
use zylo.Daemon.Health.Healthy.{IsHealthy, served, check_system_health-daemon_up}

abbrev fate : HealthFate
fate = record {
  time = codes "12:00:00";
  link = some true;
  link_again = some true;
  ip_forward = has (codes "1" ++ 10 ∷ []);
  there = false;
  dialed = true;
  dialed_again = true;
  sent = true;
  peer = λ t. none;
}

check_system_health-daemon_up_example :
    IsHealthy (
      check_system_health table
        (record fate { there = on.socket; peer = served router_fate system })
        on.nat)
    × (daemon_status true true (served router_fate system) ≡ ok tt)
check_system_health-daemon_up_example =
    check_system_health-daemon_up table table-IsLawful boot_fate off router_fate system fate
      (printed on.nat.names) refl goes_up refl
      (record {
        link = refl;
        link_again = refl;
        ip_forward = refl;
        dialed = refl;
        dialed_again = refl;
        sent = refl;
      })

-- The bridge may go between the two lookups.
bridge_gone : check_bridge (some true) none ≡ false
unfolding check_bridge
bridge_gone = refl

not_forwarding : check_ip_forward (has (codes "0")) ≡ false
unfolding check_ip_forward ◌==◌
not_forwarding = refl
