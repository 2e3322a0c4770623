-- ===== src/Daemon/Health/Healthy.antt =====
-- `Up` of daemon/daemon.go, `router` of server.go and checkSystemHealth of health.go together.
use zylo.Prelude.{◌≡◌, refl, true, none, some, Option, ok, ap, [], ◌∷◌, ◌++◌}
use zylo.Text.{Text, ◌==◌, codes, trim_space}
use zylo.Disk.{has}
use zylo.Network.Nat.{Iptables, IsLawful}
use zylo.Daemon.Router.{System, Reply, silent, said, failed, Answer, RouterFate, router}
use zylo.Daemon.Startup.{Boot, BootFate, daemon_up}
use zylo.Daemon.Startup.Ready.{daemon_up-IsUp}
use zylo.Daemon.Health.{
  HealthStatus, HealthFate, check_daemon, check_system_health, daemon_status, status,
}

-- The bytes that an answer puts on the connection.
abbrev pub written : Reply → Option Text
written silent = none
written (said t) = some t
written (failed e) = none

module _ {L : Type 0} where
  abbrev pub bytes_of : Option (Answer L) → Option Text
  bytes_of none = none
  bytes_of (some a) = written a.reply

  -- The router at the other side of the connection.
  abbrev pub served : RouterFate L → System L → Text → Option Text
  served r s t = bytes_of (router r t s)

  check_daemon-router :
      (r : RouterFate L) (s : System L) → check_daemon true true (served r s) ≡ true
  unfolding check_daemon router ◌==◌
  check_daemon-router r s = refl

  daemon_status-router :
      (r : RouterFate L) (s : System L) → daemon_status true true (served r s) ≡ ok tt
  unfolding daemon_status router trim_space ◌==◌
  daemon_status-router r s = refl

-- What the host answers where nothing is wrong with it.
pub record IsSmooth (w : HealthFate) : Type 0 where
  pub link : w.link ≡ some true
  pub link_again : w.link_again ≡ some true
  pub ip_forward : w.ip_forward ≡ has (codes "1" ++ 10 ∷ [])
  pub dialed : w.dialed ≡ true
  pub dialed_again : w.dialed_again ≡ true
  pub sent : w.sent ≡ true

-- The checks all say 200.
pub record IsHealthy (h : HealthStatus) : Type 0 where
  pub bridge : h.bridge ≡ 200
  pub ip_forward : h.ip_forward ≡ 200
  pub nat : h.nat ≡ 200
  pub socket : h.socket ≡ 200
  pub daemon : h.daemon ≡ 200

-- Where iptables answers as documented, is found and can print its table, the bridge is up and forwarding is on, connections
-- can be made and the router answers on them, all checks of a daemon whose start got to the loop say
-- 200, and its status is ok.
pub check_system_health-daemon_up :
    {L : Type 0} (k : Iptables)
    → IsLawful k
    → (b : BootFate) (s : Boot k.Nat) (r : RouterFate L) (system : System L) (w : HealthFate)
      (out : Text)
    → b.iptables ≡ true
    → (daemon_up k b s).0 ≡ ok tt
    → k.saved (daemon_up k b s).1.nat ≡ some out
    → IsSmooth w
    → IsHealthy (
        check_system_health k
          (record w { there = (daemon_up k b s).1.socket; peer = served r system })
          (daemon_up k b s).1.nat)
      × (daemon_status w.dialed w.sent (served r system) ≡ ok tt)
unfolding check_system_health ◌==◌
check_system_health-daemon_up k lawful b s r system w out i h e f =
    let up = daemon_up-IsUp k lawful b s i h in
    (
      record {
        bridge = rw (f.link, f.link_again) refl;
        ip_forward = rw f.ip_forward refl;
        nat = rw (up.nat_checked out e) refl;
        socket = rw (up.socket, f.dialed) refl;
        daemon = rw (f.dialed_again, f.sent) (ap (λ c. status c) (check_daemon-router r system));
      },
      rw (f.dialed, f.sent) (daemon_status-router r system),
    )
