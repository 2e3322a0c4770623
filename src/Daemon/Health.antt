-- ===== src/Daemon/Health.antt =====
-- daemon/health.go: the health of the system, and the daemon's answer to a ping. checkNAT stands with
-- the table nat, in Network/Nat.
pub mod Healthy
mod Examples
use zylo.Prelude.{
  ℕ, Bool, true, false, not, Option, none, some, Result, ok, err, take, if◌then◌else◌,
}
use zylo.Prelude.Actions.{Done}
use zylo.Text.{Text, ◌==◌, codes, trim_space}
use zylo.Disk.{File, Fault, TextFile, read, read_text}
use zylo.Table.{Table}
use zylo.Paths.{main_net_name}
use zylo.Network.{Net, NetState, file_of}
use zylo.Network.Nat.{Iptables, check_nat}

-- A check says 200 or 500.
pub record HealthStatus : Type 0 where
  pub time : Text
  pub bridge : ℕ
  pub ip_forward : ℕ
  pub nat : ℕ
  pub socket : ℕ
  pub daemon : ℕ

pub record NetworkConfig : Type 0 where
  pub name : Text
  pub subnet : Text
  pub gateway : Text
  pub options : Table Text

abbrev pub config_part : Result Fault Net → Result Fault NetworkConfig
config_part (err e) = err e
config_part (ok n) =
    ok (record { name = n.name; subnet = n.subnet; gateway = n.gateway; options = n.options })

-- loadNetworkConfig, which has no caller.
unfoldable pub load_network_config : NetState → Result Fault NetworkConfig
unfolding file_of read
load_network_config s = config_part (read (file_of main_net_name s))

-- What the checks meet: the two lookups of the bridge, with whether it is up; the file ip_forward;
-- whether the socket's path is there; the connections; and what the other side of the second one
-- writes back to a text.
pub record HealthFate : Type 0 where
  pub time : Text
  pub link : Option Bool
  pub link_again : Option Bool
  pub ip_forward : TextFile
  pub there : Bool
  pub dialed : Bool
  pub dialed_again : Bool
  pub sent : Bool
  pub peer : Text → Option Text

abbrev pub status : Bool → ℕ
status b = if b then 200 else 500

unfoldable pub check_bridge : Option Bool → Option Bool → Bool
check_bridge none again = false
check_bridge (some up) none = false
check_bridge (some up) (some up') = up'

abbrev pub is_one : Result Fault Text → Bool
is_one (err e) = false
is_one (ok t) = trim_space t == codes "1"

unfoldable pub check_ip_forward : TextFile → Bool
unfolding read_text trim_space
check_ip_forward f = is_one (read_text f)

unfoldable pub check_socket : Bool → Bool → Bool
check_socket there dialed = if not there then false else dialed

-- The buffer has 16 bytes.
abbrev pub is_pong : Option Text → Bool
is_pong none = false
is_pong (some t) = trim_space (take 16 t) == codes "pong"

unfoldable pub check_daemon : Bool → Bool → (Text → Option Text) → Bool
unfolding trim_space
check_daemon dialed sent peer =
    if not dialed then false else if not sent then false else is_pong (peer (codes "ping"))

unfoldable pub check_system_health : (k : Iptables) → HealthFate → k.Nat → HealthStatus
unfolding check_bridge check_ip_forward check_nat check_socket check_daemon
check_system_health k w s = record {
  time = w.time;
  bridge = status (check_bridge w.link w.link_again);
  ip_forward = status (check_ip_forward w.ip_forward);
  nat = status (check_nat k s);
  socket = status (check_socket w.there w.dialed);
  daemon = status (check_daemon w.dialed_again w.sent w.peer);
}

pub data StatusError : Type 0 where
  not_dialed not_sent unread unexpected : StatusError

abbrev pub expect_ok : Option Text → Result StatusError Done
expect_ok none = err unread
expect_ok (some t) = if take 1024 t == codes "ok" then ok tt else err unexpected

-- `Status` of daemon/daemon.go
unfoldable pub daemon_status : Bool → Bool → (Text → Option Text) → Result StatusError Done
daemon_status dialed sent peer =
    if not dialed
    then err not_dialed
    else if not sent
    then err not_sent
    else expect_ok (peer (codes "status"))
