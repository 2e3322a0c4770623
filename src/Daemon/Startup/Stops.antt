-- ===== src/Daemon/Startup/Stops.antt =====
-- `Down` of daemon/daemon.go behind an `Up`.
use zylo.Prelude.{ℕ, ◌^◌, ◌<◌, ◌≡◌, refl, sym, ap, ◌∙◌, true, false, ok, ◌∷◌}
use zylo.Text.{decimal}
use zylo.Disk.{has, missing}
use zylo.Integer.{pos}
use zylo.Integer.Laws.{atoi-decimal}
use zylo.Network.Nat.{Iptables}
use zylo.Daemon.Startup.{Boot, BootFate, DownFate, daemon_up, daemon_down}
use zylo.Daemon.Startup.Ready.{prepared, daemon_up-Steps}

-- Every call that a stop makes succeeds.
pub record IsSmooth (v : DownFate) : Type 0 where
  pub socket_removed : v.socket_removed ≡ true
  pub found : v.found ≡ true
  pub killed : v.killed ≡ true
  pub pid_removed : v.pid_removed ≡ true

-- What a stop of the process leaves.
abbrev pub stopped : {N : Type 0} → ℕ → Boot N → Boot N
stopped n s = record s { socket = false; pid_file = missing; killed = pos n ∷ s.killed }

daemon_down-serving :
    {N : Type 0} (v : DownFate) (n : ℕ) (s : Boot N)
    → IsSmooth v
    → n < 2 ^ 63
    → daemon_down v (record s { pid_file = has (decimal n); socket = true }) ≡ (ok tt, stopped n s)
unfolding daemon_down
daemon_down-serving v n s h b =
    rw (h.socket_removed, atoi-decimal n b, h.found, h.killed, h.pid_removed) refl

-- Where every call succeeds, a stop behind a start that got to the loop kills the process that the
-- start belongs to and no other, and takes the socket and the file of its number away; the rest stays as the start left it. The number
-- of the process is below 2 ^ 63.
pub daemon_down-daemon_up :
    (k : Iptables) (w : BootFate) (v : DownFate) (s : Boot k.Nat)
    → (daemon_up k w s).0 ≡ ok tt
    → w.pid < 2 ^ 63
    → IsSmooth v
    → daemon_down v (daemon_up k w s).1 ≡ (ok tt, stopped w.pid (daemon_up k w s).1)
daemon_down-daemon_up k w v s h b smooth =
    let last = (daemon_up-Steps k w s h).last in
    ap (daemon_down v) last
    ∙ daemon_down-serving v w.pid (prepared k w s) smooth b
    ∙ ap (λ t. (ok tt, stopped w.pid t)) (sym last)
