-- ===== src/Daemon/Startup/Ready.antt =====
-- `Up` of daemon/daemon.go: what is ready when the daemon takes requests.
use zylo.Prelude.{
  ◌≡◌, refl, sym, subst, ap, ◌∙◌, Bool, true, false, not, Option, some, none, ok, arith, List, [],
  ◌∷◌,
}
use zylo.Prelude.Actions.{Act, Done, ◌>>◌, bind_ok, unwrap_ok, guard_ok, guard_pass}
use zylo.Text.{Text, decimal}
use zylo.Table.{Table}
use zylo.Disk.{File, TextFile, TextWrite, has, whole, refused, finally, short, write_text}
use zylo.Paths.{main_net_name}
use zylo.Network.{Net, NetState, file_of, get_network, list_networks, readable_networks}
use zylo.Network.Create.{ensure_default_network}
use zylo.Network.Create.Main.{HasMain, ensure_default_network-HasMain}
use zylo.Network.Nat.{Iptables, IsLawful, init_zylo_nat, check_nat}
use zylo.Network.Nat.Init.{check_nat-init_zylo_nat}
use zylo.Daemon.{clean_networks, SyncFate, sync_network, sync_each, sync_all_hosts}
use zylo.Daemon.Sync.{sync_network-file}
use zylo.Daemon.Startup.{
  Boot, BootFate, Stop, no_manager, nat_failed, pid_failed, clean_containers, default_failed,
  on_net, on_nat, init_clean_up, keep_networks, prepare, write_pid, start_server, daemon_up,
}

sync_each-file :
    (w : Text → SyncFate) (name : Text) (ns : List Net) (s : NetState)
    → file_of name (sync_each w ns s) ≡ file_of name s
unfolding sync_each
sync_each-file w name [] s = refl
sync_each-file w name (n ∷ ns) s =
    sync_each-file w name ns (sync_network (w n.name) n.name (get_network n.name s).0 s)
    ∙ sync_network-file (w n.name) n.name name (get_network n.name s).0 s

sync_all_hosts-file :
    (w : Text → SyncFate) (name : Text) (s : NetState)
    → file_of name (sync_all_hosts w s).1 ≡ file_of name s
unfolding sync_all_hosts list_networks
sync_all_hosts-file w name s = sync_each-file w name (readable_networks s.networks) s

on_net_ok {κ} :
    {E : Type κ} {N : Type 0} (f : E → Stop) (m : Act NetState E Done) (s : Boot N)
    → (on_net f m s).0 ≡ ok tt
    → (m s.runtime.net).0 ≡ ok tt
on_net_ok f m s h = unwrap_ok f m s.runtime.net h

keep_networks-nat :
    {N : Type 0} (o : Option (Table (File Net))) (s : Boot N) → (keep_networks o s).1.nat ≡ s.nat
keep_networks-nat none s = refl
keep_networks-nat (some files) s = refl

init_clean_up-nat : {N : Type 0} (w : BootFate) (s : Boot N) → (init_clean_up w s).1.nat ≡ s.nat
unfolding init_clean_up
init_clean_up-nat w s =
    keep_networks-nat (clean_networks w.removed (clean_containers w.clean s).runtime.net.networks)
      (clean_containers w.clean s)

write_text-ok :
    (x : TextWrite) (t : Text) (f : TextFile)
    → (write_text x t f).0 ≡ ok tt
    → (write_text x t f).1 ≡ has t
unfolding write_text
write_text-ok whole t f h = refl
write_text-ok refused t f h = absurd (cc)
write_text-ok finally t f h = absurd (cc)
write_text-ok (short n) t f h = absurd (cc)

write_pid-ok :
    {N : Type 0} (w : BootFate) (s : Boot N)
    → (write_pid w s).0 ≡ ok tt
    → (write_pid w s).1 ≡ record s { pid_file = has (decimal w.pid) }
unfolding write_pid
write_pid-ok {N} w s h =
    ap {A = TextFile} {B = Boot N} (λ f. record s { pid_file = f })
      (write_text-ok w.pid_write (decimal w.pid) s.pid_file
        (unwrap_ok pid_failed (write_text w.pid_write (decimal w.pid)) s.pid_file h))

start_server-ok :
    {N : Type 0} (w : BootFate) (s : Boot N)
    → (start_server w s).0 ≡ ok tt
    → (start_server w s).1 ≡ record s { socket = true }
unfolding start_server
start_server-ok w s h = ground arith

module _ (k : Iptables) where
  -- What is ready behind the networks: the main network, and the table nat that the start made.
  prepare_lem :
      (w : BootFate) (s : Boot k.Nat)
      → (prepare k w s).0 ≡ ok tt
      → HasMain (prepare k w s).1.runtime.net × ((prepare k w s).1.nat ≡ s.nat)
  unfolding prepare
  prepare_lem w s h =
      let ensure = ensure_default_network w.main_links w.outside w.net_write w.net_id w.now in
      let (u, made, rest, over) = bind_ok (on_net default_failed ensure) _ s tt h in
      let (config, file) =
        ensure_default_network-HasMain w.main_links w.outside w.net_write w.net_id w.now
          s.runtime.net (on_net_ok default_failed ensure s made) in
      (
        (
          config,
          ap (λ b. file_of main_net_name b.runtime.net) over
              ∙ sync_all_hosts-file w.sync main_net_name (ensure s.runtime.net).1
              ∙ file,
        ),
        ap (λ b. b.nat) over,
      )

  tail_lem :
      (w : BootFate) (s : Boot k.Nat)
      → ((write_pid w >> start_server w) s).0 ≡ ok tt
      → ((write_pid w >> start_server w) s).1
        ≡ record s { pid_file = has (decimal w.pid); socket = true }
  tail_lem w s h =
      let (u, wrote, served, over) = bind_ok (write_pid w) _ s tt h in
      over
      ∙ start_server-ok w (write_pid w s).1 served
      ∙ ap {A = Boot k.Nat} {B = Boot k.Nat} (λ b. record b { socket = true })
          (write_pid-ok w s wrote)

  -- Where a start gets to the loop: the states behind its parts.
  abbrev pub with_nat : BootFate → Boot k.Nat → Boot k.Nat
  with_nat w s = (on_nat k (init_zylo_nat k w.iptables) s).1

  abbrev pub prepared : BootFate → Boot k.Nat → Boot k.Nat
  prepared w s = (prepare k w (init_clean_up w (with_nat w s)).1).1

  pub record Steps (w : BootFate) (s : Boot k.Nat) : Type 0 where
    pub nat : (on_nat k (init_zylo_nat k w.iptables) s).0 ≡ ok tt
    pub networks : (prepare k w (init_clean_up w (with_nat w s)).1).0 ≡ ok tt
    pub last :
        (daemon_up k w s).1
        ≡ record (prepared w s) { pid_file = has (decimal w.pid); socket = true }

  pub daemon_up-Steps : (w : BootFate) (s : Boot k.Nat) → (daemon_up k w s).0 ≡ ok tt → Steps w s
  unfolding daemon_up
  daemon_up-Steps w s h =
      let passed = guard_pass (not w.manager) no_manager _ s h in
      let (u1, m1, r1, l1) =
        bind_ok (on_nat k (init_zylo_nat k w.iptables)) _ s tt
          (guard_ok (not w.manager) no_manager _ s h) in
      let (u2, m2, r2, l2) = bind_ok (init_clean_up w) _ (with_nat w s) tt r1 in
      let (u3, m3, r3, l3) = bind_ok (prepare k w) _ (init_clean_up w (with_nat w s)).1 tt r2 in
      record {
        nat = m1;
        networks = m3;
        last = ap (λ x. x.1) passed ∙ l1 ∙ l2 ∙ l3 ∙ tail_lem w (prepared w s) r3;
      }

module _ (k : Iptables) (lawful : IsLawful k) where
  -- What a daemon has that takes requests.
  pub record IsUp (w : BootFate) (s : Boot k.Nat) : Type 0 where
    pub socket : s.socket ≡ true
    pub pid_file : s.pid_file ≡ has (decimal w.pid)
    pub main_network : HasMain s.runtime.net
    pub nat_checked : (out : Text) → k.saved s.nat ≡ some out → check_nat k s.nat ≡ true

  nat_ready :
      (there : Bool) (s : Boot k.Nat) (out : Text)
      → there ≡ true
      → (on_nat k (init_zylo_nat k there) s).0 ≡ ok tt
      → k.saved (on_nat k (init_zylo_nat k there) s).1.nat ≡ some out
      → check_nat k (on_nat k (init_zylo_nat k there) s).1.nat ≡ true
  nat_ready false s out t h e = absurd (cc)
  nat_ready true s out t h e =
      check_nat-init_zylo_nat k lawful s.nat out
        (unwrap_ok nat_failed (init_zylo_nat k true) s.nat h) e

  -- Where iptables answers as documented and is found, a start that gets to the loop leaves a socket, the daemon's own
  -- number in its file, a main network whose file holds a configuration, and a table nat that the
  -- health check finds in order if it can be printed.
  pub daemon_up-IsUp :
      (w : BootFate) (s : Boot k.Nat)
      → w.iptables ≡ true
      → (daemon_up k w s).0 ≡ ok tt
      → IsUp w (daemon_up k w s).1
  daemon_up-IsUp w s ipt h =
      let steps = daemon_up-Steps k w s h in
      let ready = prepare_lem k w (init_clean_up w (with_nat k w s)).1 steps.networks in
      let kept : (prepared k w s).nat ≡ (with_nat k w s).nat =
        ready.1 ∙ init_clean_up-nat w (with_nat k w s) in
      subst (IsUp w) (sym steps.last) (record {
        socket = refl;
        pid_file = refl;
        main_network = ready.0;
        nat_checked = λ out e.
            subst (λ n. check_nat k n ≡ true) (sym kept)
              (nat_ready w.iptables s out ipt steps.nat (subst (λ n. k.saved n ≡ some out) kept e));
      })
