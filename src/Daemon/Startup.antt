-- ===== src/Daemon/Startup.antt =====
-- Up and Down of daemon/daemon.go with InitCleanUp of cleanup.go, startServer of server.go and
-- sockCreate and SockDelete of socket.go: the daemon from its start to the loop that takes requests.
pub mod Stops
pub mod Ready
pub mod Examples
use zylo.Prelude.{
  ℕ, Bool, true, false, not, ◌&&◌, Option, none, some, List, [], ◌∷◌, Result, ok, err,
  if◌then◌else◌,
}
use zylo.Prelude.Actions.{Act, Done, pure, fail, fail_if, lift, modify, wrap, ◌>>=◌, ◌>>◌}
use zylo.Text.{Text, decimal}
use zylo.Disk.{File, Fault, TextFile, TextWrite, Write, missing, read_text, write_text}
use zylo.Table.{Table}
use zylo.Integer.{ℤ, Parsed, atoi}
use zylo.Network
use zylo.Network.{Net, NetState}
use zylo.Network.Create
use zylo.Network.Create.{Links, ensure_default_network}
use zylo.Network.Subnet.{Outside}
use zylo.Network.Nat.{Iptables, NatError, init_zylo_nat}
use zylo.Network.Restore.{Restored, restore_networks}
use zylo.Container.{Container, Runtime}
use zylo.Daemon.{SyncFate, clean_networks, sync_all_hosts}
use zylo.Daemon.Containers.{CleanFate, clean_runtime_containers, clean_lib_containers}

-- What the daemon finds and leaves: the containers' state, the directories of `lib`, the table nat, the
-- servers of names, the socket, the file with the daemon's number, and the processes that were killed.
pub record Boot (N : Type 0) : Type 0 where
  pub runtime : Runtime
  pub lib : List Text
  pub nat : N
  pub servers : List Restored
  pub socket : Bool
  pub pid_file : TextFile
  pub killed : List ℤ

-- log.Fatal, an error that is returned, or a panic: each of them ends the daemon.
pub data Stop : Type 0 where
  no_manager panicked not_listening no_chmod : Stop
  nat_failed : NatError → Stop
  default_failed : Create.Error → Stop
  sync_failed : Network.Error → Stop
  pid_failed : Fault → Stop

pub record BootFate : Type 0 where
  pub manager : Bool
  pub iptables : Bool
  pub clean : CleanFate
  pub removed : Text → Bool
  pub main_links : Links
  pub links : Text → Links
  pub outside : Outside
  pub net_write : Write
  pub net_id : Text
  pub now : Text
  pub sync : Text → SyncFate
  pub pid : ℕ
  pub pid_write : TextWrite
  pub old_removed : Bool
  pub listen : Bool
  pub chmod : Bool

pub data DownError : Type 0 where
  socket_left not_a_number no_process not_killed pid_left : DownError
  unread : Fault → DownError

pub record DownFate : Type 0 where
  pub socket_removed : Bool
  pub found : Bool
  pub killed : Bool
  pub pid_removed : Bool

module _ {N : Type 0} where
  abbrev pub on_net {κ} :
      {E : Type κ} {A : Type 0} → (E → Stop) → Act NetState E A → Act (Boot N) Stop A
  on_net f m s =
      let (r, net) = m s.runtime.net in
      (
        elim r [ ok a ↦ ok a | err e ↦ err (f e) ],
        record s { runtime = record s.runtime { net = net } },
      )

  -- cleanRuntimeContainers and cleanLibContainers; what they unmount is left out.
  abbrev pub clean_containers : CleanFate → Boot N → Boot N
  clean_containers w s =
      let (dirs, lib, t) = clean_runtime_containers w s.runtime.containers s.lib s.runtime in
      let (lib', u) = clean_lib_containers w lib (record t { containers = dirs }) in
      record s { runtime = u; lib = lib' }

  abbrev pub keep_networks : Option (Table (File Net)) → Act (Boot N) Stop Done
  keep_networks none s = (err panicked, s)
  keep_networks (some files) s =
      let r = s.runtime in
      (ok tt, record s { runtime = record r { net = record r.net { networks = files } } })

  -- InitCleanUp
  unfoldable pub init_clean_up : BootFate → Act (Boot N) Stop Done
  unfolding clean_runtime_containers clean_lib_containers clean_networks
  init_clean_up w = do
    modify (clean_containers w.clean)
    (λ s. keep_networks (clean_networks w.removed s.runtime.net.networks) s)

  abbrev pub restore : (Text → Links) → Boot N → Boot N
  restore k s = record s { servers = restore_networks k s.runtime.net }

  unfoldable pub write_pid : BootFate → Act (Boot N) Stop Done
  unfolding write_text decimal
  write_pid w s =
      let (r, f) = write_text w.pid_write (decimal w.pid) s.pid_file in
      (elim r [ ok u ↦ ok u | err e ↦ err (pid_failed e) ], record s { pid_file = f })

  -- startServer up to its loop: an old socket is removed first, and `defer` closes the listener,
  -- which takes its socket away, where the mode cannot be set.
  unfoldable pub start_server : BootFate → Act (Boot N) Stop Done
  start_server w s =
      if not w.listen
      then (err not_listening, record s { socket = s.socket && not w.old_removed })
      else if not w.chmod
      then (err no_chmod, record s { socket = false })
      else (ok tt, record s { socket = true })

  -- SockDelete, where os.Stat answers.
  unfoldable pub sock_delete : Bool → Act (Boot N) DownError Done
  sock_delete removed s =
      if not s.socket
      then (ok tt, s)
      else if removed
      then (ok tt, record s { socket = false })
      else (err socket_left, s)

  abbrev pub remove_socket : DownFate → Act (Boot N) DownError Done
  remove_socket w s =
      if s.socket
      then (if w.socket_removed then (ok tt, record s { socket = false }) else (err socket_left, s))
      else (err socket_left, s)

  abbrev pub read_pid : Act (Boot N) DownError Text
  read_pid s = (elim (read_text s.pid_file) [ ok t ↦ ok t | err e ↦ err (unread e) ], s)

  abbrev pub kill : DownFate → ℤ → Act (Boot N) DownError Done
  kill w n s =
      if not w.found
      then (err no_process, s)
      else if not w.killed
      then (err not_killed, s)
      else (ok tt, record s { killed = n ∷ s.killed })

  abbrev pub remove_pid : DownFate → Act (Boot N) DownError Done
  remove_pid w s =
      if w.pid_removed then (ok tt, record s { pid_file = missing }) else (err pid_left, s)

  -- `Down`: os.Remove fails on a socket that is not there.
  unfoldable pub daemon_down : DownFate → Act (Boot N) DownError Done
  unfolding read_text atoi
  daemon_down w = do
    remove_socket w
    text ← read_pid
    fail_if (not (atoi text).is_ok) not_a_number
    kill w (atoi text).value
    remove_pid w

module _ (k : Iptables) where
  abbrev pub on_nat : Act k.Nat NatError Done → Act (Boot k.Nat) Stop Done
  on_nat m s =
      let (r, t) = m s.nat in
      (elim r [ ok u ↦ ok u | err e ↦ err (nat_failed e) ], record s { nat = t })

  -- What `Up` does to the networks, behind the cleaning.
  unfoldable pub prepare : BootFate → Act (Boot k.Nat) Stop Done
  unfolding ensure_default_network restore_networks sync_all_hosts
  prepare w = do
    on_net default_failed (ensure_default_network w.main_links w.outside w.net_write w.net_id w.now)
    modify (restore w.links)
    on_net sync_failed (sync_all_hosts w.sync)

  -- `Up` until the daemon takes requests.
  unfoldable pub daemon_up : BootFate → Act (Boot k.Nat) Stop Done
  unfolding init_zylo_nat init_clean_up prepare write_pid start_server
  daemon_up w = do
    fail_if (not w.manager) no_manager
    on_nat (init_zylo_nat k w.iptables)
    init_clean_up w
    prepare w
    write_pid w
    start_server w
