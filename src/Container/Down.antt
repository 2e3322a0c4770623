-- ===== src/Container/Down.antt =====
-- `down` of internal/container/runtime_cleanup.go, and CleanupNetwork of network.go.
pub mod Wait
pub mod Effects
pub mod Unnamed
pub mod Rules
use zylo.Prelude.{
  ℕ, suc, zero, Bool, true, false, not, ◌&&◌, Option, none, some, List, [], ◌∷◌, Result, ok, err,
  eqb, if◌then◌else◌,
}
use zylo.Prelude.Actions.{
  Act, Done, pure, fail, fail_if, lift, gets, modify, wrap, ignore, ◌>>=◌, ◌>>◌,
}
use zylo.Text.{Text, ◌==◌, is_empty, split}
use zylo.Disk.{File, Write, read, absent}
use zylo.Table.{get, remove}
use zylo.Paths.{main_net_name}
use zylo.Integer.{atoi, itoa}
use zylo.Zylofile.{Mount}
use zylo.Name
use zylo.Name.{unregister_name}
use zylo.Volume
use zylo.Volume.{mark_volume_unused}
use zylo.Network
use zylo.Network.{NetState}
use zylo.Network.Ipam
use zylo.Network.Ipam.{release_ip}
use zylo.Container.{
  Container, Rule, Runtime, Daemon, Error, hash_required, still_waiting, remove_failed, load_failed,
}
use zylo.Container.Down.Wait.{Event, wait_loop}

-- An action on one part of the state, its error dropped.
unfoldable pub on_names {κ} :
    {E : Type κ} {A : Type 0} → Act (File Name.NameRegistry) E A → Daemon Done
on_names m s = (ok tt, record s { names = (m s.names).1 })

unfoldable pub on_volumes {κ} :
    {E : Type κ} {A : Type 0} → Act (File Volume.Registry) E A → Daemon Done
on_volumes m s = (ok tt, record s { volumes = (m s.volumes).1 })

unfoldable pub on_net {κ} : {E : Type κ} {A : Type 0} → Act NetState E A → Daemon Done
on_net m s = (ok tt, record s { net = (m s.net).1 })

-- Whether iptables can be set up, and for which rules the command `iptables -D` succeeds.
pub record Iptables : Type 0 where
  pub there : Bool
  pub deleted : Rule → Bool

-- How a call of `down` goes outside: the writes of the registries, what iptables does,
-- what is heard of the process, and the removals of the two directories.
pub record Fate : Type 0 where
  pub volume : ℕ → Write
  pub name : Write
  pub net : Ipam.Fate
  pub iptables : Iptables
  pub events : List Event
  pub run_dir : Bool
  pub lib_dir : Bool

-- The n-th volume of the container and those behind it are marked as unused.
unfoldable pub mark_all_unused : (ℕ → Write) → Text → ℕ → List Mount → Daemon Done
mark_all_unused w id n [] s = (ok tt, s)
mark_all_unused w id n (v ∷ vs) s =
    let mark =
      if not (is_empty v.name)
      then mark_volume_unused (w n) v.name [] id
      else mark_volume_unused (w n) [] v.host_path id in
    mark_all_unused w id (suc n) vs (on_volumes mark s).1

abbrev pub same_rule : Rule → Rule → Bool
same_rule r q =
    r.host_port == q.host_port
    && (r.container_ip == q.container_ip && r.container_port == q.container_port)

abbrev pub take_rule : Rule → List Rule → List Rule
take_rule q [] = []
take_rule q (r ∷ rs) = if same_rule r q then rs else r ∷ take_rule q rs

-- `iptables -D` takes away the first rule that fits. Its error is dropped, and leaves the rules.
unfoldable pub remove_port_forward : (Rule → Bool) → Rule → List Rule → List Rule
remove_port_forward deleted q rs = if deleted q then take_rule q rs else rs

-- With a network manager the ports are read as numbers and printed again, otherwise taken as they
-- are.
abbrev pub rule_of : Bool → Text → Text → Text → Rule
rule_of manager ip host port =
    if manager
    then record {
      host_port = itoa (atoi host).value;
      container_ip = ip;
      container_port = itoa (atoi port).value;
    }
    else record { host_port = host; container_ip = ip; container_port = port }

abbrev pub drop_rule : Iptables → Text → List Text → List Rule → List Rule
drop_rule manager ip (host ∷ port ∷ []) rules =
    remove_port_forward manager.deleted (rule_of manager.there ip host port) rules
drop_rule manager ip _ rules = rules

unfoldable pub drop_rules : Iptables → Text → List Text → List Rule → List Rule
unfolding remove_port_forward
drop_rules manager ip [] rules = rules
drop_rules manager ip (p ∷ ps) rules =
    drop_rules manager ip ps (drop_rule manager ip (split b':' p) rules)

-- The network manager is not on the disk, so it is made anew where iptables can be set up. The
-- address is given back to the daemon's own network. HostVeth is not on the disk either: it is
-- empty, and no link is deleted.
abbrev pub cleanup_bound : Iptables → Ipam.Fate → Container → Daemon Done
cleanup_bound manager w c = do
  if manager.there then on_net (release_ip w main_net_name c.id) else pure tt
  modify (λ t. record t { rules = drop_rules manager c.ip c.ports t.rules })

unfoldable pub cleanup_network : Iptables → Ipam.Fate → Container → Daemon Done
cleanup_network manager w c = if is_empty c.ip then pure tt else cleanup_bound manager w c

abbrev pub container_file : Text → Runtime → File Container
container_file hash s = elim (get hash s.containers) [ none ↦ absent | some f ↦ f ]

unfoldable pub read_container : Text → Daemon Container
unfolding read
read_container hash s = wrap load_failed (λ t. (read (container_file hash t), t)) s

-- `for` with `select`, where there is a process.
abbrev pub wait_for : ℕ → List Event → Daemon Done
wait_for pid events =
    if eqb pid 0
    then pure tt
    else elim (wait_loop events) [ none ↦ fail still_waiting | some sent ↦ pure tt ]

unfoldable pub drop_name : Fate → Container → Daemon Done
drop_name w c = if not (is_empty c.name) then on_names (unregister_name w.name c.id) else pure tt

unfoldable pub remove_dirs : Fate → Text → Daemon Done
remove_dirs w hash = do
  fail_if (not w.run_dir) remove_failed
  modify (λ t. record t { containers = remove hash t.containers })
  fail_if (not w.lib_dir) remove_failed

-- The part of `down` behind the wait.
unfoldable pub release_all : Fate → Text → Container → Daemon Done
release_all w hash c = do
  mark_all_unused w.volume c.id 0 c.volumes
  cleanup_network w.iptables w.net c
  drop_name w c
  remove_dirs w hash

unfoldable pub down : Fate → Text → Daemon Done
down w hash = do
  fail_if (is_empty hash) hash_required
  c ← read_container hash
  wait_for c.pid w.events
  release_all w hash c
