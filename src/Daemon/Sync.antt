-- ===== src/Daemon/Sync.antt =====
-- SyncAllHosts of network/sync.go: the hosts files that it leaves.
use zylo.Prelude.{
  ◌≡◌, refl, sym, subst, ◌∙◌, Bool, true, false, List, [], ◌∷◌, ◌++◌, Result, ok, err, arith, any,
  map, if◌then◌else◌, Bool-cases, inl, inr,
}
use zylo.Prelude.Actions.{Act, ◌>>◌}
use zylo.Text.{Text, ◌==◌}
use zylo.Text.Equality.{==_refl, ==_sound}
use zylo.Disk.{TextFile, has, holds, whole, missing, locked, write_text}
use zylo.Table.Laws.{get-put}
use zylo.Hosts.{base_content, all_entries, new_hosts_manager, update_all_containers}
use zylo.Network.{
  Net, NetState, Error, on_hosts, hosts_of, file_of, get_network, readable_networks, list_networks,
}
use zylo.Network.Laws.{file_of-on_hosts, get_network-holds}
use zylo.Daemon.{SyncFate, info_of, sync_network, sync_each, sync_all_hosts}

-- Every write for a network goes through.
pub record IsSmooth (w : SyncFate) : Type 0 where
  pub made : w.made ≡ true
  pub base : w.base ≡ whole
  pub all : w.all ≡ whole

-- The hosts file of a network as its configuration says it.
abbrev pub hosts_text : Net → Text
hosts_text config = base_content ++ all_entries (map info_of config.containers)

hosts_of-on_hosts {κ} :
    {E : Type κ} {A : Type 0} (network name : Text) (m : Act TextFile E A) (s : NetState)
    → hosts_of name (on_hosts network m s).1
      ≡ (if network == name then (m (hosts_of network s)).1 else hosts_of name s)
unfolding on_hosts hosts_of
hosts_of-on_hosts network name m s =
    ground (arith, get-put network name (m (hosts_of network s)).1 s.hosts)

update_lem :
    (w : SyncFate) (config : Net) (f : TextFile)
    → IsSmooth w
    → ((new_hosts_manager w.made w.base
          >> update_all_containers w.all (map info_of config.containers))
        f).1
      ≡ has (hosts_text config)
unfolding new_hosts_manager update_all_containers write_text
update_lem w config missing h = rw (h.made, h.base, h.all) refl
update_lem w config locked h = rw (h.made, h.all) refl
update_lem w config (has t) h = rw (h.made, h.all) refl

pub sync_network-file :
    (w : SyncFate) (n name : Text) (r : Result Error Net) (s : NetState)
    → file_of name (sync_network w n r s) ≡ file_of name s
sync_network-file w n name (err e) s = refl
sync_network-file w n name (ok config) s = file_of-on_hosts n name _ s

sync_network-hosts :
    (w : SyncFate) (n name : Text) (config : Net) (s : NetState)
    → IsSmooth w
    → (n == name) ≡ true
    → hosts_of name (sync_network w n (ok config) s) ≡ has (hosts_text config)
sync_network-hosts w n name config s h e =
    hosts_of-on_hosts n name _ s ∙ rw e (update_lem w config (hosts_of n s) h)

sync_step-hosts :
    (w : Text → SyncFate) (n name : Text) (config : Net) (s : NetState)
    → name ≡ n
    → IsSmooth (w name)
    → file_of name s ≡ holds config
    → hosts_of name (sync_network (w n) n (get_network n s).0 s) ≡ has (hosts_text config)
sync_step-hosts w n name config s p smooth file =
    subst
      (λ m. hosts_of name (sync_network (w m) m (get_network m s).0 s) ≡ has (hosts_text config)) p
      (rw (get_network-holds name s file)
        (sync_network-hosts (w name) name name config s smooth (==_refl name)))

sync_network_others :
    (w : SyncFate) (n name : Text) (r : Result Error Net) (s : NetState)
    → (n == name) ≡ false
    → hosts_of name (sync_network w n r s) ≡ hosts_of name s
sync_network_others w n name (err e) s ne = refl
sync_network_others w n name (ok config) s ne = hosts_of-on_hosts n name _ s ∙ rw ne refl

abbrev pub is_named : Text → Net → Bool
is_named name n = n.name == name

sync_each-hosts :
    (w : Text → SyncFate) (name : Text) (config : Net) (ns : List Net) (s : NetState)
    → IsSmooth (w name)
    → file_of name s ≡ holds config
    → (any (is_named name) ns ≡ false → hosts_of name s ≡ has (hosts_text config))
    → hosts_of name (sync_each w ns s) ≡ has (hosts_text config)
unfolding sync_each
sync_each-hosts w name config [] s smooth file h = h refl
sync_each-hosts w name config (n ∷ ns) s smooth file h =
    let t = sync_network (w n.name) n.name (get_network n.name s).0 s in
    let kept = sync_network-file (w n.name) n.name name (get_network n.name s).0 s ∙ file in
    sync_each-hosts w name config ns t smooth kept λ gone. elim (Bool-cases (is_named name n)) [
      | inl e ↦ sync_step-hosts w n.name name config s (sym (==_sound n.name name e)) smooth file
      | inr e ↦
          sync_network_others (w n.name) n.name name (get_network n.name s).0 s e ∙ h (rw e gone)
    ]

-- Where a network of this name is listed and its writes go through, its hosts file holds the base
-- text and then one line for each container of its configuration, whatever it held before and
-- whatever happens to the other networks.
pub sync_all_hosts-hosts :
    (w : Text → SyncFate) (name : Text) (config : Net) (s : NetState)
    → IsSmooth (w name)
    → file_of name s ≡ holds config
    → any (is_named name) (readable_networks s.networks) ≡ true
    → hosts_of name (sync_all_hosts w s).1 ≡ has (hosts_text config)
unfolding sync_all_hosts list_networks
sync_all_hosts-hosts w name config s smooth file listed =
    sync_each-hosts w name config (readable_networks s.networks) s smooth file (λ h. cc)
