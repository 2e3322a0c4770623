-- ===== src/Network/Ipam/Distinct.antt =====
-- network/ipam.go: the addresses of a network, call by call.
use zylo.Prelude.{
  ◌≡◌, refl, false, Option, none, some, List, [], ◌∷◌, arith, subst, Bool-cases, inl, inr,
}
use zylo.Text.{Text, ◌==◌, is_empty, split}
use zylo.Text.Equality.{==_iff, ==_sound}
use zylo.Disk.{TextFile, File, Write, holds, write}
use zylo.Table.{Table, get, put, remove, some_value}
use zylo.Table.Laws.{some_value-put, some_value-remove}
use zylo.Prelude.Actions.{Act, pure, ignore, ◌>>◌, wrap, lift, bind_inv}
use zylo.Network.{
  Net, ContainerNetInfo, NetState, save_failed, file_of, on_hosts, save_config, get_network,
}
use zylo.Network.Laws.{file_of-save_config, file_of-on_hosts, holds-get_network, get_network_same}
use zylo.Network.Ipam.{
  with_container, add_to_hosts, take_ip, remove_from_hosts, drop_hosts, Fate, has_ip, base_of,
  free_ip, rounds, allocate_ip, release_ip,
}
use zylo.Network.Ipam.Free.{free_ip-IsLowest}

abbrev pub IpsDistinct : Table ContainerNetInfo → Type 0
IpsDistinct [] = Unit
IpsDistinct ((k, c) ∷ t) = (some_value (has_ip c.ip) t ≡ false) × IpsDistinct t

IpsDistinct-remove :
    (k : Text) (t : Table ContainerNetInfo) → IpsDistinct t → IpsDistinct (remove k t)
unfolding remove
IpsDistinct-remove k [] h = tt
IpsDistinct-remove k ((j, c) ∷ t) h =
    ground (arith, IpsDistinct-remove k t h.1, some_value-remove (has_ip c.ip) k t)

IpsDistinct-put :
    (k : Text) (c : ContainerNetInfo) (t : Table ContainerNetInfo)
    → some_value (has_ip c.ip) t ≡ false
    → IpsDistinct t
    → IpsDistinct (put k c t)
unfolding put some_value
IpsDistinct-put k c [] free h = (refl, tt)
IpsDistinct-put k c ((j, d) ∷ t) free h = ground (
  arith,
  IpsDistinct-put k c t,
  some_value-put (has_ip d.ip) k c t,
  ==_iff c.ip d.ip,
  ==_iff d.ip c.ip,
)

-- A file that holds a network is the file of that network, and its addresses are distinct.
abbrev pub IsGood : Text → File Net → Type 0
IsGood name (File.holds config) = (config.name ≡ name) × IpsDistinct config.containers
IsGood name _ = Unit

pub record IsSound (s : NetState) : Type 0 where
  pub at_name : (name : Text) → IsGood name (file_of name s)

write-IsGood :
    (w : Write) (config : Net) (f : File Net)
    → IsGood config.name f
    → IpsDistinct config.containers
    → IsGood config.name (write w config f).1
unfolding write
write-IsGood w config f h d = ground arith

pub save_config-IsSound :
    (w : Write) (config : Net) (s : NetState)
    → IpsDistinct config.containers
    → IsSound s
    → IsSound (save_config w config s).1
save_config-IsSound w config s d h = record {
  at_name = λ name.
      rw (file_of-save_config w config name s) (elim (Bool-cases (config.name == name)) [
        | inl e ↦ rw e (
            subst (λ n. IsGood n (write w config (file_of config.name s)).1)
              (==_sound config.name name e)
              (write-IsGood w config (file_of config.name s) (h.at_name config.name) d))
        | inr e ↦ rw e (h.at_name name)
      ]);
}

on_hosts-IsSound {κ} :
    {E : Type κ} {A : Type 0} (network : Text) (m : Act TextFile E A) (s : NetState)
    → IsSound s
    → IsSound (on_hosts network m s).1
on_hosts-IsSound network m s h = record {
  at_name = λ name. rw (file_of-on_hosts network name m s) (h.at_name name);
}

add_to_hosts-IsSound :
    (w : Fate) (network ip name : Text) (s : NetState)
    → IsSound s
    → IsSound (add_to_hosts w network ip name s).1
unfolding add_to_hosts
add_to_hosts-IsSound w network ip name s h = on_hosts-IsSound network _ s h

take_ip-IsSound :
    (w : Fate) (network id name : Text) (config : Net) (ip : Text) (s : NetState)
    → IpsDistinct config.containers
    → some_value (has_ip ip) config.containers ≡ false
    → IsSound s
    → IsSound (take_ip w network id name config ip s).1
unfolding take_ip
take_ip-IsSound w network id name config ip s d free h =
    let config' = with_container id name ip config in
    let added =
      IpsDistinct-put id (record { id = id; name = name; ip = ip }) config.containers free d in
    let saved = save_config-IsSound w.config config' s added h in
    bind_inv IsSound (wrap save_failed (save_config w.config config'))
      (λ _. ignore (add_to_hosts w network ip name) >> pure ip) s saved
      (λ _ _. add_to_hosts-IsSound w network ip name (save_config w.config config' s).1 saved)

-- A network that was read has distinct addresses.
holds-IpsDistinct :
    (network : Text) (s : NetState) {config : Net}
    → IsSound s
    → file_of network s ≡ holds config
    → IpsDistinct config.containers
holds-IpsDistinct network s h e = ground (arith, h.at_name network)

pub allocate_ip-IsSound :
    (w : Fate) (network id name : Text) (s : NetState)
    → IsSound s
    → IsSound (allocate_ip w network id name s).1
unfolding allocate_ip
allocate_ip-IsSound w network id name s h =
    let kept : IsSound (get_network network s).1 = rw (get_network_same network s) h in
    bind_inv IsSound (get_network network) _ s kept λ config read.
      bind_inv IsSound (lift (base_of (split b'.' config.gateway))) _ (get_network network s).1 kept
        λ base _.
          bind_inv IsSound (lift (free_ip rounds 2 base config.containers)) _
            (get_network network s).1 kept
            λ ip found.
              take_ip-IsSound w network id name config ip (get_network network s).1
                (holds-IpsDistinct network s h (holds-get_network network s read))
                (free_ip-IsLowest rounds 2 base config.containers ip found).is_free kept

drop_hosts-IsSound :
    (w : Fate) (network : Text) (o : Option ContainerNetInfo) (s : NetState)
    → IsSound s
    → IsSound (drop_hosts w network o s).1
unfolding drop_hosts remove_from_hosts
drop_hosts-IsSound w network none s h = h
drop_hosts-IsSound w network (some c) s h = elim (Bool-cases (is_empty c.name)) [
  | inl e ↦ rw e h
  | inr e ↦ rw e (on_hosts-IsSound network _ s h)
]

pub release_ip-IsSound :
    (w : Fate) (network id : Text) (s : NetState)
    → IsSound s
    → IsSound (release_ip w network id s).1
unfolding release_ip
release_ip-IsSound w network id s h =
    let kept : IsSound (get_network network s).1 = rw (get_network_same network s) h in
    bind_inv IsSound (get_network network) _ s kept λ config read.
      let o = get id config.containers in
      let dropped = drop_hosts-IsSound w network o (get_network network s).1 kept in
      bind_inv IsSound (drop_hosts w network o) _ (get_network network s).1 dropped λ _ _.
        save_config-IsSound w.config (record config { containers = remove id config.containers })
          (drop_hosts w network o (get_network network s).1).1
          (IpsDistinct-remove id config.containers
            (holds-IpsDistinct network s h (holds-get_network network s read)))
          dropped

-- The calls that change the addresses, each with how its writes go.
pub data Call : Type 0 where
  allocate : Fate → Text → Text → Text → Call
  release : Fate → Text → Text → Call

unfoldable pub perform : Call → NetState → NetState
perform (allocate w network id name) s = (allocate_ip w network id name s).1
perform (release w network id) s = (release_ip w network id s).1

unfoldable pub perform_all : List Call → NetState → NetState
unfolding perform
perform_all [] s = s
perform_all (c ∷ cs) s = perform_all cs (perform c s)

perform-IsSound : (c : Call) (s : NetState) → IsSound s → IsSound (perform c s)
unfolding perform
perform-IsSound (allocate w network id name) s h = allocate_ip-IsSound w network id name s h
perform-IsSound (release w network id) s h = release_ip-IsSound w network id s h

-- From networks whose files hold the network that they are named for, with no address at two
-- containers of one network, any allocations and releases, one after another, with writes that
-- succeed or fail in any way, lead to such networks.
pub address_calls-IsSound : (cs : List Call) (s : NetState) → IsSound s → IsSound (perform_all cs s)
unfolding perform_all
address_calls-IsSound [] s h = h
address_calls-IsSound (c ∷ cs) s h = address_calls-IsSound cs (perform c s) (perform-IsSound c s h)
