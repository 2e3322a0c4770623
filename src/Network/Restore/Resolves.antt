-- ===== src/Network/Restore/Resolves.antt =====
-- RestoreNetworks of network/config.go after AllocateIP of network/ipam.go: what the server of names
-- of a network answers.
use zylo.Prelude.{
  ◌≡◌, ◌≢◌, ◌⊎◌, inl, inr, refl, sym, subst, ◌∙◌, Bool, false, not, ◌&&◌, some, List, [], ◌∷◌, ok,
  any, Bool-cases, arith,
}
use zylo.Text.{Text, ◌==◌}
use zylo.Text.Equality.{==_refl, ==_ne}
use zylo.Disk.{File, holds, absent, unreadable, malformed, written}
use zylo.Table.{Table, get, put}
use zylo.Paths.{main_net_name}
use zylo.Network.{Net, NetState, ContainerNetInfo, file_of}
use zylo.Network.Create.{Links}
use zylo.Network.Ipam.{Fate, with_container, allocate_ip}
use zylo.Network.Ipam.Lookup.{allocate_ip-holds}
use zylo.Network.Restore.{Restored, resolve, get_all_networks, restore_each, restore_networks}

-- An entry of another container that goes by the name.
abbrev pub is_other : Text → Text → Text × ContainerNetInfo → Bool
is_other id name (j, c) = not (j == id) && c.name == name

resolve-put :
    (id : Text) (c : ContainerNetInfo) (cs : Table ContainerNetInfo)
    → any (is_other id c.name) cs ≡ false
    → resolve (put id c cs) c.name ≡ some c.ip
unfolding resolve put
resolve-put id c [] h = rw (==_refl c.name) refl
resolve-put id c ((j, d) ∷ cs) h = ground (arith, ==_refl c.name, resolve-put id c cs)

-- A server of names is made for some network of the name, and its resolver gives the address.
abbrev pub Serves : Text → Text → Text → List Restored → Type 0
Serves network name ip [] = ⊥
Serves network name ip (r ∷ rs) =
    ((r.name ≡ network) × (resolve r.server.containers name ≡ some ip)) ⊎ Serves network name ip rs

module _ (k : Text → Links) (name ip : Text) where
  restore_head :
      (config : Net) (ns : List Net)
      → config.name ≢ main_net_name
      → resolve config.containers name ≡ some ip
      → Serves config.name name ip (restore_each k (config ∷ ns))
  unfolding restore_each
  restore_head config ns ne h = rw (==_ne config.name main_net_name ne) (inl (refl, h))

  restore_tail :
      (network : Text) (config : Net) (ns : List Net)
      → Serves network name ip (restore_each k ns)
      → Serves network name ip (restore_each k (config ∷ ns))
  unfolding restore_each
  restore_tail network config ns h = elim (Bool-cases (config.name == main_net_name)) [
    | inl e ↦ rw e h
    | inr e ↦ rw e (inr h)
  ]

  restore_skip :
      (network j : Text) (f : File Net) (files : Table (File Net))
      → Serves network name ip (restore_each k (get_all_networks files))
      → Serves network name ip (restore_each k (get_all_networks ((j, f) ∷ files)))
  unfolding get_all_networks
  restore_skip network j absent files h = h
  restore_skip network j unreadable files h = h
  restore_skip network j malformed files h = h
  restore_skip network j (holds config) files h =
      restore_tail network config (get_all_networks files) h

  restore_listed :
      (key : Text) (config : Net) (files : Table (File Net))
      → get key files ≡ some (holds config)
      → config.name ≢ main_net_name
      → resolve config.containers name ≡ some ip
      → Serves config.name name ip (restore_each k (get_all_networks files))
  unfolding get get_all_networks
  restore_listed key config [] g ne h = absurd (cc)
  restore_listed key config ((j, f) ∷ files) g ne h = elim (Bool-cases (j == key)) [
    | inl e ↦
        (let found : f ≡ holds config = ground (arith, e) in
          rw found (restore_head config (get_all_networks files) ne h))
    | inr e ↦ restore_skip config.name j f files (restore_listed key config files (rw e at g) ne h)
  ]

get-file_of :
    (network : Text) (config : Net) (s : NetState)
    → file_of network s ≡ holds config
    → get network s.networks ≡ some (holds config)
unfolding file_of
get-file_of network config s h = ground arith

-- Where the network's file holds its configuration, the write goes through, the network is not the
-- main one and no other container in it goes by the name, an allocation that succeeds is seen by
-- RestoreNetworks, where it runs on the files as the allocation left them: the resolver that it hands to
-- the server of names of the network, whether or not that server is heard of in time, gives for the
-- name of the container the address that the allocation returned.
pub restore_networks-allocate_ip :
    (k : Text → Links) (w : Fate) (network id name : Text) (s : NetState) (config : Net) {ip : Text}
    → w.config ≡ written
    → file_of network s ≡ holds config
    → config.name ≡ network
    → network ≢ main_net_name
    → any (is_other id name) config.containers ≡ false
    → (allocate_ip w network id name s).0 ≡ ok ip
    → Serves network name ip (restore_networks k (allocate_ip w network id name s).1)
unfolding restore_networks
restore_networks-allocate_ip k w network id name s config {ip} hw hf hn ne only ha =
    let t = (allocate_ip w network id name s).1 in
    let config' = with_container id name ip config in
    let file = allocate_ip-holds w network id name s config hw hf hn ha in
    let c : ContainerNetInfo = record { id = id; name = name; ip = ip } in
    subst (λ n. Serves n name ip (restore_each k (get_all_networks t.networks))) hn
      (restore_listed k name ip network config' t.networks (get-file_of network config' t file)
        (λ e. ne (sym hn ∙ e)) (resolve-put id c config.containers only))
