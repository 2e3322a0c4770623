-- ===== src/Network/Ipam/Others.antt =====
-- network/ipam.go: a release, seen from the other networks.
use zylo.Prelude.{◌≡◌, refl, ◌≢◌, ◌∙◌, sym, Option, none, some, ok, arith, Bool-cases, inl, inr}
use zylo.Prelude.Actions.{bind_inv}
use zylo.Text.{Text, is_empty}
use zylo.Text.Equality.{==_ne}
use zylo.Disk.{Write}
use zylo.Table.{get, remove}
use zylo.Network.{Net, ContainerNetInfo, NetState, file_of, save_config, get_network}
use zylo.Network.Laws.{file_of-save_config, file_of-on_hosts, get_network_same, holds-get_network}
use zylo.Network.Ipam.{Fate, release_ip, drop_hosts, remove_from_hosts}
use zylo.Network.Ipam.Distinct.{IsSound}

save_config_others :
    (w : Write) (config : Net) (other : Text) (s : NetState)
    → config.name ≢ other
    → file_of other (save_config w config s).1 ≡ file_of other s
save_config_others w config other s ne =
    ground (arith, file_of-save_config w config other s, ==_ne config.name other ne)

drop_hosts_others :
    (w : Fate) (network other : Text) (o : Option ContainerNetInfo) (s : NetState)
    → file_of other (drop_hosts w network o s).1 ≡ file_of other s
unfolding drop_hosts remove_from_hosts
drop_hosts_others w network other none s = refl
drop_hosts_others w network other (some c) s = elim (Bool-cases (is_empty c.name)) [
  | inl e ↦ rw e refl
  | inr e ↦ rw e (file_of-on_hosts network other _ s)
]

read_name :
    (network : Text) (s : NetState) {config : Net}
    → IsSound s
    → (get_network network s).0 ≡ ok config
    → config.name ≡ network
read_name network s h e = ground (arith, h.at_name network, holds-get_network network s e)

-- A release in one network, whatever comes of it, leaves the file of every other network as it was,
-- where each file holds the network that it is named for.
pub release_ip_others :
    (w : Fate) (network other id : Text) (s : NetState)
    → IsSound s
    → network ≢ other
    → file_of other (release_ip w network id s).1 ≡ file_of other s
unfolding release_ip
release_ip_others w network other id s h ne =
    let same = get_network_same network s in
    let t = (get_network network s).1 in
    let Keeps = λ (u : NetState). file_of other u ≡ file_of other s in
    let kept : Keeps t = rw same refl in
    bind_inv Keeps (get_network network) _ s kept λ config read.
      let o = get id config.containers in
      let dropped : Keeps (drop_hosts w network o t).1 =
        drop_hosts_others w network other o t ∙ kept in
      bind_inv Keeps (drop_hosts w network o) _ t dropped λ _ _.
        save_config_others w.config (record config { containers = remove id config.containers })
          other (drop_hosts w network o t).1 (λ e. ne (sym (read_name network s h read) ∙ e))
        ∙ dropped
