-- ===== src/Network/Create/Fresh.antt =====
-- CreateNetwork of network/methods.go: the network that it leaves.
use zylo.Prelude.{◌<◌, ◌≡◌, refl, ap, subst, ◌≢◌, ◌∙◌, sym, [], not, length, ok, arith}
use zylo.Prelude.Actions.{Done, wrap, lift, fail_if, pure, ◌>>◌, bind_ok, unwrap_ok}
use zylo.Text.{Text}
use zylo.Disk.{Write, File, holds, written, write}
use zylo.Network.{Net, NetState, file_of, save_config}
use zylo.Network.Laws.{save_config-holds}
use zylo.Network.Ipam
use zylo.Network.Ipam.{allocate_ip}
use zylo.Network.Subnet.{Outside, find_free_subnet, gateway_at}
use zylo.Network.Subnet.Lowest.{IsLowest, find_free_subnet-IsLowest}
use zylo.Network.Subnet.Gateway.{allocate_ip-gateway}
use zylo.Network.Create.{
  Error, save_failed, dns_failed, restore_network, network_failed, Links, created_net,
  create_network,
}

written_ok : (w : Write) (config : Net) (f : File Net) → (write w config f).0 ≡ ok tt → w ≡ written
unfolding write
written_ok Write.written config f h = refl
written_ok Write.no_dir config f h = absurd (cc)
written_ok Write.not_opened config f h = absurd (cc)
written_ok Write.torn config f h = absurd (cc)
written_ok Write.late config f h = absurd (cc)

saved_ok :
    (w : Write) (config : Net) (s : NetState) {u : Done}
    → (wrap save_failed (save_config w config) s).0 ≡ ok u
    → w ≡ written
unfolding save_config
saved_ok w config s h =
    written_ok w config (file_of config.name s) (unwrap_ok save_failed (save_config w config) s h)

-- What comes after the file is written leaves the files alone.
rest_ok :
    (k : Links) (m n : Net) (s : NetState)
    → ((lift (restore_network k m) >> (fail_if (not k.dns) dns_failed >> pure m)) s).0 ≡ ok n
    → (m ≡ n)
      × (((lift (restore_network k m) >> (fail_if (not k.dns) dns_failed >> pure {E = Error} m))
            s).1
          ≡ s)
rest_ok k m n s h = ground arith

create_network-ok :
    (k : Links) (o : Outside) (w : Write) (id name : Text) (s : NetState) (n : Net)
    → (create_network k o w id name s).0 ≡ ok n
    → (pair : Text × Text) × ((find_free_subnet o s).0 ≡ ok pair)
      × (n ≡ created_net name id pair)
      × (w ≡ written)
      × ((create_network k o w id name s).1 ≡ (save_config w n s).1)
unfolding create_network find_free_subnet
create_network-ok k o w id name s n h =
    let (pair, found, h1, e1) = bind_ok (wrap network_failed (find_free_subnet o)) _ s n h in
    let m = created_net name id pair in
    let (u, saved, h2, e2) = bind_ok (wrap save_failed (save_config w m)) _ s n h1 in
    let (same, e3) = rest_ok k m n (save_config w m s).1 h2 in
    (
      pair,
      unwrap_ok network_failed (find_free_subnet o) s found,
      sym same,
      saved_ok w m s saved,
      e1 ∙ e2 ∙ e3 ∙ ap (λ x. (save_config w x s).1) same,
    )

-- Where CreateNetwork succeeds, the network's file holds the network, with no container in it, and
-- the subnet and the gateway of the lowest number from 1 to 254 whose subnet no saved network which can
-- be read had, and was neither the address of an interface, written with the length of its prefix, nor
-- a word of the routes with a slash. An allocation in it whose write goes through then gives an address, which is not the gateway's.
pub create_network-allocate_ip :
    (k : Links) (o : Outside) (w : Write) (v : Ipam.Fate) (id name ctr ctr_name : Text)
    (s : NetState) (n : Net)
    → (create_network k o w id name s).0 ≡ ok n
    → v.config ≡ written
    → IsLowest o s (n.subnet, n.gateway)
      × (file_of name (create_network k o w id name s).1 ≡ holds n)
      × (n.containers ≡ [])
      × ((ip : Text) × ((allocate_ip v name ctr ctr_name (create_network k o w id name s).1).0
            ≡ ok ip)
          × (ip ≢ n.gateway))
create_network-allocate_ip k o w v id name ctr ctr_name s n h hv =
    let (pair, found, made, hw, after) = create_network-ok k o w id name s n h in
    let least = find_free_subnet-IsLowest o s pair found in
    let named : n.name ≡ name = ap (λ x. x.name) made in
    let held = ap (file_of name) after ∙ save_config-holds w n name s hw named in
    let empty : n.containers ≡ [] = ap (λ x. x.containers) made in
    let gate : n.gateway ≡ gateway_at least.part =
      ap (λ x. x.gateway) made ∙ ap (λ q. q.1) least.pair in
    (
      subst (λ x. IsLowest o s (x.subnet, x.gateway)) (sym made) least,
      held,
      empty,
      allocate_ip-gateway v least.part name ctr ctr_name _ n hv held named gate
          (subst (λ t. length t < 253) (sym empty) (omega arith)),
    )
