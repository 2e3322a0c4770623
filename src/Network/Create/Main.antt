-- ===== src/Network/Create/Main.antt =====
-- EnsureDefaultNetwork of network/manager.go: the main network is there afterwards.
use zylo.Prelude.{
  ◌≡◌, refl, ap, ◌∙◌, Bool, true, false, Result, ok, Bool-cases, inl, inr, if◌then◌else◌,
}
use zylo.Prelude.Actions.{Done, bind_ok, unwrap_ok, wrap, lift, pure}
use zylo.Text.{Text}
use zylo.Disk.{Write, holds, written, no_dir, not_opened, torn, late}
use zylo.Paths.{main_net_name}
use zylo.Network.{Net, NetState, file_of, get_network, save_config, network_exists}
use zylo.Network.Laws.{holds-get_network, get_network_same, save_config-holds}
use zylo.Network.Subnet.{Outside, find_free_subnet}
use zylo.Network.Create.{
  Error, Links, network_failed, save_failed, default_net, restore_network, restore_default,
  make_default, ensure_default_network,
}

-- The file of the main network holds a configuration.
abbrev pub HasMain : NetState → Type 0
HasMain s = (config : Net) × (file_of main_net_name s ≡ holds config)

save_config-written :
    (w : Write) (config : Net) (s : NetState) → (save_config w config s).0 ≡ ok tt → w ≡ written
unfolding save_config
save_config-written written config s h = refl
save_config-written no_dir config s h = absurd (cc)
save_config-written not_opened config s h = absurd (cc)
save_config-written torn config s h = absurd (cc)
save_config-written late config s h = absurd (cc)

linked_same :
    (b : Bool) (r : Result Error Done) (t : NetState) → ((if b then pure tt else lift r) t).1 ≡ t
linked_same true r t = refl
linked_same false r t = refl

restore_default-HasMain :
    (k : Links) (s : NetState) → (restore_default k s).0 ≡ ok tt → HasMain (restore_default k s).1
restore_default-HasMain k s h =
    let (config, got, rest, over) =
      bind_ok (wrap network_failed (get_network main_net_name)) _ s tt h in
    let file =
      holds-get_network main_net_name s
        (unwrap_ok network_failed (get_network main_net_name) s got) in
    let same =
      over ∙ linked_same k.bridge (restore_network k config) _ ∙ get_network_same main_net_name s in
    (config, ap (file_of main_net_name) same ∙ file)

make_default-HasMain :
    (k : Links) (o : Outside) (w : Write) (id now : Text) (s : NetState)
    → (make_default k o w id now s).0 ≡ ok tt
    → HasMain (make_default k o w id now s).1
make_default-HasMain k o w id now s h =
    let (pair, found, rest, over) = bind_ok (wrap network_failed (find_free_subnet o)) _ s tt h in
    let t = (find_free_subnet o s).1 in
    let config = default_net id now pair in
    let (u, saved, end, last) = bind_ok (wrap save_failed (save_config w config)) _ t tt rest in
    let done =
      save_config-written w config t (unwrap_ok save_failed (save_config w config) t saved) in
    (
      config,
      ap (file_of main_net_name) (over ∙ last)
          ∙ save_config-holds w config main_net_name t done refl,
    )

-- Where EnsureDefaultNetwork returns without an error, the file of the main network holds a
-- configuration.
pub ensure_default_network-HasMain :
    (k : Links) (o : Outside) (w : Write) (id now : Text) (s : NetState)
    → (ensure_default_network k o w id now s).0 ≡ ok tt
    → HasMain (ensure_default_network k o w id now s).1
unfolding ensure_default_network
ensure_default_network-HasMain k o w id now s h =
    elim (Bool-cases (network_exists main_net_name s)) [
      | inl e ↦ rw e (restore_default-HasMain k s (rw e at h))
      | inr e ↦ rw e (make_default-HasMain k o w id now s (rw e at h))
    ]
