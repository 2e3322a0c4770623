-- ===== src/Container/Setup/Needs.antt =====
-- internal/container/setup.go: what a setup needs, and what it leaves.
use zylo.Prelude.{◌≡◌, ◌≢◌, refl, true, not, ◌∷◌, ok, err, arith, Bool-cases, inl, inr}
use zylo.Prelude.Actions.{guard_ok, bind_ok}
use zylo.Text.{Text, codes}
use zylo.Disk.{absent}
use zylo.Paths.{join_path, imgs_pth}
use zylo.Network
use zylo.Network.{Net, network_not_found, file_of, get_network}
use zylo.Resources.Mounts.{Mounted}
use zylo.Container.{Container}
use zylo.Container.Setup.{
  Host, SetupFate, dirs_failed, image_not_found, overlay_failed, network_failed, merged_root,
  overlay_options, add_resolv, setup,
}

abbrev pub overlay : Container → Mounted
overlay c = record {
  source = codes "overlay";
  target = merged_root c;
  fs_type = codes "overlay";
  flags = 0;
  options = overlay_options c;
}

get_network-absent :
    (name : Text) (s : Network.NetState)
    → file_of name s ≡ absent
    → get_network name s ≡ (err network_not_found, s)
unfolding get_network
get_network-absent name s e = rw e refl

add_resolv-absent :
    (w : SetupFate) (c : Container) (s : Host)
    → w.resolv_dir ≡ true
    → file_of c.network s.runtime.net ≡ absent
    → add_resolv w c s ≡ (err (network_failed network_not_found), s)
unfolding add_resolv
add_resolv-absent w c s hd e = ground (arith, get_network-absent c.network s.runtime.net e)

-- Where no network has the name that the container asks for, as where a ZyloFile names none, the
-- setup fails however the calls before go well: the network is not found, and the overlay stays mounted.
setup_without_network :
    (w : SetupFate) (c : Container) (s : Host)
    → w.dirs ≡ true
    → w.image (join_path imgs_pth c.image) ≡ true
    → w.overlay ≡ true
    → w.resolv_dir ≡ true
    → file_of c.network s.runtime.net ≡ absent
    → setup w c s
      ≡ (err (network_failed network_not_found), record s { mounts = overlay c ∷ s.mounts })
unfolding setup
setup_without_network w c s hd hi ho hr e =
    ground (arith, add_resolv-absent w c (record s { mounts = overlay c ∷ s.mounts }) hr e)

add_resolv-network :
    (w : SetupFate) (c : Container) (s : Host)
    → (add_resolv w c s).0 ≡ ok tt
    → file_of c.network s.runtime.net ≢ absent
unfolding add_resolv
add_resolv-network w c s h e = elim (Bool-cases w.resolv_dir) [
  | inl g ↦ let failed = add_resolv-absent w c s g e in ground arith
  | inr g ↦ ground arith
]

-- A setup that goes well has found the file of the network that the container asks for.
pub setup-network :
    (w : SetupFate) (c : Container) (s : Host)
    → (setup w c s).0 ≡ ok tt
    → file_of c.network s.runtime.net ≢ absent
unfolding setup
setup-network w c s h =
    let h1 = guard_ok (not w.dirs) dirs_failed _ s h in
    let h2 = guard_ok (not (w.image (join_path imgs_pth c.image))) image_not_found _ s h1 in
    let h3 = guard_ok (not w.overlay) overlay_failed _ s h2 in
    let t = record s { mounts = overlay c ∷ s.mounts } in
    let (u, added, h4, e4) = bind_ok (add_resolv w c) _ t tt h3 in add_resolv-network w c t added
