-- ===== src/Daemon/Release.antt =====
-- releaseContainerFromAllNetworks of daemon/cleanup.go: the addresses afterwards.
use zylo.Prelude.{
  ◌≡◌, ◌≢◌, refl, sym, subst, ◌∙◌, true, false, none, List, [], ◌∷◌, Result, ok, err, arith, any,
  Bool-cases, inl, inr,
}
use zylo.Text.{Text}
use zylo.Text.Equality.{==_iff, ==_sound, ==_refl}
use zylo.Disk.{holds, written}
use zylo.Table.{get, remove}
use zylo.Table.Laws.{get-remove}
use zylo.Network.{
  Net, NetState, Error, file_of, get_network, container_not_found, readable_networks, list_networks,
}
use zylo.Network.Laws.{get_network-holds}
use zylo.Network.Ipam
use zylo.Network.Ipam.{release_ip, get_container_ip}
use zylo.Network.Ipam.Distinct.{IsGood, IsSound, release_ip-IsSound}
use zylo.Network.Ipam.Others.{release_ip_others}
use zylo.Network.Ipam.Lookup.{release_ip_lem, get_container_ip_lem}
use zylo.Daemon.{has_entry, release_if, release_from, release_container_from_all_networks}
use zylo.Daemon.Sync.{is_named}

-- The network's file holds a configuration without the container.
abbrev Gone : Text → Text → NetState → Type 0
Gone name id s =
    (config : Net) × (file_of name s ≡ holds config) × (get id config.containers ≡ none)

release_if-IsSound :
    (w : Ipam.Fate) (id n : Text) (r : Result Error Net) (s : NetState)
    → IsSound s
    → IsSound (release_if w id n r s)
release_if-IsSound w id n (err e) s h = h
release_if-IsSound w id n (ok config) s h = elim (Bool-cases (has_entry id config)) [
  | inl e ↦ rw e (release_ip-IsSound w n id s h)
  | inr e ↦ rw e h
]

release_if_others :
    (w : Ipam.Fate) (id n name : Text) (r : Result Error Net) (s : NetState)
    → IsSound s
    → n ≢ name
    → file_of name (release_if w id n r s) ≡ file_of name s
release_if_others w id n name (err e) s h ne = refl
release_if_others w id n name (ok config) s h ne = elim (Bool-cases (has_entry id config)) [
  | inl e ↦ rw e (release_ip_others w n name id s h ne)
  | inr e ↦ rw e refl
]

release_if-Gone :
    (w : Ipam.Fate) (id name : Text) (config : Net) (s : NetState)
    → w.config ≡ written
    → file_of name s ≡ holds config
    → config.name ≡ name
    → Gone name id (release_if w id name (ok config) s)
release_if-Gone w id name config s hw file named = elim (Bool-cases (has_entry id config)) [
  | inl e ↦ rw e (
    record config { containers = remove id config.containers },
    (release_ip_lem w name id s config hw file named).1,
    get-remove id id config.containers ∙ rw (==_refl id) refl,
  )
  | inr e ↦ rw e (config, file, ground arith)
]

release_step-Gone :
    (w : Text → Ipam.Fate) (id n name : Text) (config : Net) (s : NetState)
    → name ≡ n
    → IsSound s
    → (w name).config ≡ written
    → file_of name s ≡ holds config
    → Gone name id (release_if (w n) id n (get_network n s).0 s)
release_step-Gone w id n name config s p h hw file =
    let named = (subst (IsGood name) file (h.at_name name)).0 in
    subst (λ m. Gone name id (release_if (w m) id m (get_network m s).0 s)) p
      (rw (get_network-holds name s file) (release_if-Gone (w name) id name config s hw file named))

release_from-Gone :
    (w : Text → Ipam.Fate) (id name : Text) (ns : List Net) (config : Net) (s : NetState)
    → (w name).config ≡ written
    → IsSound s
    → file_of name s ≡ holds config
    → (any (is_named name) ns ≡ false → get id config.containers ≡ none)
    → Gone name id (release_from w id ns s)
unfolding release_from
release_from-Gone w id name [] config s hw h file gone = (config, file, gone refl)
release_from-Gone w id name (n ∷ ns) config s hw h file gone =
    let r = (get_network n.name s).0 in
    let t = release_if (w n.name) id n.name r s in
    let sound = release_if-IsSound (w n.name) id n.name r s h in
    elim (Bool-cases (is_named name n)) [
      | inl e ↦
          let (after, holds_after, none_after) =
            release_step-Gone w id n.name name config s (sym (==_sound n.name name e)) h hw file in
          release_from-Gone w id name ns after t hw sound holds_after (λ _. none_after)
      | inr e ↦
          let ne : n.name ≢ name = ground (arith, ==_iff n.name name) in
          release_from-Gone w id name ns config t hw sound
            (release_if_others (w n.name) id n.name name r s h ne ∙ file) (λ g. gone (rw e g))
    ]

-- Where each file holds the network that it is named for, with no address twice, and where the
-- writes for a listed network go through, a container that is released from all networks has no
-- address in that network any more, whatever happens to the other networks.
pub release_container-address :
    (w : Text → Ipam.Fate) (id name : Text) (config : Net) (s : NetState)
    → (w name).config ≡ written
    → IsSound s
    → file_of name s ≡ holds config
    → any (is_named name) (readable_networks s.networks) ≡ true
    → (get_container_ip name id (release_container_from_all_networks w id s)).0
      ≡ err container_not_found
unfolding release_container_from_all_networks list_networks
release_container-address w id name config s hw h file listed =
    let t = release_from w id (readable_networks s.networks) s in
    let (after, holds_after, none_after) =
      release_from-Gone w id name (readable_networks s.networks) config s hw h file (λ e. cc) in
    get_container_ip_lem name id t after holds_after ∙ rw none_after refl
