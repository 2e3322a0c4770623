-- ===== src/Container/Down/Effects.antt =====
-- `down` of internal/container/runtime_cleanup.go, seen from the networks.
use zylo.Prelude.{
  ℕ, suc, subst, ◌≡◌, refl, ◌≢◌, ◌∙◌, sym, Bool, true, false, not, List, [], ◌∷◌, arith, Bool-cases,
  inl, inr,
}
use zylo.Prelude.Actions.{bind_inv, Done, ◌>>=◌, ◌>>◌, fail_if}
use zylo.Text.{Text, is_empty}
use zylo.Disk.{Write}
use zylo.Paths.{main_net_name}
use zylo.Zylofile.{Mount}
use zylo.Network.{file_of}
use zylo.Network.Ipam
use zylo.Network.Ipam.{release_ip}
use zylo.Network.Ipam.Distinct.{IsSound, release_ip-IsSound}
use zylo.Network.Ipam.Others.{release_ip_others}
use zylo.Container.{Rule, Container, Runtime, Daemon, Error, remove_failed, hash_required}
use zylo.Container.Down.Wait.{Event}
use zylo.Container.Down.{
  Iptables, Fate, on_net, on_names, on_volumes, mark_all_unused, cleanup_bound, cleanup_network,
  drop_name, remove_dirs, wait_for, read_container, release_all, down,
}

pub mark_all_unused-net :
    (w : ℕ → Write) (id : Text) (n : ℕ) (vs : List Mount) (s : Runtime)
    → (mark_all_unused w id n vs s).1.net ≡ s.net
unfolding mark_all_unused on_volumes
mark_all_unused-net w id n [] s = refl
mark_all_unused-net w id n (v ∷ vs) s = mark_all_unused-net w id (suc n) vs _

-- The file of another network is as it was, and the networks are sound.
abbrev KeepsNet : Text → Runtime → Runtime → Type 0
KeepsNet other s t = (file_of other t.net ≡ file_of other s.net) × IsSound t.net

mark_all_unused-KeepsNet :
    (w : ℕ → Write) (id : Text) (n : ℕ) (vs : List Mount) (other : Text) (s t : Runtime)
    → KeepsNet other s t
    → KeepsNet other s (mark_all_unused w id n vs t).1
mark_all_unused-KeepsNet w id n vs other s t h =
    subst (λ net. (file_of other net ≡ file_of other s.net) × IsSound net)
      (sym (mark_all_unused-net w id n vs t)) h

cleanup_network-KeepsNet :
    (manager : Iptables) (w : Ipam.Fate) (c : Container) (other : Text) (s t : Runtime)
    → main_net_name ≢ other
    → KeepsNet other s t
    → KeepsNet other s (cleanup_network manager w c t).1
unfolding cleanup_network on_net
cleanup_network-KeepsNet manager w c other s t ne h = elim (Bool-cases (is_empty c.ip)) [
  | inl e ↦ rw e h
  | inr e ↦ rw e (released manager.there manager.deleted)
]
  where
    released :
        (there : Bool) (deleted : Rule → Bool)
        → KeepsNet other s (cleanup_bound (record { there = there; deleted = deleted }) w c t).1
    released false deleted = h
    released true deleted = (
      release_ip_others w main_net_name other c.id t.net h.1 ne ∙ h.0,
      release_ip-IsSound w main_net_name c.id t.net h.1,
    )

drop_name-net : (w : Fate) (c : Container) (s : Runtime) → (drop_name w c s).1.net ≡ s.net
unfolding drop_name on_names
drop_name-net w c s = elim (Bool-cases (is_empty c.name)) [ inl e ↦ rw e refl | inr e ↦ rw e refl ]

fail_if-net : (b : Bool) (e : Error) (s : Runtime) → (fail_if b e s).1.net ≡ s.net
fail_if-net true e s = refl
fail_if-net false e s = refl

remove_dirs-net : (w : Fate) (hash : Text) (s : Runtime) → (remove_dirs w hash s).1.net ≡ s.net
unfolding remove_dirs
remove_dirs-net w hash s = elim (Bool-cases w.run_dir) [
  | inl e ↦ rw e (fail_if-net (not w.lib_dir) remove_failed _)
  | inr e ↦ rw e refl
]

-- An action that leaves the networks as they are.
abbrev Quiet : Daemon Done → Type 0
Quiet m = (s : Runtime) → (m s).1.net ≡ s.net

KeepsNet-Quiet :
    (m : Daemon Done) (other : Text) (s t : Runtime)
    → Quiet m
    → KeepsNet other s t
    → KeepsNet other s (m t).1
KeepsNet-Quiet m other s t q h =
    subst (λ net. (file_of other net ≡ file_of other s.net) × IsSound net) (sym (q t)) h

release_all-KeepsNet :
    (w : Fate) (hash : Text) (c : Container) (other : Text) (s t : Runtime)
    → main_net_name ≢ other
    → KeepsNet other s t
    → KeepsNet other s (release_all w hash c t).1
unfolding release_all
release_all-KeepsNet w hash c other s t ne h =
    let marked = mark_all_unused-KeepsNet w.volume c.id 0 c.volumes other s t h in
    let mark = mark_all_unused w.volume c.id 0 c.volumes in
    let clean = cleanup_network w.iptables w.net c in
    let cleaned = cleanup_network-KeepsNet w.iptables w.net c other s (mark t).1 ne marked in
    let v = (clean (mark t).1).1 in
    let dropped = KeepsNet-Quiet (drop_name w c) other s v (drop_name-net w c) cleaned in
    let gone = remove_dirs-net w hash in
    bind_inv (KeepsNet other s) mark (λ _. clean >> (drop_name w c >> remove_dirs w hash)) t marked
      λ _ _.
        bind_inv (KeepsNet other s) clean (λ _. drop_name w c >> remove_dirs w hash) (mark t).1
          cleaned
          λ _ _.
            bind_inv (KeepsNet other s) (drop_name w c) (λ _. remove_dirs w hash) v dropped
              λ _ _. KeepsNet-Quiet (remove_dirs w hash) other s (drop_name w c v).1 gone dropped

wait_for-net : (pid : ℕ) (events : List Event) (s : Runtime) → (wait_for pid events s).1.net ≡ s.net
wait_for-net pid events s = ground arith

-- Where each network's file holds the network that it is named for, with no address at two
-- containers, taking a container down, whatever comes of it, leaves every network but the daemon's
-- own as it was: a container that has its address in another network keeps it there.
pub down-foreign_network :
    (w : Fate) (hash other : Text) (s : Runtime)
    → IsSound s.net
    → main_net_name ≢ other
    → file_of other (down w hash s).1.net ≡ file_of other s.net
unfolding down read_container
down-foreign_network w hash other s h ne =
    let guard = fail_if {S = Runtime} (is_empty hash) hash_required in
    let s1 = (guard s).1 in
    let start =
      KeepsNet-Quiet guard other s s (fail_if-net (is_empty hash) hash_required) (refl, h) in
    let rest : Container → Daemon Done = λ c. wait_for c.pid w.events >> release_all w hash c in
    (bind_inv (KeepsNet other s) guard (λ _. read_container hash >>= rest) s start
      λ _ _. bind_inv (KeepsNet other s) (read_container hash) rest s1 start λ c _.
        let waited =
          KeepsNet-Quiet (wait_for c.pid w.events) other s s1 (wait_for-net c.pid w.events) start in
        bind_inv (KeepsNet other s) (wait_for c.pid w.events) (λ _. release_all w hash c) s1 waited
          λ _ _. release_all-KeepsNet w hash c other s (wait_for c.pid w.events s1).1 ne waited).0
