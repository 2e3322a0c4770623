-- ===== src/Container/Down/Unnamed.antt =====
-- `down` of internal/container/runtime_cleanup.go, seen from the name registry.
use zylo.Prelude.{
  ℕ, suc, ◌≡◌, refl, ◌∙◌, Bool, true, false, not, some, List, [], ◌∷◌, arith, Bool-cases, inl, inr,
}
use zylo.Prelude.Actions.{bind_inv, ◌>>◌, fail_if}
use zylo.Text.{Text, is_empty}
use zylo.Disk.{Write, holds}
use zylo.Table.{get}
use zylo.Zylofile.{Mount}
use zylo.Network.Ipam
use zylo.Container.{Rule, Container, Runtime, Error, remove_failed}
use zylo.Container.Down.Wait.{Event}
use zylo.Container.Down.{
  Iptables, Fate, on_net, on_volumes, mark_all_unused, cleanup_bound, cleanup_network, drop_name,
  remove_dirs, wait_for, read_container, release_all, down,
}

mark_all_unused-names :
    (w : ℕ → Write) (id : Text) (n : ℕ) (vs : List Mount) (s : Runtime)
    → (mark_all_unused w id n vs s).1.names ≡ s.names
unfolding mark_all_unused on_volumes
mark_all_unused-names w id n [] s = refl
mark_all_unused-names w id n (v ∷ vs) s = mark_all_unused-names w id (suc n) vs _

cleanup_network-names :
    (manager : Iptables) (w : Ipam.Fate) (c : Container) (s : Runtime)
    → (cleanup_network manager w c s).1.names ≡ s.names
unfolding cleanup_network on_net
cleanup_network-names manager w c s = elim (Bool-cases (is_empty c.ip)) [
  | inl e ↦ rw e refl
  | inr e ↦ rw e (bound manager.there manager.deleted)
]
  where
    bound :
        (there : Bool) (deleted : Rule → Bool)
        → (cleanup_bound (record { there = there; deleted = deleted }) w c s).1.names ≡ s.names
    bound false deleted = refl
    bound true deleted = refl

fail_if-names : (b : Bool) (e : Error) (s : Runtime) → (fail_if b e s).1.names ≡ s.names
fail_if-names true e s = refl
fail_if-names false e s = refl

remove_dirs-names :
    (w : Fate) (hash : Text) (s : Runtime) → (remove_dirs w hash s).1.names ≡ s.names
unfolding remove_dirs
remove_dirs-names w hash s = elim (Bool-cases w.run_dir) [
  | inl e ↦ rw e (fail_if-names (not w.lib_dir) remove_failed _)
  | inr e ↦ rw e refl
]

drop_name-unnamed :
    (w : Fate) (c : Container) (s : Runtime)
    → is_empty c.name ≡ true
    → (drop_name w c s).1.names ≡ s.names
unfolding drop_name
drop_name-unnamed w c s e = rw e refl

release_all-unnamed :
    (w : Fate) (hash : Text) (c : Container) (s t : Runtime)
    → is_empty c.name ≡ true
    → t.names ≡ s.names
    → (release_all w hash c t).1.names ≡ s.names
unfolding release_all
release_all-unnamed w hash c s t e h =
    let mark = mark_all_unused w.volume c.id 0 c.volumes in
    let clean = cleanup_network w.iptables w.net c in
    let P : Runtime → Type 0 = λ u. u.names ≡ s.names in
    let marked = mark_all_unused-names w.volume c.id 0 c.volumes t ∙ h in
    let cleaned = cleanup_network-names w.iptables w.net c (mark t).1 ∙ marked in
    let v = (clean (mark t).1).1 in
    let dropped = drop_name-unnamed w c v e ∙ cleaned in
    bind_inv P mark (λ _. clean >> (drop_name w c >> remove_dirs w hash)) t marked
      λ _ _.
        bind_inv P clean (λ _. drop_name w c >> remove_dirs w hash) (mark t).1 cleaned
          λ _ _.
            bind_inv P (drop_name w c) (λ _. remove_dirs w hash) v dropped
              λ _ _. remove_dirs-names w hash (drop_name w c v).1 ∙ dropped

wait_for-names :
    (pid : ℕ) (events : List Event) (s : Runtime) → (wait_for pid events s).1.names ≡ s.names
wait_for-names pid events s = ground arith

-- Taking down a container whose file holds no name leaves the name registry as it was, whatever
-- comes of it, so the name that was made up for it when it started stays taken.
down-unnamed :
    (w : Fate) (hash : Text) (c : Container) (s : Runtime)
    → get hash s.containers ≡ some (holds c)
    → is_empty c.name ≡ true
    → (down w hash s).1.names ≡ s.names
unfolding down read_container get
down-unnamed w hash c s file unnamed = elim (Bool-cases (is_empty hash)) [
  | inl e ↦ rw e refl
  | inr e ↦
      rw (e, file)
        (bind_inv (λ u. u.names ≡ s.names) (wait_for c.pid w.events) (λ _. release_all w hash c) s
          (wait_for-names c.pid w.events s)
          λ _ _.
            release_all-unnamed w hash c s (wait_for c.pid w.events s).1 unnamed
              (wait_for-names c.pid w.events s))
]
