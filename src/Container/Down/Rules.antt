-- ===== src/Container/Down/Rules.antt =====
-- `down` of internal/container/runtime_cleanup.go, seen from the rules that forward ports.
use zylo.Prelude.{
  ℕ, suc, ◌≡◌, refl, ◌∙◌, ap, arith, true, false, List, [], ◌∷◌, ok, Bool-cases, inl, inr,
}
use zylo.Prelude.Actions.{Done, ◌>>◌, bind_inv, bind_step}
use zylo.Text.{Text, is_empty}
use zylo.Disk.{Write, holds}
use zylo.Zylofile.{Mount}
use zylo.Container.{Container, Runtime, Daemon}
use zylo.Container.Down.{
  Fate, on_names, on_volumes, on_net, mark_all_unused, drop_rules, cleanup_network, container_file,
  read_container, wait_for, drop_name, remove_dirs, release_all, down,
}
use zylo.Container.Down.Wait.{Event}

-- The rules and the files of the containers are those of the other state.
abbrev pub Same : Runtime → Runtime → Type 0
Same s t = (t.rules ≡ s.rules) × (t.containers ≡ s.containers)

pub mark_all_unused-Same :
    (w : ℕ → Write) (id : Text) (n : ℕ) (vs : List Mount) (s : Runtime)
    → Same s (mark_all_unused w id n vs s).1
unfolding mark_all_unused on_volumes
mark_all_unused-Same w id n [] s = (refl, refl)
mark_all_unused-Same w id n (v ∷ vs) s = mark_all_unused-Same w id (suc n) vs _

mark_all_unused-ok :
    (w : ℕ → Write) (id : Text) (n : ℕ) (vs : List Mount) (s : Runtime)
    → (mark_all_unused w id n vs s).0 ≡ ok tt
unfolding mark_all_unused on_volumes
mark_all_unused-ok w id n [] s = refl
mark_all_unused-ok w id n (v ∷ vs) s = mark_all_unused-ok w id (suc n) vs _

drop_name-Same : (w : Fate) (c : Container) (s : Runtime) → Same s (drop_name w c s).1
unfolding drop_name on_names
drop_name-Same w c s = elim (Bool-cases (is_empty c.name)) [
  | inl e ↦ rw e (refl, refl)
  | inr e ↦ rw e (refl, refl)
]

remove_dirs-rules :
    (w : Fate) (hash : Text) (s : Runtime) → (remove_dirs w hash s).1.rules ≡ s.rules
unfolding remove_dirs
remove_dirs-rules w hash s = ground arith

cleanup_network-rules :
    (w : Fate) (c : Container) (s : Runtime)
    → w.iptables.there ≡ true
    → is_empty c.ip ≡ false
    → (cleanup_network w.iptables w.net c s).1.rules ≡ drop_rules w.iptables c.ip c.ports s.rules
unfolding cleanup_network on_net
cleanup_network-rules w c s hi hp = rw (hi, hp) refl

release_all-rules :
    (w : Fate) (hash : Text) (c : Container) (s : Runtime)
    → w.iptables.there ≡ true
    → is_empty c.ip ≡ false
    → (release_all w hash c s).1.rules ≡ drop_rules w.iptables c.ip c.ports s.rules
unfolding release_all
release_all-rules w hash c s hi hp =
    let mark = mark_all_unused w.volume c.id 0 c.volumes in
    let clean = cleanup_network w.iptables w.net c in
    let gone = λ (t : Runtime). t.rules ≡ drop_rules w.iptables c.ip c.ports s.rules in
    let t = (mark s).1 in
    let cleaned =
      cleanup_network-rules w c t hi hp
      ∙ ap (drop_rules w.iptables c.ip c.ports)
          (mark_all_unused-Same w.volume c.id 0 c.volumes s).0 in
    let u = (clean t).1 in
    let dropped = (drop_name-Same w c u).0 ∙ cleaned in
    ap (λ x. x.1.rules)
      (bind_step mark (λ _. clean >> (drop_name w c >> remove_dirs w hash)) s
        (mark_all_unused-ok w.volume c.id 0 c.volumes s))
    ∙ bind_inv gone clean (λ _. drop_name w c >> remove_dirs w hash) t cleaned
        λ _ _.
          bind_inv gone (drop_name w c) (λ _. remove_dirs w hash) u dropped
            λ _ _. remove_dirs-rules w hash (drop_name w c u).1 ∙ dropped

read_container-holds :
    (hash : Text) (c : Container) (s : Runtime)
    → container_file hash s ≡ holds c
    → read_container hash s ≡ (ok c, s)
unfolding read_container
read_container-holds hash c s h = rw h refl

wait_for_same : (pid : ℕ) (events : List Event) (s : Runtime) → (wait_for pid events s).1 ≡ s
wait_for_same pid events s = ground arith

-- Where container.json can be read and the wait ends, `down` drops the rules of the container's ports.
pub down-rules :
    (w : Fate) (hash : Text) (c : Container) (s : Runtime)
    → is_empty hash ≡ false
    → container_file hash s ≡ holds c
    → w.iptables.there ≡ true
    → is_empty c.ip ≡ false
    → (wait_for c.pid w.events s).0 ≡ ok tt
    → (down w hash s).1.rules ≡ drop_rules w.iptables c.ip c.ports s.rules
unfolding down
down-rules w hash c s hh hf hi hp hw =
    let rest : Container → Daemon Done = λ d. wait_for d.pid w.events >> release_all w hash d in
    let e = read_container-holds hash c s hf in
    let waited = bind_step (wait_for c.pid w.events) (λ _. release_all w hash c) s hw in
    rw (hh, e)
      (ap (λ x. x.1.rules) waited
        ∙ release_all-rules w hash c (wait_for c.pid w.events s).1 hi hp
        ∙ ap (λ t. drop_rules w.iptables c.ip c.ports t.rules) (wait_for_same c.pid w.events s))
