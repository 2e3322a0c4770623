-- ===== src/Container/Cleanup/Living.antt =====
-- RuntimeCleanup of internal/container/runtime_cleanup.go: the containers that are listed after it.
use zylo.Prelude.{
  ◌≡◌, refl, ◌∙◌, ap, Bool, true, false, none, [], ◌∷◌, Result, ok, err, keep, Bool-cases, inl, inr,
}
use zylo.Text.{Text, is_empty}
use zylo.Disk.{File, Fault, read, absent, unreadable, malformed, holds}
use zylo.Table.{Table}
use zylo.Network.Ipam
use zylo.Container.{Rule, Container, Runtime, list_containers, readable_containers}
use zylo.Container.Down.{Iptables, cleanup_network, cleanup_bound, on_net}
use zylo.Container.Cleanup.{Sweep, is_alive, clean_dir, sweep_dirs, runtime_cleanup}

cleanup_network-containers :
    (manager : Iptables) (w : Ipam.Fate) (c : Container) (s : Runtime)
    → (cleanup_network manager w c s).1.containers ≡ s.containers
unfolding cleanup_network on_net
cleanup_network-containers manager w c s = elim (Bool-cases (is_empty c.ip)) [
  | inl e ↦ rw e refl
  | inr e ↦ rw e (bound manager.there manager.deleted)
]
  where
    bound :
        (there : Bool) (deleted : Rule → Bool)
        → (cleanup_bound (record { there = there; deleted = deleted }) w c s).1.containers
          ≡ s.containers
    bound false deleted = refl
    bound true deleted = refl

clean_dir-containers :
    (w : Sweep) (hash : Text) (r : Result Fault Container) (s : Runtime)
    → (clean_dir w hash r s).containers ≡ s.containers
clean_dir-containers w hash (err e) s = refl
clean_dir-containers w hash (ok c) s = elim (Bool-cases (is_alive w.running c)) [
  | inl e ↦ rw e refl
  | inr e ↦ rw e (cleanup_network-containers w.iptables (w.net hash) c s)
]

sweep_dirs-containers :
    (w : Sweep) (dirs : Table (File Container)) (s : Runtime)
    → (sweep_dirs w dirs s).1.containers ≡ s.containers
unfolding sweep_dirs
sweep_dirs-containers w [] s = refl
sweep_dirs-containers w ((hash, f) ∷ dirs) s =
    sweep_dirs-containers w dirs (clean_dir w hash (read f) s)
    ∙ clean_dir-containers w hash (read f) s

sweep_dirs-living :
    (w : Sweep) (dirs : Table (File Container)) (s : Runtime)
    → ((hash : Text) → w.left hash ≡ none)
    → readable_containers (sweep_dirs w dirs s).0
      ≡ keep (is_alive w.running) (readable_containers dirs)
unfolding sweep_dirs readable_containers
sweep_dirs-living w [] s h = refl
sweep_dirs-living w ((hash, absent) ∷ dirs) s h = sweep_dirs-living w dirs s h
sweep_dirs-living w ((hash, unreadable) ∷ dirs) s h = sweep_dirs-living w dirs s h
sweep_dirs-living w ((hash, malformed) ∷ dirs) s h = sweep_dirs-living w dirs s h
sweep_dirs-living w ((hash, holds c) ∷ dirs) s h = elim (Bool-cases (is_alive w.running c)) [
  | inl e ↦ rw e (ap (λ cs. c ∷ cs) (sweep_dirs-living w dirs s h))
  | inr e ↦ rw (e, h hash) (sweep_dirs-living w dirs _ h)
]

-- Where every removal succeeds, the containers that a cleanup leaves are those that were listed
-- before and whose process lives, in the same order.
pub list-runtime_cleanup :
    (w v : Sweep) (lib : Table (File Container)) (s : Runtime)
    → ((hash : Text) → w.left hash ≡ none)
    → list_containers (runtime_cleanup w v lib s).1 ≡ keep (is_alive w.running) (list_containers s)
unfolding runtime_cleanup list_containers
list-runtime_cleanup w v lib s h =
    let (dirs, t) = sweep_dirs w s.containers s in
    ap readable_containers (sweep_dirs-containers v lib (record t { containers = dirs }))
    ∙ sweep_dirs-living w s.containers s h
