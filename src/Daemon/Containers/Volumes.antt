-- ===== src/Daemon/Containers/Volumes.antt =====
-- cleanContainerResources of daemon/cleanup.go: the volumes of a container.
use zylo.Prelude.{
  ℕ, suc, ◌≡◌, refl, sym, ap, ◌∙◌, true, false, some, [], ◌∷◌, ◌++◌, append_assoc, any-append, map,
  any, first, keep, not, All, arith,
}
use zylo.Text.{Text, ◌==◌}
use zylo.Disk.{Write, written, holds}
use zylo.Volume.{Volume, Registry, picks, change, drop_user, list_volumes, mark_volume_unused}
use zylo.Container.{Runtime}
use zylo.Daemon.Containers.{CleanFate, release_volumes, clean_container_resources}

-- The arguments that stand for a volume pick it, and no volume before it.
abbrev pub Apart : Registry → Type 0
Apart [] = Unit
Apart (v ∷ vs) =
    (picks v.name v.path v ≡ true) × All (λ u. picks u.name u.path v ≡ false) vs × Apart vs

first-at :
    (name path : Text) (pre vs : Registry) (v : Volume)
    → any (picks name path) pre ≡ false
    → picks name path v ≡ true
    → first (picks name path) (pre ++ v ∷ vs) ≡ some v
first-at name path [] vs v h p = ground arith
first-at name path (u ∷ pre) vs v h p = ground (arith, first-at name path pre vs v)

change-at :
    (name path : Text) (f : Volume → Volume) (pre vs : Registry) (v : Volume)
    → any (picks name path) pre ≡ false
    → picks name path v ≡ true
    → change name path f (pre ++ v ∷ vs) ≡ pre ++ f v ∷ vs
change-at name path f [] vs v h p = ground arith
change-at name path f (u ∷ pre) vs v h p = ground (arith, change-at name path f pre vs v)

mark-at :
    (w : Write) (id : Text) (pre vs : Registry) (v : Volume)
    → w ≡ written
    → any (picks v.name v.path) pre ≡ false
    → picks v.name v.path v ≡ true
    → (mark_volume_unused w v.name v.path id (holds (pre ++ v ∷ vs))).1
      ≡ holds (pre ++ drop_user id v ∷ vs)
unfolding mark_volume_unused
mark-at w id pre vs v hw h p = ground (
  arith,
  first-at v.name v.path pre vs v h p,
  change-at v.name v.path (drop_user id) pre vs v h p,
)

-- None of the volumes picks one before.
abbrev Unpicked : Registry → Registry → Type 0
Unpicked pre vs = All (λ u. any (picks u.name u.path) pre ≡ false) vs

Unpicked-nil : (vs : Registry) → Unpicked [] vs
Unpicked-nil [] = tt
Unpicked-nil (u ∷ vs) = (refl, Unpicked-nil vs)

Unpicked-add :
    (pre vs : Registry) (v : Volume) (id : Text)
    → Unpicked pre vs
    → All (λ u. picks u.name u.path v ≡ false) vs
    → Unpicked (pre ++ drop_user id v ∷ []) vs
Unpicked-add pre [] v id h g = tt
Unpicked-add pre (u ∷ vs) v id h g = (
  ground (arith, any-append (picks u.name u.path) pre (drop_user id v ∷ []), h.0, g.0),
  Unpicked-add pre vs v id h.1 g.1,
)

release-holds :
    (w : ℕ → Write) (id : Text) (n : ℕ) (pre vs : Registry)
    → ((k : ℕ) → w k ≡ written)
    → Unpicked pre vs
    → Apart vs
    → release_volumes w id n vs (holds (pre ++ vs)) ≡ holds (pre ++ map (drop_user id) vs)
unfolding release_volumes
release-holds w id n pre [] hw h a = refl
release-holds w id n pre (v ∷ vs) hw h a =
    let next = pre ++ drop_user id v ∷ [] in
    ap (release_volumes w id (suc n) vs) (
      mark-at (w n) id pre vs v (hw n) h.0 a.0
      ∙ ap holds (sym (append_assoc pre (drop_user id v ∷ []) vs)))
    ∙ release-holds w id (suc n) next vs hw (Unpicked-add pre vs v id h.1 a.1) a.2
    ∙ ap holds (append_assoc pre (drop_user id v ∷ []) (map (drop_user id) vs))

-- Where each volume of a registry is picked by its own name and path and by those of no other, and
-- the writes go through, the start of the daemon takes a dead container off the users of every
-- volume: of each volume, the users with another name stay in their order, and the rest as it was.
pub clean_container_resources-volumes :
    (w : CleanFate) (id : Text) (s : Runtime) (reg : Registry)
    → s.volumes ≡ holds reg
    → Apart reg
    → ((n : ℕ) → w.volume id n ≡ written)
    → (clean_container_resources w id s).volumes
      ≡ holds (map (λ (v : Volume). record v { used_by = keep (λ u. not (u == id)) v.used_by }) reg)
unfolding clean_container_resources list_volumes
clean_container_resources-volumes w id s reg hs a hw =
    rw hs (release-holds (w.volume id) id 0 [] reg hw (Unpicked-nil reg) a)
