-- ===== src/Resources/Mounts/Undo.antt =====
-- internal/container/resources/mount.go: UnmountAll after MountAll.
use zylo.Prelude.{
  ℕ, suc, ◌≡◌, refl, ◌∙◌, ap, Bool, true, List, [], ◌∷◌, ◌++◌, append-nil, map, Result, ok, err,
  arith, if◌then◌else◌,
}
use zylo.Prelude.Actions.{Done}
use zylo.Text.{Text}
use zylo.Text.Equality.{==_refl}
use zylo.Paths.{join_path}
use zylo.Resources.Mounts.{
  Mount, Mounted, MountManager, MountFate, MountError, mounted_as, mount, then_mount, mount_each,
  mount_all, unmount, Unmounting, unmount_each, unmount_all,
}

mount-ok :
    (w : MountFate) (n : ℕ) (rootfs : Text) (mnt : Mount) (table : List Mounted)
    → (mount w n rootfs mnt table).0 ≡ ok tt
    → (mount w n rootfs mnt table).1 ≡ mounted_as rootfs mnt ∷ table
unfolding mount
mount-ok w n rootfs mnt table h = ground arith

unmount-newest : (m : Mounted) (table : List Mounted) → unmount m.target (m ∷ table) ≡ table
unfolding unmount
unmount-newest m table = rw (==_refl m.target) refl

module _ (done : ℕ → Bool) (all_done : (n : ℕ) → done n ≡ true) where
  unmount_each-mount_each :
      (w : MountFate) (k n : ℕ) (rootfs : Text) (mnts : List Mount) (table : List Mounted)
      → (mount_each w n rootfs mnts table).0 ≡ ok tt
      → (unmount_each done k rootfs mnts
          (record { called = []; table = (mount_each w n rootfs mnts table).1 })).table
        ≡ table
  unfolding mount_each unmount_each
  unmount_each-mount_each w k n rootfs [] table h = refl
  unmount_each-mount_each w k n rootfs (mnt ∷ mnts) table h =
      by_result
        (λ g.
          unmount_each-mount_each w (suc k) (suc n) rootfs mnts (mount w n rootfs mnt table).1 g)
        (mount w n rootfs mnt table).0 refl h
    where
      t : List Mounted
      t = (mount w n rootfs mnt table).1

      rest : Result MountError Done → List Mounted
      rest r =
          (unmount_each done (suc k) rootfs mnts (record {
            called = [];
            table = (then_mount r (mount_each w (suc n) rootfs mnts) t).1;
          })).table

      by_result :
          ((mount_each w (suc n) rootfs mnts t).0 ≡ ok tt → rest (ok tt) ≡ t)
          → (r : Result MountError Done) → (mount w n rootfs mnt table).0 ≡ r
          → (then_mount r (mount_each w (suc n) rootfs mnts) t).0 ≡ ok tt
          → (if done k then unmount (join_path rootfs mnt.target) (rest r) else rest r) ≡ table
      by_result ih (err e) same g = cc
      by_result ih (ok u) same g = rw (all_done k) (
          ap (unmount (join_path rootfs mnt.target)) (ih g ∙ mount-ok w n rootfs mnt table same)
          ∙ unmount-newest (mounted_as rootfs mnt) table)

unmount_each-called :
    (done : ℕ → Bool) (k : ℕ) (rootfs : Text) (mnts : List Mount) (s : Unmounting)
    → (unmount_each done k rootfs mnts s).called
      ≡ map (λ (mnt : Mount). join_path rootfs mnt.target) mnts ++ s.called
unfolding unmount_each
unmount_each-called done k rootfs [] s = refl
unmount_each-called done k rootfs (mnt ∷ mnts) s =
    ap (λ x. join_path rootfs mnt.target ∷ x) (unmount_each-called done (suc k) rootfs mnts s)

-- Where every mount of a manager succeeds and the kernel takes away what it is asked to, UnmountAll
-- calls syscall.Unmount once for each mount, in the reverse of their order, and the table of the kernel is then as it was before, whatever was mounted then and also
-- where some of them share a target; the mounts that MS_REC brings along from below a source are not
-- in the table.
pub unmount_all-mount_all :
    (w : MountFate) (done : ℕ → Bool) (m : MountManager) (table : List Mounted)
    → ((n : ℕ) → done n ≡ true)
    → (mount_all w m table).0 ≡ ok tt
    → ((unmount_all done m (mount_all w m table).1).called
        ≡ map (λ (mnt : Mount). join_path m.rootfs mnt.target) m.mounts)
      × ((unmount_all done m (mount_all w m table).1).table ≡ table)
unfolding mount_all unmount_all
unmount_all-mount_all w done m table all_done h = (
  unmount_each-called done 0 m.rootfs m.mounts _ ∙ append-nil _,
  unmount_each-mount_each done all_done w 0 0 m.rootfs m.mounts table h,
)
