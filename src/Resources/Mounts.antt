-- ===== src/Resources/Mounts.antt =====
-- internal/container/resources/mount.go: the mounts of a container, on the table of the kernel.
pub mod Undo
use zylo.Prelude.{
  ℕ, suc, ◌+◌, Bool, true, false, not, ◌&&◌, Option, none, some, List, [], ◌∷◌, ◌++◌, Result, ok,
  err, eqb, if◌then◌else◌,
}
use zylo.Prelude.Actions.{Act, Done, pure, fail_if, modify, ◌>>=◌, ◌>>◌}
use zylo.Text.{Text, ◌==◌, codes, is_empty, has_prefix}
use zylo.Paths.{join_path}

pub record Mount : Type 0 where
  pub source : Text
  pub target : Text
  pub fs_type : Text
  pub flags : ℕ
  pub options : Text
  pub create : Bool

-- One mount of the kernel, the newest first in its table.
pub record Mounted : Type 0 where
  pub source : Text
  pub target : Text
  pub fs_type : Text
  pub flags : ℕ
  pub options : Text

pub record MountManager : Type 0 where
  pub rootfs : Text
  pub mounts : List Mount

abbrev pub new_mount_manager : Text → MountManager
new_mount_manager rootfs = record { rootfs = rootfs; mounts = [] }

abbrev pub add : Mount → MountManager → MountManager
add mnt m = record m { mounts = m.mounts ++ mnt ∷ [] }

pub data MountError : Type 0 where
  not_created not_mounted : MountError

-- Whether the directory of the n-th mount can be made, and whether the kernel mounts it.
pub record MountFate : Type 0 where
  pub made : ℕ → Bool
  pub mounted : ℕ → Bool

abbrev pub source_of : Text → Text → Text
source_of rootfs source =
    if not (is_empty source) && not (has_prefix source (codes "/"))
    then join_path rootfs source
    else source

abbrev pub mounted_as : Text → Mount → Mounted
mounted_as rootfs mnt = record {
  source = source_of rootfs mnt.source;
  target = join_path rootfs mnt.target;
  fs_type = mnt.fs_type;
  flags = mnt.flags;
  options = mnt.options;
}

-- `Mount`
unfoldable pub mount : MountFate → ℕ → Text → Mount → Act (List Mounted) MountError Done
mount w n rootfs mnt = do
  fail_if (mnt.create && not (w.made n)) not_created
  fail_if (not (w.mounted n)) not_mounted
  modify (λ table. mounted_as rootfs mnt ∷ table)

abbrev then_mount :
    Result MountError Done → Act (List Mounted) MountError Done → Act (List Mounted) MountError Done
then_mount (ok u) rest table = rest table
then_mount (err e) rest table = (err e, table)

unfoldable pub mount_each : MountFate → ℕ → Text → List Mount → Act (List Mounted) MountError Done
unfolding mount
mount_each w n rootfs [] table = (ok tt, table)
mount_each w n rootfs (mnt ∷ mnts) table =
    then_mount (mount w n rootfs mnt table).0 (mount_each w (suc n) rootfs mnts)
      (mount w n rootfs mnt table).1

unfoldable pub mount_all : MountFate → MountManager → Act (List Mounted) MountError Done
unfolding mount_each
mount_all w m = mount_each w 0 m.rootfs m.mounts

-- What syscall.Unmount takes away where it succeeds: the newest mount on the target. A mount of
-- MS_REC is one entry here, without the mounts that it brings along from below its source.
unfoldable pub unmount : Text → List Mounted → List Mounted
unmount target [] = []
unmount target (m ∷ table) = if m.target == target then table else m ∷ unmount target table

-- The targets for which syscall.Unmount was called, the last one first, and the table then.
pub record Unmounting : Type 0 where
  pub called : List Text
  pub table : List Mounted

-- One call; its error, where the kernel refuses, is dropped.
abbrev pub call_unmount : Bool → Text → Unmounting → Unmounting
call_unmount done target s = record {
  called = target ∷ s.called;
  table = if done then unmount target s.table else s.table;
}

-- The loop from the last mount to the first; `done` says of which mounts the kernel takes away, by
-- their place.
unfoldable pub unmount_each : (ℕ → Bool) → ℕ → Text → List Mount → Unmounting → Unmounting
unfolding unmount
unmount_each done n rootfs [] s = s
unmount_each done n rootfs (mnt ∷ mnts) s =
    call_unmount (done n) (join_path rootfs mnt.target) (unmount_each done (suc n) rootfs mnts s)

unfoldable pub unmount_all : (ℕ → Bool) → MountManager → List Mounted → Unmounting
unfolding unmount_each
unmount_all done m table =
    unmount_each done 0 m.rootfs m.mounts (record { called = []; table = table })

-- syscall.MS_BIND | syscall.MS_REC
abbrev pub bind_flags : ℕ
bind_flags = 4096 + 16384

abbrev pub bind_mount : Text → Text → Mount
bind_mount source target = record {
  source = source;
  target = target;
  fs_type = [];
  flags = bind_flags;
  options = [];
  create = true;
}

abbrev pub sys_mount : Mount
sys_mount = record {
  source = [];
  target = codes "/sys";
  fs_type = codes "sysfs";
  flags = 0;
  options = [];
  create = true;
}

abbrev pub tmpfs_mount : Text → Text → Mount
tmpfs_mount target size = record {
  source = [];
  target = target;
  fs_type = codes "tmpfs";
  flags = 0;
  options = codes "size=" ++ size;
  create = true;
}
