-- ===== src/Resources/Examples.antt =====
-- The theorems on the resources of a container at concrete inputs, and tests.
use zylo.Prelude.{map, ◌≡◌, refl, true, false, [], ◌∷◌, ◌++◌, ok, arith}
use zylo.Text.{codes, decimal, split, join, ◌==◌}
use zylo.Table.{get, put}
use zylo.Paths.{join_path, clean, enter, enter_all}
use zylo.Disk.{whole, refused}
use zylo.Integer.{itoa}
use zylo.Resources.Mounts.{
  Mount, MountManager, MountFate, bind_mount, sys_mount, mount, mount_each, mount_all, unmount_all,
}
use zylo.Resources.Mounts.Undo.{unmount_all-mount_all}
use zylo.Resources.Users.{
  UserManager, EtcFiles, WriteFate, new_user_manager, add_default_root, user_fields, root_user,
  write_files,
}
use zylo.Resources.Log.{Files, LogFate, new_manager}
use zylo.Resources.Log.Closed.{after_close, close-new_manager}
use zylo.Resources.Devices.{
  Device, DeviceFate, other, create, create_each, link_each, create_all, makedev,
}
use zylo.Resources.Devices.Numbers.{kernel_major, kernel_minor, kernel_numbers-makedev}
use zylo.Resources.Users.Lines.{entries, write_files-entries}

abbrev manager : MountManager
manager = record {
  rootfs = codes "/m";
  mounts =
      sys_mount
      ∷ bind_mount (codes "/home") (codes "/app")
      ∷ bind_mount (codes "/tmp") (codes "/app")
      ∷ [];
}

abbrev smooth : MountFate
smooth = record { made = λ n. true; mounted = λ n. true }

unmount_all-mount_all_example :
    ((unmount_all (λ n. true) manager (mount_all smooth manager []).1).called
      ≡ map (λ (mnt : Mount). join_path manager.rootfs mnt.target) manager.mounts)
    × ((unmount_all (λ n. true) manager (mount_all smooth manager []).1).table ≡ [])
unfolding mount_all mount_each mount
unmount_all-mount_all_example = unmount_all-mount_all smooth (λ n. true) manager [] (λ n. refl) refl

abbrev users : UserManager
users = record { users = root_user ∷ []; groups = [] }

defaults : (add_default_root new_user_manager).users ≡ root_user ∷ []
unfolding add_default_root
defaults = refl

abbrev written : WriteFate
written = record {
  made = true;
  passwd_opened = true;
  group_opened = true;
  user = λ n. whole;
  group = λ n. refused;
}

abbrev image : EtcFiles
image = record { passwd = codes "daemon:x:1:1" ++ 10 ∷ []; group = [] }

write_files-entries_example :
    entries (write_files written users image).1.passwd
    ≡ entries (codes "daemon:x:1:1") ++ (user_fields root_user ∷ ([] ∷ []) ∷ [])
unfolding itoa decimal
write_files-entries_example =
    write_files-entries written users image (codes "daemon:x:1:1") refl refl (λ k. refl) refl
      (
        (
          (refl, refl),
          (
            (refl, refl),
            ((refl, refl), ((refl, refl), ((refl, refl), ((refl, refl), ((refl, refl), tt))))),
          ),
        ),
        tt,
      )

abbrev closed : Files
closed = record { contents = []; opened = [] }

-- The second log file cannot be opened.
abbrev no_daemon_log : LogFate
no_daemon_log = record { made = true; tty = true; output = true; daemon = false }

close-new_manager_example :
    (after_close (new_manager no_daemon_log (codes "17-1") (codes "/dev/pts/1") closed)).opened ≡ []
close-new_manager_example =
    close-new_manager no_daemon_log (codes "17-1") (codes "/dev/pts/1") closed

kernel_numbers-makedev_example :
    (kernel_major (makedev 5 300) ≡ 5) × (kernel_minor (makedev 5 300) ≡ 300)
kernel_numbers-makedev_example = kernel_numbers-makedev 5 300 (omega arith) (omega arith)

-- A minor number from 65536 on loses its highest bits.
minor_lost : kernel_minor (makedev 5 65536) ≡ 0
unfolding makedev
minor_lost = refl

abbrev null : Device
null = record { path = codes "/dev/null"; mode = 438; major = 1; minor = 3 }

abbrev allowed : DeviceFate
allowed = record { made = true; mknod = λ p. true; chmod = λ p. true; linked = λ p. false }

-- What is no device stays in the place of one.
kept :
    create_all allowed (codes "/r") (null ∷ []) ((codes "/r/dev/null", other 420) ∷ [])
    ≡ (ok tt, (codes "/r/dev/null", other 438) ∷ [])
unfolding create_all create_each create link_each join_path clean enter enter_all split join get put
    ◌==◌
kept = refl
