-- ===== src/Container/Setup.antt =====
-- newContainer of internal/container/container.go, and internal/container/setup.go: the root of a
-- container before it starts.
pub mod Needs
use zylo.Prelude.{
  ℕ, ◌+◌, Bool, true, false, not, Option, none, some, List, [], ◌∷◌, ◌++◌, Result, ok, err, map,
  if◌then◌else◌,
}
use zylo.Prelude.Actions.{Act, Done, pure, fail, fail_if, lift, wrap, modify, ◌>>=◌, ◌>>◌}
use zylo.Text.{Text, ◌==◌, codes, is_empty, join}
use zylo.Disk.{File, Fault, TextFile, TextWrite, missing, has, locked, write_text}
use zylo.Table.{Table}
use zylo.Paths.{join_path, imgs_pth, ctrs_pth}
use zylo.Hosts.{base_content}
use zylo.Zylofile
use zylo.Zylofile.{Config}
use zylo.Network
use zylo.Network.{Net, NetState, get_network, hosts_of, on_hosts}
use zylo.Resources.Mounts
use zylo.Resources.Mounts.{
  Mounted, MountManager, MountFate, MountError, add, mount_all, sys_mount, tmpfs_mount, bind_mount,
  new_mount_manager,
}
use zylo.Resources.Users.{
  ImageMetadata, EtcFiles, UserManager, WriteFate, WriteError, new_user_manager,
  load_image_metadata, add_users_from_metadata, add_default_root, write_files,
}
use zylo.Container.{Container, Runtime}

abbrev pub new_container : Text → Config → Container
new_container hash cfg = record {
  id = hash;
  name = cfg.name;
  rootfs = join_path ctrs_pth hash;
  image = cfg.image;
  copy_dir = cfg.copy_dir;
  workdir = cfg.set_workdir;
  volumes = cfg.volumes;
  network = cfg.network;
  env = cfg.env;
  cmd = cfg.cmd;
  cmd_path = cfg.cmd_path;
  user_tty = cfg.user_tty;
  ports = cfg.open_ports;
  ip = [];
  pid = 0;
}

-- The daemon's state, the mounts of the host, and the files of the container's root that the setup
-- writes.
pub record Host : Type 0 where
  pub runtime : Runtime
  pub mounts : List Mounted
  pub resolv : TextFile
  pub etc : EtcFiles
  pub env_file : TextFile

pub data SetupError : Type 0 where
  dirs_failed image_not_found overlay_failed etc_failed resolv_mount_failed hosts_dir_failed :
      SetupError
  hosts_mount_failed devices_failed : SetupError
  network_failed : Network.Error → SetupError
  resolv_failed hosts_failed meta_failed env_failed : Fault → SetupError
  users_failed : WriteError → SetupError
  mounts_failed : MountError → SetupError

-- How the calls of one setup go: the directories, what stands below the images, the mounts and the
-- writes, and the file meta.json of the image.
pub record SetupFate : Type 0 where
  pub dirs : Bool
  pub image : Text → Bool
  pub overlay : Bool
  pub resolv_dir : Bool
  pub resolv : TextWrite
  pub resolv_mount : Bool
  pub hosts_dir : Bool
  pub hosts_base : TextWrite
  pub hosts_etc : Bool
  pub hosts_mount : Bool
  pub devices : Bool
  pub meta : File ImageMetadata
  pub users : WriteFate
  pub mounts : MountFate
  pub env : TextWrite

abbrev pub Setup : Type 0 → Type 0
Setup A = Act Host SetupError A

abbrev pub merged_root : Container → Text
merged_root c = join_path c.rootfs (codes "merged")

-- syscall.Mount
abbrev pub mount_at : Text → Text → Text → ℕ → Text → Setup Done
mount_at source target fs_type flags options = modify (λ s. record s {
  mounts =
      record {
        source = source;
        target = target;
        fs_type = fs_type;
        flags = flags;
        options = options;
      }
      ∷ s.mounts;
})

abbrev pub overlay_options : Container → Text
overlay_options c =
    codes "lowerdir="
    ++ (join_path imgs_pth c.image
        ++ (codes ",upperdir="
            ++ (join_path c.rootfs (codes "upper")
                ++ (codes ",workdir=" ++ join_path c.rootfs (codes "work")))))

abbrev pub on_net {κ} : {E : Type κ} {A : Type 0} → (E → SetupError) → Act NetState E A → Setup A
on_net f m s =
    let (r, net) = m s.runtime.net in
    (
      elim r [ ok a ↦ ok a | err e ↦ err (f e) ],
      record s { runtime = record s.runtime { net = net } },
    )

abbrev pub on_etc : Act EtcFiles WriteError Done → Setup Done
on_etc m s =
    let (r, etc) = m s.etc in
    (elim r [ ok a ↦ ok a | err e ↦ err (users_failed e) ], record s { etc = etc })

abbrev pub on_mounts : Act (List Mounted) MountError Done → Setup Done
on_mounts m s =
    let (r, table) = m s.mounts in
    (elim r [ ok a ↦ ok a | err e ↦ err (mounts_failed e) ], record s { mounts = table })

abbrev pub write_resolv : TextWrite → Text → Setup Done
write_resolv w content s =
    let (r, file) = write_text w content s.resolv in
    (elim r [ ok a ↦ ok a | err e ↦ err (resolv_failed e) ], record s { resolv = file })

abbrev pub write_env : TextWrite → Text → Setup Done
write_env w content s =
    let (r, file) = write_text w content s.env_file in
    (elim r [ ok a ↦ ok a | err e ↦ err (env_failed e) ], record s { env_file = file })

abbrev pub resolv_content : Text → Text → Text
resolv_content gateway network =
    codes "nameserver "
    ++ (gateway
        ++ (10
            ∷ (codes "nameserver 8.8.8.8"
                ++ (10
                    ∷ (codes "nameserver 8.8.4.4"
                        ++ (10 ∷ (codes "search " ++ (network ++ 10 ∷ []))))))))

-- syscall.MS_BIND
abbrev pub ms_bind : ℕ
ms_bind = 4096

unfoldable pub add_resolv : SetupFate → Container → Setup Done
unfolding get_network write_text
add_resolv w c = do
  fail_if (not w.resolv_dir) etc_failed
  net ← on_net network_failed (get_network c.network)
  write_resolv w.resolv (resolv_content net.gateway c.network)
  fail_if (not w.resolv_mount) resolv_mount_failed
  mount_at (join_path (merged_root c) (codes "etc/resolv.conf.zylo"))
      (join_path (merged_root c) (codes "etc/resolv.conf")) [] ms_bind []

abbrev make_base : SetupFate → Text → Setup Done
make_base w network = do
  fail_if (not w.hosts_dir) hosts_dir_failed
  on_net hosts_failed (on_hosts network (write_text w.hosts_base base_content))

abbrev ensure_hosts : SetupFate → Text → TextFile → Setup Done
ensure_hosts w network missing = make_base w network
ensure_hosts w network (has t) = pure tt
ensure_hosts w network locked = pure tt

-- filepath.Join(global.HostsCfgPth, c.Network, "hosts")
abbrev hosts_file : Text → Text
hosts_file network = join_path (join_path (codes "/var/run/zylo/hosts") network) (codes "hosts")

-- The file of the network below /var/run/zylo/hosts is made where it is missing, and bound to
-- /etc/hosts.
unfoldable pub add_hosts : SetupFate → Container → Setup Done
unfolding on_hosts write_text hosts_of
add_hosts w c = do
  (λ s. ensure_hosts w c.network (hosts_of c.network s.runtime.net) s)
  fail_if (not w.hosts_etc) etc_failed
  fail_if (not w.hosts_mount) hosts_mount_failed
  mount_at (hosts_file c.network) (join_path (merged_root c) (codes "etc/hosts")) [] ms_bind []

-- The source directory: CopyDir, or else the path of the command.
abbrev pub source_dir : Container → Text
source_dir c = if is_empty c.copy_dir then c.cmd_path else c.copy_dir

abbrev workdir_mounts : Container → List Mounts.Mount
workdir_mounts c =
    if is_empty c.workdir
    then []
    else if is_empty (source_dir c)
    then []
    else bind_mount (source_dir c) c.workdir ∷ []

abbrev volume_mount : Zylofile.Mount → Mounts.Mount
volume_mount v = bind_mount v.host_path v.container_path

-- `addMounts`, on a new manager
unfoldable pub add_mounts : Container → MountManager
add_mounts c = record {
  rootfs = merged_root c;
  mounts =
      sys_mount
      ∷ tmpfs_mount (codes "/dev/shm") (codes "256m")
      ∷ (workdir_mounts c ++ map volume_mount c.volumes);
}

abbrev pub default_path : Text
default_path = codes "PATH=/sbin:/bin:/usr/sbin:/usr/bin:/usr/local/bin"

-- fmt.Sprintf("%s=%s", k, v)
abbrev pub assignment : Text × Text → Text
assignment (k, v) = k ++ b'=' ∷ v

unfoldable pub build_env : Container → List Text
build_env c = default_path ∷ map assignment c.env

abbrev users_of : ImageMetadata → UserManager
users_of meta = add_default_root (add_users_from_metadata meta new_user_manager)

abbrev meta_result : Result Fault ImageMetadata → Result SetupError ImageMetadata
meta_result (ok meta) = ok meta
meta_result (err e) = err (meta_failed e)

-- `setup`: the directories for the work path and for /tmp are made without a look at the error.
unfoldable pub setup : SetupFate → Container → Setup Done
unfolding add_mounts build_env add_default_root add_users_from_metadata
setup w c = do
  fail_if (not w.dirs) dirs_failed
  fail_if (not (w.image (join_path imgs_pth c.image))) image_not_found
  fail_if (not w.overlay) overlay_failed
  mount_at (codes "overlay") (merged_root c) (codes "overlay") 0 (overlay_options c)
  add_resolv w c
  add_hosts w c
  fail_if (not w.devices) devices_failed
  meta ← lift (meta_result (load_image_metadata w.meta))
  on_etc (write_files w.users (users_of meta))
  on_mounts (mount_all w.mounts (add_mounts c))
  write_env w.env (join 10 (build_env c))
