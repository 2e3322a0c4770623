-- ===== src/Resources/Devices.antt =====
-- internal/container/resources/devices.go: the device nodes below the root of a container.
pub mod Bits
pub mod Numbers
use Prim.Native.Nat.{bit_and, bit_or}
use zylo.Prelude.{
  ℕ, ◌*◌, ◌^◌, Bool, true, false, not, Option, none, some, List, [], ◌∷◌, Result, ok, err,
  if◌then◌else◌,
}
use zylo.Prelude.Actions.{Act, Done, fail_if, ◌>>◌}
use zylo.Text.{Text, codes}
use zylo.Table.{Table, get, put}
use zylo.Paths.{join_path}

pub record Device : Type 0 where
  pub path : Text
  pub mode : ℕ
  pub major : ℕ
  pub minor : ℕ

abbrev device : Text → ℕ → ℕ → ℕ → Device
device path mode major minor = record { path = path; mode = mode; major = major; minor = minor }

-- 438 is 0666, and 400 is 0620.
abbrev pub default_devices : List Device
default_devices =
    device (codes "/dev/null") 438 1 3
    ∷ device (codes "/dev/zero") 438 1 5
    ∷ device (codes "/dev/random") 438 1 8
    ∷ device (codes "/dev/urandom") 438 1 9
    ∷ device (codes "/dev/tty") 438 5 0
    ∷ device (codes "/dev/console") 400 5 1
    ∷ device (codes "/dev/ptmx") 438 5 2
    ∷ device (codes "/dev/full") 438 1 7
    ∷ []

-- For numbers that the shifts keep inside an int.
unfoldable pub makedev : ℕ → ℕ → ℕ
makedev major minor =
    bit_or (bit_or (major * 2 ^ 8) (bit_and minor 255)) (bit_and minor 65280 * 2 ^ 12)

-- What stands at a path: a device of that mode and number, a link, or something else.
pub data Node : Type 0 where
  character : ℕ → ℕ → Node
  link : Text → Node
  other : ℕ → Node

pub data DeviceError : Type 0 where
  no_dev_dir mknod_failed chmod_failed : DeviceError

-- How syscall.Mknod and the chmod behind it go for each path, and os.MkdirAll.
pub record DeviceFate : Type 0 where
  pub made : Bool
  pub mknod : Text → Bool
  pub chmod : Text → Bool
  pub linked : Text → Bool

abbrev pub set_mode : ℕ → Node → Node
set_mode mode (character m n) = character mode n
set_mode mode (link target) = link target
set_mode mode (other m) = other mode

-- The mode of what is there already is set without a look at the error.
abbrev pub create_at : DeviceFate → Text → Device → Option Node → Act (Table Node) DeviceError Done
create_at w path d (some n) s = (ok tt, if w.chmod path then put path (set_mode d.mode n) s else s)
create_at w path d none s =
    if not (w.mknod path)
    then (err mknod_failed, s)
    else if not (w.chmod path)
    then (err chmod_failed, put path (character d.mode (makedev d.major d.minor)) s)
    else (ok tt, put path (character d.mode (makedev d.major d.minor)) s)

-- `create`; os.Stat finds what stands at the path.
unfoldable pub create : DeviceFate → Text → Device → Act (Table Node) DeviceError Done
unfolding makedev
create w rootfs d s = let path = join_path rootfs d.path in create_at w path d (get path s) s

unfoldable pub create_each : DeviceFate → Text → List Device → Act (Table Node) DeviceError Done
create_each w rootfs [] s = (ok tt, s)
create_each w rootfs (d ∷ ds) s = (create w rootfs d >> create_each w rootfs ds) s

abbrev symlinks : List (Text × Text)
symlinks =
    (codes "/dev/fd", codes "/proc/self/fd")
    ∷ (codes "/dev/stdin", codes "/proc/self/fd/0")
    ∷ (codes "/dev/stdout", codes "/proc/self/fd/1")
    ∷ (codes "/dev/stderr", codes "/proc/self/fd/2")
    ∷ []

abbrev put_new : Text → Node → Option Node → Table Node → Table Node
put_new path n none s = put path n s
put_new path n (some m) s = s

-- os.Symlink fails where something stands at the path; its errors are dropped.
unfoldable pub link_each : DeviceFate → Text → List (Text × Text) → Table Node → Table Node
link_each w rootfs [] s = s
link_each w rootfs ((path, target) ∷ ls) s =
    let p = join_path rootfs path in
    link_each w rootfs ls (if w.linked p then put_new p (link target) (get p s) s else s)

-- `CreateAll`, with the devices of the manager.
unfoldable pub create_all : DeviceFate → Text → List Device → Act (Table Node) DeviceError Done
unfolding create_each link_each
create_all w rootfs devices = do
  fail_if (not w.made) no_dev_dir
  create_each w rootfs devices
  (λ s. (ok tt, link_each w rootfs symlinks s))
