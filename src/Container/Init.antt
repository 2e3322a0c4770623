-- ===== src/Container/Init.antt =====
-- ContainerInit of internal/container/exec.go: the process that `run` starts becomes the program of
-- the container.
pub mod Main
pub mod Jail
pub mod Environ
pub mod Program
mod Examples
use zylo.Prelude.{Bool, true, false, not, List, [], ◌∷◌, ◌++◌, Result, ok, err, if◌then◌else◌}
use zylo.Prelude.Actions.{Act, Done, pure, fail_if, modify, ◌>>=◌, ◌>>◌}
use zylo.Text.{Text, codes, is_empty, split}
use zylo.Paths.{join_path}

-- What the code uses of the package os, for a process that was started with these variables: Getenv
-- and Environ. Variables with a NUL byte keep a process from starting.
pub record Environs : Type 0 where
  pub getenv : List Text → Text → Text
  pub environ : List Text → List Text

-- A call of the system, with its arguments.
pub data SysCall : Type 0 where
  set_hostname make_dir change_dir unmount remove_all make_executable : Text → SysCall
  bind pivot_root : Text → Text → SysCall
  make_private mount_proc : SysCall
  execute : Text → List Text → List Text → SysCall

pub data Panic : Type 0 where
  no_rootfs : Panic
  failed : SysCall → Panic

-- The calls that succeed, and the files that the new root has.
pub record InitFate : Type 0 where
  pub go : SysCall → Bool
  pub script : Bool
  pub entrypoint : Bool

-- The calls so far, the last one first. A value means that a program has taken the place of the
-- process.
abbrev pub Init : Type 0 → Type 0
Init A = Act (List SysCall) Panic A

-- A call whose error is dropped.
abbrev pub call : SysCall → Init Done
call c = modify (λ cs. c ∷ cs)

-- `must`, and the panic where syscall.Exec returns.
unfoldable pub must : InitFate → SysCall → Init Done
must w c = do call c; fail_if (not (w.go c)) (failed c)

abbrev pub put_old : Text → Text
put_old root = join_path root (codes ".pivot_root")

-- The old root is taken away.
unfoldable pub enter_root : InitFate → Text → Init Done
unfolding must
enter_root w root = do
  call (set_hostname (codes "zylo"))
  must w make_private
  must w (bind root root)
  must w (make_dir (put_old root))
  must w (pivot_root root (put_old root))
  must w (change_dir (codes "/"))
  must w (unmount (codes "/.pivot_root"))

abbrev pub last_path : Text
last_path = codes "PATH=/usr/local/sbin:/usr/local/bin:/usr/sbin:/usr/bin:/sbin:/bin"

-- The variables of the program.
abbrev pub program_env : Environs → List Text → List Text
program_env os env =
    let given = os.getenv env (codes "_ZYLO_ENV") in
    (if not (is_empty given) then split 10 given else os.environ env) ++ last_path ∷ []

-- os.Args[1:]
abbrev pub more_args : List Text → List Text
more_args [] = []
more_args (a ∷ rest) = rest

abbrev pub start_script : InitFate → Text → List Text → List Text → Init Done
start_script w script args env = do
  call (make_executable script)
  must w (execute script (script ∷ more_args args) env)

unfoldable pub start_program : InitFate → List Text → List Text → Init Done
unfolding must
start_program w args env =
    if w.script
    then start_script w (codes "/container_init.sh") args env
    else if w.entrypoint
    then start_script w (codes "/entrypoint.sh") args env
    else must w (execute (codes "/bin/sh") (codes "/bin/sh" ∷ []) env)

abbrev pub enter_workdir : Text → Init Done
enter_workdir workdir = if not (is_empty workdir) then call (change_dir workdir) else pure tt

-- What comes behind the new root.
unfoldable pub settle : InitFate → Text → List Text → List Text → Init Done
unfolding start_program
settle w workdir args env = do
  call (remove_all (codes "/.pivot_root"))
  must w mount_proc
  enter_workdir workdir
  start_program w args env

-- `env` and `args` are what the process was started with.
unfoldable pub container_init : Environs → InitFate → List Text → List Text → Init Done
unfolding enter_root settle
container_init os w env args =
    let root = os.getenv env (codes "ZYLO_ROOTFS") in
    do
      fail_if (is_empty root) no_rootfs
      enter_root w root
      settle w (os.getenv env (codes "ZYLO_WORKDIR")) args (program_env os env)
