-- ===== src/Container/Init/Jail.antt =====
-- internal/container/exec.go: what has been done where a program is executed.
use zylo.Prelude.{
  ◌≡◌, ap, arith, Bool, true, false, not, List, [], ◌∷◌, ◌++◌, any, ok, Bool-cases, inl, inr,
}
use zylo.Prelude.Actions.{bind_inv, guard_inv, ◌>>◌}
use zylo.Text.{Text, codes, is_empty}
use zylo.Container.Init.{
  Environs, SysCall, set_hostname, make_dir, change_dir, unmount, bind, pivot_root, make_private,
  mount_proc, remove_all, make_executable, execute, no_rootfs, more_args, start_script, InitFate,
  must, put_old, enter_root, start_program, enter_workdir, settle, program_env, container_init,
}

-- The calls that lead to the new root and must succeed, the last one first.
abbrev pub jail : Text → List SysCall
jail root =
    unmount (codes "/.pivot_root")
    ∷ change_dir (codes "/")
    ∷ pivot_root root (put_old root)
    ∷ make_dir (put_old root)
    ∷ bind root root
    ∷ make_private
    ∷ []

-- The first calls were these, and they succeeded.
abbrev pub InJail : InitFate → Text → List SysCall → Type 0
InJail w root cs =
    (any (λ c. not (w.go c)) (jail root) ≡ false)
    × (more : List SysCall) × (cs ≡ more ++ (jail root ++ set_hostname (codes "zylo") ∷ []))

-- Each program was executed in the new root.
abbrev pub Jailed : InitFate → Text → SysCall → List SysCall → Type 0
Jailed w root (execute path args env) earlier = InJail w root earlier
Jailed w root _ earlier = Unit

abbrev pub AllJailed : InitFate → Text → List SysCall → Type 0
AllJailed w root [] = Unit
AllJailed w root (c ∷ cs) = Jailed w root c cs × AllJailed w root cs

abbrev Kept : InitFate → Text → List SysCall → Type 0
Kept w root cs = AllJailed w root cs × InJail w root cs

is_execute : SysCall → Bool
is_execute (execute path args env) = true
is_execute _ = false

module _ (w : InitFate) (root : Text) where
  Jailed-InJail : (c : SysCall) (cs : List SysCall) → InJail w root cs → Jailed w root c cs
  Jailed-InJail (execute path args env) cs j = j
  Jailed-InJail _ cs j = tt

  call-Kept : (c : SysCall) (cs : List SysCall) → Kept w root cs → Kept w root (c ∷ cs)
  call-Kept c cs (h, j) = ((Jailed-InJail c cs j, h), (j.0, c ∷ j.1, ap (λ x. c ∷ x) j.2))

  must-log : (c : SysCall) (cs : List SysCall) → (must w c cs).1 ≡ c ∷ cs
  unfolding must
  must-log c cs = ground arith

  must-Kept : (c : SysCall) (cs : List SysCall) → Kept w root cs → Kept w root (must w c cs).1
  must-Kept c cs h = rw (must-log c cs) (call-Kept c cs h)

  start_script-Kept :
      (script : Text) (args env : List Text) (cs : List SysCall)
      → Kept w root cs
      → Kept w root (start_script w script args env cs).1
  start_script-Kept script args env cs h =
      must-Kept (execute script (script ∷ more_args args) env) (make_executable script ∷ cs)
        (call-Kept (make_executable script) cs h)

  start_program-Kept :
      (args env : List Text) (cs : List SysCall)
      → Kept w root cs
      → Kept w root (start_program w args env cs).1
  unfolding start_program
  start_program-Kept args env cs h = elim (Bool-cases w.script) [
    | inl e ↦ rw e (start_script-Kept (codes "/container_init.sh") args env cs h)
    | inr e ↦ elim (Bool-cases w.entrypoint) [
      | inl g ↦ rw (e, g) (start_script-Kept (codes "/entrypoint.sh") args env cs h)
      | inr g ↦ rw (e, g) (must-Kept (execute (codes "/bin/sh") (codes "/bin/sh" ∷ []) env) cs h)
    ]
  ]

  enter_workdir-Kept :
      (dir : Text) (cs : List SysCall) → Kept w root cs → Kept w root (enter_workdir dir cs).1
  enter_workdir-Kept dir cs h = elim (Bool-cases (is_empty dir)) [
    | inl e ↦ rw e h
    | inr e ↦ rw e (call-Kept (change_dir dir) cs h)
  ]

  settle-Kept :
      (dir : Text) (args env : List Text) (cs : List SysCall)
      → Kept w root cs
      → Kept w root (settle w dir args env cs).1
  unfolding settle
  settle-Kept dir args env cs h =
      let s1 = remove_all (codes "/.pivot_root") ∷ cs in
      let m = must-Kept mount_proc s1 (call-Kept (remove_all (codes "/.pivot_root")) cs h) in
      bind_inv (Kept w root) (must w mount_proc)
        (λ _. enter_workdir dir >> start_program w args env) s1 m
        λ _ _.
          let s2 = (must w mount_proc s1).1 in
          bind_inv (Kept w root) (enter_workdir dir) (λ _. start_program w args env) s2
            (enter_workdir-Kept dir s2 m)
            λ _ _.
              start_program-Kept args env (enter_workdir dir s2).1 (enter_workdir-Kept dir s2 m)

  not_executed : (cs : List SysCall) → any is_execute cs ≡ false → AllJailed w root cs
  unfolding is_execute
  not_executed [] h = tt
  not_executed (execute path args env ∷ cs) h = absurd (cc)
  not_executed (_ ∷ cs) h = (tt, not_executed cs h)

  enter_root-AllJailed : AllJailed w root (enter_root w root []).1
  unfolding enter_root must is_execute
  enter_root-AllJailed = not_executed (enter_root w root []).1 (ground arith)

  enter_root-InJail : (enter_root w root []).0 ≡ ok tt → InJail w root (enter_root w root []).1
  unfolding enter_root must
  enter_root-InJail h = (ground arith, [], ground arith)

-- Whatever fails, where the process executes a program, its first calls made the mounts private, bound
-- the root, moved it to the top, entered it and took the old root away, in this order, and each of
-- them succeeded.
pub container_init-AllJailed :
    (os : Environs) (w : InitFate) (env args : List Text)
    → AllJailed w (os.getenv env (codes "ZYLO_ROOTFS")) (container_init os w env args []).1
unfolding container_init
container_init-AllJailed os w env args =
    let root = os.getenv env (codes "ZYLO_ROOTFS") in
    let dir = os.getenv env (codes "ZYLO_WORKDIR") in
    let k = settle w dir args (program_env os env) in
    guard_inv (AllJailed w root) (is_empty root) no_rootfs (enter_root w root >> k) [] tt (
      bind_inv (AllJailed w root) (enter_root w root) (λ _. k) [] (enter_root-AllJailed w root)
        λ _ g.
          let s = (enter_root w root []).1 in
          (settle-Kept w root dir args (program_env os env) s
            (enter_root-AllJailed w root, enter_root-InJail w root g)).0)
