-- ===== src/Container/Init/Program.antt =====
-- internal/container/exec.go with lifecycle.go: the program that `run` starts in this way.
use zylo.Prelude.{
  ℕ, ◌≡◌, refl, ◌∙◌, ap, arith, true, false, Option, some, List, [], ◌∷◌, ◌++◌, Result, ok, err,
  All, Bool-cases, inl, inr, if◌then◌else◌, map,
}
use zylo.Prelude.Actions.{Done, bind_step}
use zylo.Text.{Text, codes, is_empty, ◌==◌}
use zylo.Text.Lines.{Free}
use zylo.Table.{Table}
use zylo.Container.{Container}
use zylo.Disk.{File}
use zylo.Volume
use zylo.Zylofile.{Config, Fate, Source, load_config}
use zylo.Zylofile.OneLine.{IsOneLine, load_config-IsOneLine}
use zylo.Container.Setup.{default_path, new_container, assignment, build_env}
use zylo.Container.Start.Run.{added_env, cmd_args}
use zylo.Container.Init.Main.{zylod, contained, program, executed}
use zylo.Container.Init.Environ.{given_init, Laws, given_root, root_given, program_env-added_env}
use zylo.Container.Init.{
  Environs, SysCall, Panic, change_dir, mount_proc, remove_all, InitFate, last_path, program_env,
  must, enter_root, start_program, settle, more_args, container_init,
}

-- Which program a root has, and the arguments that it is given.
abbrev pub chosen : InitFate → List Text → Text × List Text
chosen w cmd =
    if w.script
    then (codes "/container_init.sh", codes "/container_init.sh" ∷ cmd)
    else if w.entrypoint
    then (codes "/entrypoint.sh", codes "/entrypoint.sh" ∷ cmd)
    else (codes "/bin/sh", codes "/bin/sh" ∷ [])

module _ (w : InitFate) (good : (x : SysCall) → w.go x ≡ true) where
  must-go : (x : SysCall) (cs : List SysCall) → must w x cs ≡ (ok tt, x ∷ cs)
  unfolding must
  must-go x cs = rw (good x) refl

  enter_root-go : (root : Text) (cs : List SysCall) → (enter_root w root cs).0 ≡ ok tt
  unfolding enter_root
  enter_root-go root cs = simp (must-go)

  -- The program is executed at last.
  abbrev Ends : List Text → List Text → Result Panic Done × List SysCall → Type 0
  Ends args env r =
      (r.0 ≡ ok tt)
      × (executed r.1 ≡ some ((chosen w (more_args args)).0, (chosen w (more_args args)).1, env))

  start_program-go :
      (args env : List Text) (cs : List SysCall) → Ends args env (start_program w args env cs)
  unfolding start_program
  start_program-go args env cs = elim (Bool-cases w.script) [
    | inl e ↦ rw e (simp (must-go), simp (must-go))
    | inr e ↦ elim (Bool-cases w.entrypoint) [
      | inl g ↦ rw (e, g) (simp (must-go), simp (must-go))
      | inr g ↦ rw (e, g) (simp (must-go), simp (must-go))
    ]
  ]

  settle-go :
      (dir : Text) (args env : List Text) (cs : List SysCall)
      → Ends args env (settle w dir args env cs)
  unfolding settle
  settle-go dir args env cs =
      let s1 = remove_all (codes "/.pivot_root") ∷ cs in
      rw (must-go mount_proc s1) (elim (Bool-cases (is_empty dir)) [
        | inl e ↦ rw e (start_program-go args env (mount_proc ∷ s1))
        | inr e ↦ rw e (start_program-go args env (change_dir dir ∷ mount_proc ∷ s1))
      ])

  container_init-go :
      (os : Environs) (env args : List Text)
      → is_empty (os.getenv env (codes "ZYLO_ROOTFS")) ≡ false
      → Ends args (program_env os env) (container_init os w env args [])
  unfolding container_init
  container_init-go os env args h =
      let root = os.getenv env (codes "ZYLO_ROOTFS") in
      let dir = os.getenv env (codes "ZYLO_WORKDIR") in
      let k = settle w dir args (program_env os env) in
      rw (h, bind_step (enter_root w root) (λ _. k) [] (enter_root-go root []))
        (settle-go dir args (program_env os env) (enter_root w root []).1)

append-Free : (k v : Text) → Free 10 k → Free 10 v → Free 10 (assignment (k, v))
append-Free [] v fk fv = ground arith
append-Free (c ∷ k) v fk fv = ground (arith, append-Free k v)

build_env-Free : (c : Container) → IsOneLine c.env → All (Free 10) (build_env c)
unfolding build_env
build_env-Free c h = (refl, map-Free c.env h)
  where
    map-Free : (t : Table Text) → IsOneLine t → All (Free 10) (map assignment t)
    map-Free [] f = tt
    map-Free ((k, v) ∷ t) f = (append-Free k v f.0.0 f.0.1, map-Free t f.1)

-- The calls that end with a program.
became :
    (r : Result Panic Done × List SysCall) (found : Option (Text × List Text × List Text))
    → r.0 ≡ ok tt
    → executed r.1 ≡ found
    → program (contained r) ≡ found
became (ok u, cs) found h e = e
became (err x, cs) found h e = absurd (cc)

-- Take a container that is made from an accepted ZyloFile, and the process of zylod that `run` starts
-- for it, with whatever variables the daemon has. Where each call of the system succeeds, the process
-- becomes the program that the root has: container_init.sh, or else entrypoint.sh, with the command of
-- the ZyloFile as its arguments, or else the shell without any. Its variables are the default path,
-- those of the ZyloFile in the order of the range over their map, each whole, and the last path.
pub zylod-load_config :
    (os : Environs)
    → Laws os
    → (w : InitFate) → ((x : SysCall) → w.go x ≡ true)
    → (decode : Text → Option (List Text)) (hash : Text) (fates : ℕ → Fate) (p tty : Text)
      (source : Source) (reg : File Volume.Registry) {config : Config}
    → (load_config decode hash fates p tty source reg).0 ≡ ok config
    → (id : Text) (env : List Text)
    → (let c = new_container id config in
        program (zylod os w (env ++ added_env c) (cmd_args c))
        ≡ some (
          (chosen w config.cmd).0,
          (chosen w config.cmd).1,
          default_path ∷ (map assignment config.env ++ last_path ∷ []),
        ))
unfolding zylod build_env ◌==◌
zylod-load_config os laws w good decode hash fates p tty source reg {config} e id env =
    let c = new_container id config in
    let free = build_env-Free c (load_config-IsOneLine decode hash fates p tty source reg e) in
    let root = ap is_empty (given_root os laws env c) ∙ root_given os laws c in
    let (done, ends) = container_init-go w good os (env ++ added_env c) (cmd_args c) root in
    rw (given_init os laws env c) (
      became (container_init os w (env ++ added_env c) (cmd_args c) []) _ done (
        ends
        ∙ ap (λ x. some ((chosen w config.cmd).0, (chosen w config.cmd).1, x))
            (program_env-added_env os laws env c free)))
