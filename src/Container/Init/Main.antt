-- ===== src/Container/Init/Main.antt =====
-- main of cmd/zylod/zylod.go: what the program of the daemon does with its variables and arguments.
use zylo.Prelude.{Option, none, some, List, [], ◌∷◌, Result, ok, if◌then◌else◌}
use zylo.Prelude.Actions.{Done}
use zylo.Text.{Text, codes, ◌==◌}
use zylo.Container.Init.{Environs, SysCall, execute, Panic, InitFate, more_args, container_init}

-- ContainerInit with the calls that it made, the functions of the package daemon, and the two ways to
-- end with a line about the arguments.
pub data Main : Type 0 where
  contained : Result Panic Done × List SysCall → Main
  start_daemon stop_daemon show_daemon usage unknown : Main

abbrev choose : List Text → Main
choose [] = usage
choose (command ∷ rest) =
    if command == codes "up"
    then start_daemon
    else if command == codes "down"
    then stop_daemon
    else if command == codes "status"
    then show_daemon
    else unknown

unfoldable pub zylod : Environs → InitFate → List Text → List Text → Main
unfolding container_init
zylod os w env args =
    if os.getenv env (codes "_ZYLO_INIT") == codes "1"
    then contained (container_init os w env args [])
    else choose (more_args args)

-- The program, its arguments and its variables.
abbrev pub executed : List SysCall → Option (Text × List Text × List Text)
executed [] = none
executed (execute path args env ∷ cs) = some (path, args, env)
executed (_ ∷ cs) = executed cs

-- The program that the process has become.
abbrev pub program : Main → Option (Text × List Text × List Text)
program (contained (ok u, cs)) = executed cs
program _ = none
