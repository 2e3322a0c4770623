-- ===== src/Container/Start/Run.antt =====
-- `run` and `cleanup` of internal/container/lifecycle.go.
pub mod Leaks
pub mod Rules
use zylo.Prelude.{
  ℕ, zero, suc, Bool, true, false, not, Option, none, some, List, [], ◌∷◌, ◌++◌, Result, ok, err,
  eqb, if◌then◌else◌,
}
use zylo.Prelude.Actions.{Act, Done, pure, fail, fail_if, modify, wrap, ◌>>=◌, ◌>>◌}
use zylo.Text.{Text, codes, is_empty, join}
use zylo.Disk.{Write}
use zylo.Zylofile.{Mount}
use zylo.Name.{unregister_name}
use zylo.Volume.{mark_volume_used}
use zylo.Container.{Container, Runtime, Daemon}
use zylo.Container.Down
use zylo.Container.Down.{on_names, on_volumes, mark_all_unused, down}
use zylo.Container.Setup.{merged_root, build_env}
use zylo.Container.Start.{
  Running, Starting, StartFate, StartError, is_dead, set_pid, setup_network,
  persist_container_state,
}
use zylo.Container.Start.Attach.{attach_network}

-- How a run goes: the files of the log, the writes of the volumes, what `exec` gives for the
-- arguments and the variables that are added (the process, where it starts), what the process
-- ends with, and the calls of the cleanup.
pub record RunFate : Type 0 where
  pub log : Bool
  pub volume : ℕ → Write
  pub start : StartFate
  pub exec : List Text → List Text → Option ℕ
  pub finished : Bool
  pub unused : ℕ → Write
  pub name : Write
  pub down : Down.Fate

pub data RunError : Type 0 where
  no_log not_started died_at_once exit_error : RunError
  network_setup persist_failed attach_failed : StartError → RunError

-- The volumes of the container from the n-th on are marked as used.
unfoldable pub mark_all_used : (ℕ → Write) → Text → ℕ → List Mount → Daemon Done
unfolding on_volumes
mark_all_used w id n [] s = (ok tt, s)
mark_all_used w id n (v ∷ vs) s =
    let mark =
      if not (is_empty v.name)
      then mark_volume_used (w n) v.name [] id
      else mark_volume_used (w n) [] v.host_path id in
    mark_all_used w id (suc n) vs (on_volumes mark s).1

-- The arguments and the variables of the process that becomes the container.
abbrev pub cmd_args : Container → List Text
cmd_args c = codes "./container_init.sh" ∷ c.cmd

abbrev pub added_env : Container → List Text
added_env c =
    codes "_ZYLO_INIT=1"
    ∷ (codes "ZYLO_ROOTFS=" ++ merged_root c)
    ∷ (codes "_ZYLO_ENV=" ++ join 10 (build_env c))
    ∷ (if not (is_empty c.workdir) then (codes "ZYLO_WORKDIR=" ++ c.workdir) ∷ [] else [])

abbrev pub started : Option ℕ → Act Running RunError ℕ
started none s = (err not_started, s)
started (some pid) s = (ok pid, set_pid pid s)

abbrev pub on_runtime : (Runtime → Runtime) → Running → Running
on_runtime f s = record s { runtime = f s.runtime }

-- AttachNetwork, and the wait for the end of the process.
unfoldable pub attach_and_wait : RunFate → Act Running RunError Done
unfolding attach_network
attach_and_wait w = do
  (λ s. wrap attach_failed (attach_network w.start s.container) s)
  fail_if (not w.finished) exit_error

-- What comes behind the start of the process.
unfoldable pub go_on : RunFate → ℕ → Act Running RunError Done
unfolding persist_container_state attach_and_wait
go_on w pid = do
  fail_if (not (w.start.alive pid)) died_at_once
  wrap persist_failed (persist_container_state w.start)
  attach_and_wait w

-- What stands between the two `defer` and the end of `run`.
unfoldable pub run_process : RunFate → Container → Act Running RunError Done
unfolding setup_network build_env go_on
run_process w c = do
  wrap network_setup (setup_network w.start c)
  pid ← started (w.exec (cmd_args c) (added_env c))
  go_on w pid

abbrev pub drop_by_name : Write → Text → Daemon Done
drop_by_name w name = if not (is_empty name) then on_names (unregister_name w name) else pure tt

-- `cleanup`: UnregisterName is given the name, and the errors are only printed.
unfoldable pub cleanup : RunFate → Container → Runtime → Runtime
unfolding mark_all_unused on_names down
cleanup w c s =
    let s1 = (mark_all_unused w.unused c.id 0 c.volumes s).1 in
    let s2 = (drop_by_name w.name c.name s1).1 in (down w.down c.id s2).1

abbrev pub mark_used : RunFate → Container → Running → Running
mark_used w c = on_runtime (λ t. (mark_all_used w.volume c.id 0 c.volumes t).1)

-- `defer`: the cleanup comes after the return, whatever is returned.
unfoldable pub run : RunFate → Running → Result RunError Done × Running
unfolding mark_all_used run_process cleanup
run w s =
    let (r, t) = run_process w s.container (mark_used w s.container s) in
    if not w.log then (err no_log, s) else (r, on_runtime (cleanup w s.container) t)

unfoldable pub run_container : RunFate → Running → Running
unfolding run
run_container w s = (run w s).1

-- The loop of waitForContainerStart, with the rounds left: nothing changes the process any more.
unfoldable pub wait_for_container_start : ℕ → Container → Bool
wait_for_container_start zero c = false
wait_for_container_start (suc n) c =
    if not (eqb c.pid 0) then true else wait_for_container_start n c
