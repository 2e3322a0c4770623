-- ===== src/Container/Up/Outcome.antt =====
-- `Up` of internal/container/lifecycle.go: what it needs, and what its result says.
use zylo.Prelude.{
  ℕ, suc, eqb, ◌≡◌, ◌≢◌, refl, sym, ◌∙◌, ap, arith, true, false, not, some, Result, ok, err,
}
use zylo.Prelude.Actions.{
  Done, wrap, fail_if, continue, guard_inv, bind_inv, ◌>>◌, ◌>>=◌, guard_ok, bind_ok, unwrap_ok,
  bind_step, wrap_step, ok_injective,
}
use zylo.Text.{Text, is_empty}
use zylo.Disk.{absent}
use zylo.Zylofile.{Config}
use zylo.Network.{file_of}
use zylo.Container.{Container}
use zylo.Container.Setup.{Host, SetupFate, SetupError, new_container, setup, add_resolv, add_hosts}
use zylo.Container.Setup.Needs.{setup-network}
use zylo.Container.Lifecycle.{NameError, check_name}
use zylo.Container.Start.{Running, set_pid, setup_network}
use zylo.Container.Start.Run.{
  RunFate, network_setup, started, died_at_once, cmd_args, added_env, mark_used, go_on, run_process,
  run, run_container, wait_for_container_start,
}
use zylo.Container.Up.{
  UpFate, UpError, Upping, no_manager, setup_failed, name_failed, on_names, run_host, not_started,
  load, check_network, check_all, start_container, up,
}

-- Where a ZyloFile names no network, the checks leave the networks alone.
check_all-net :
    (w : UpFate) (cfg : Config) (s : Host)
    → is_empty cfg.network ≡ true
    → (check_all w cfg s).1.runtime.net ≡ s.runtime.net
unfolding check_all check_network
check_all-net w cfg s h = ground arith

-- The checks leave the containers alone.
check_all-containers :
    (w : UpFate) (cfg : Config) (s : Host)
    → (check_all w cfg s).1.runtime.containers ≡ s.runtime.containers
unfolding check_all
check_all-containers w cfg s = ground arith

setup-containers :
    (w : SetupFate) (c : Container) (s : Host)
    → (setup w c s).1.runtime.containers ≡ s.runtime.containers
unfolding setup add_resolv add_hosts
setup-containers w c s = ground arith

-- What follows an error does not happen.
continue_stops :
    (r : Result UpError Done) (f : Done → Upping Done) (s : Host)
    → r ≢ ok tt
    → (continue r f s).1 ≡ s
continue_stops (ok u) f s h = absurd (h refl)
continue_stops (err e) f s h = refl

wrap_ok :
    (r : Result SetupError Done)
    → elim r [ ok u ↦ ok u | err e ↦ err (setup_failed e) ] ≡ ok tt
    → r ≡ ok tt
wrap_ok (ok u) h = refl
wrap_ok (err e) h = absurd (cc)

up_fails :
    (w : UpFate) (p tty : Text) (cfg : Config) (s : Host)
    → (load w p tty s).0 ≡ ok cfg
    → is_empty cfg.network ≡ true
    → file_of cfg.network s.runtime.net ≡ absent
    → (up w p tty s).0 ≢ ok tt
unfolding up
up_fails w p tty cfg s hl hn ha h =
    let h1 = guard_ok (not w.manager) no_manager _ s h in
    let (cfg', got, h2, e2) = bind_ok (load w p tty) _ s tt h1 in
    let s1 = (load w p tty s).1 in
    let (u3, g3, h3, e3) = bind_ok (check_all w cfg') _ s1 tt h2 in
    let s2 = (check_all w cfg' s1).1 in
    let (u4, g4, h4, e4) =
      bind_ok (wrap setup_failed (setup w.setup (new_container w.id cfg'))) _ s2 tt h3 in
    let found =
      setup-network w.setup (new_container w.id cfg') s2
        (unwrap_ok setup_failed (setup w.setup (new_container w.id cfg')) s2 g4) in
    let same : cfg' ≡ cfg = ok_injective (sym got ∙ hl) in
    let net : s2.runtime.net ≡ s.runtime.net =
      check_all-net w cfg' s1 (ap (λ x. is_empty x.network) same ∙ hn) in
    found (ap (λ x. file_of x.network s2.runtime.net) same ∙ ap (file_of cfg.network) net ∙ ha)

-- Where a ZyloFile that is accepted names no network, and no network without a name has been saved, the
-- check of the network passes and leaves the networks as they are, the setup of a container on the same
-- networks fails, `Up` does not report that the container was started, and the containers of the daemon
-- are those that it had.
pub up-needs_network :
    (w : UpFate) (p tty : Text) (cfg : Config) (s : Host)
    → (load w p tty s).0 ≡ ok cfg
    → is_empty cfg.network ≡ true
    → file_of cfg.network s.runtime.net ≡ absent
    → (check_network w cfg s.runtime.net ≡ (ok tt, s.runtime.net))
      × ((setup w.setup (new_container w.id cfg) s).0 ≢ ok tt)
      × ((up w p tty s).0 ≢ ok tt)
      × ((up w p tty s).1.runtime.containers ≡ s.runtime.containers)
unfolding check_network up
up-needs_network w p tty cfg s hl hn ha = (
  rw hn refl,
  (λ h. setup-network w.setup (new_container w.id cfg) s h ha),
  up_fails w p tty cfg s hl hn ha,
  guard_inv Same (not w.manager) no_manager (load w p tty >>= rest) s refl (
      bind_inv Same (load w p tty) rest s refl
        λ cfg' got. checked_same cfg' (ok_injective (sym got ∙ hl))),
)
  where
    Same : Host → Type 0
    Same t = t.runtime.containers ≡ s.runtime.containers

    last : Config → Upping Done
    last c =
        wrap setup_failed (setup w.setup (new_container w.id c))
        >> start_container w (new_container w.id c)

    rest : Config → Upping Done
    rest c = check_all w c >> last c

    s1 : Host
    s1 = (load w p tty s).1

    checked_same : (c : Config) → c ≡ cfg → Same (rest c s1).1
    checked_same c e =
        bind_inv Same (check_all w c) (λ _. last c) s1 (check_all-containers w c s1)
          λ _ _.
            let s2 = (check_all w c s1).1 in
            let net : s2.runtime.net ≡ s.runtime.net =
              check_all-net w c s1 (ap (λ x. is_empty x.network) e ∙ hn) in
            let gone =
              ap (λ x. file_of x.network s2.runtime.net) e ∙ ap (file_of cfg.network) net ∙ ha in
            let stop =
              continue_stops (wrap setup_failed (setup w.setup (new_container w.id c)) s2).0
                (λ _. start_container w (new_container w.id c))
                (setup w.setup (new_container w.id c) s2).1
                λ h. setup-network w.setup (new_container w.id c) s2 (wrap_ok _ h) gone in
            ap (λ t. t.runtime.containers) stop
            ∙ setup-containers w.setup (new_container w.id c) s2
            ∙ check_all-containers w c s1

-- The container as `run` gets it, its name registered.
abbrev pub running : UpFate → Container → Host → Running
running w c s = record {
  runtime = record s.runtime {
    names = (check_name w.name_write w.now w.generated c.name c.id s.runtime.names).1;
  };
  container = c;
}

-- A process that starts and then dies at once.
process_died :
    (w : RunFate) (c : Container) (pid : ℕ) (s : Running)
    → (setup_network w.start c s).0 ≡ ok tt
    → w.exec (cmd_args c) (added_env c) ≡ some pid
    → w.start.alive pid ≡ false
    → run_process w c s ≡ (err died_at_once, set_pid pid (setup_network w.start c s).1)
unfolding run_process go_on
process_died w c pid s hs he ha =
    bind_step (wrap network_setup (setup_network w.start c))
      (λ _. started (w.exec (cmd_args c) (added_env c)) >>= go_on w) s
      (wrap_step network_setup (setup_network w.start c) s hs)
    ∙ (rw (he, ha) refl)

run-died :
    (w : RunFate) (pid : ℕ) (s : Running)
    → w.log ≡ true
    → (setup_network w.start s.container (mark_used w s.container s)).0 ≡ ok tt
    → w.exec (cmd_args s.container) (added_env s.container) ≡ some pid
    → w.start.alive pid ≡ false
    → ((run w s).0 ≡ err died_at_once) × ((run w s).1.container.pid ≡ pid)
unfolding run
run-died w pid s hl hs he ha =
    let e = process_died w s.container pid (mark_used w s.container s) hs he ha in
    rw hl (ap (λ x. x.0) e, ap (λ x. x.1.container.pid) e)

wrap_name :
    (r : Result NameError Done)
    → r ≡ ok tt
    → elim r [ ok u ↦ ok u | err e ↦ err (name_failed e) ] ≡ ok tt
wrap_name r e = rw e refl

waits : (n : ℕ) (c : Container) → eqb c.pid 0 ≡ false → wait_for_container_start (suc n) c ≡ true
unfolding wait_for_container_start
waits n c h = ground arith

-- Where the name is registered, the network set up and the process started, `Up` reports that the
-- container has started even where `run` has returned the error that the process died at once, and
-- where the cleanup has been over by then: the error of `run` is dropped, and the wait sees the number
-- of the process that is gone.
start_container-run :
    (w : UpFate) (c : Container) (pid : ℕ) (s : Host)
    → (check_name w.name_write w.now w.generated c.name c.id s.runtime.names).0 ≡ ok tt
    → w.run.log ≡ true
    → (setup_network w.run.start c (mark_used w.run c (running w c s))).0 ≡ ok tt
    → w.run.exec (cmd_args c) (added_env c) ≡ some (suc pid)
    → w.run.start.alive (suc pid) ≡ false
    → ((run w.run (running w c s)).0 ≡ err died_at_once) × ((start_container w c s).0 ≡ ok tt)
unfolding start_container run_container
start_container-run w c pid s hn hl hs he ha =
    let (died, gone) = run-died w.run (suc pid) (running w c s) hl hs he ha in
    let rest : Done → Upping Done =
      λ _. run_host w c >>= λ ctr. fail_if (not (wait_for_container_start 50 ctr)) not_started in
    let named = on_names (check_name w.name_write w.now w.generated c.name c.id) in
    let waited = waits 49 (run w.run (running w c s)).1.container (rw gone (ground arith)) in
    (died, ap (λ x. x.0) (bind_step named rest s (wrap_name _ hn)) ∙ rw waited refl)
