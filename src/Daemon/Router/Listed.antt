-- ===== src/Daemon/Router/Listed.antt =====
-- A `ps` of the client, through `router`: RuntimeCleanup and then ps of internal/container/list.go.
use zylo.Prelude.{◌≡◌, refl, true, false, none, some, List, ◌∷◌, keep, All, All-keep, subst, sym}
use zylo.Text.{Text, ◌==◌, codes, trim_space}
use zylo.Client.{main, route}
use zylo.Container.{list_containers}
use zylo.Container.Cleanup.{is_alive}
use zylo.Container.Cleanup.Living.{list-runtime_cleanup}
use zylo.Container.Listing as ContainerListing
use zylo.Container.Listing.Total.{IsHashed, Shows, ps_total}
use zylo.Daemon.Router.{System, RouterFate, silent, lines, perform, cleaned, router}

module _ {L : Type 0} where
  -- Where the client is called with `ps` and its request comes in as it was sent, every removal of a
  -- dead container succeeds, the directory can be read and the terminal opened, and the
  -- containers have identifiers of Hash, the request is answered, and the terminal shows a row for each of the containers
  -- that were listed before and whose process lives, in order, and no other.
  pub router-ps :
      (w : RouterFate L) (cwd pts input : Text) (args : List Text) (s : System L)
      → (trim_space input == codes "ping") ≡ false
      → (trim_space input == codes "status") ≡ false
      → w.decode (trim_space input) ≡ main cwd pts (codes "ps" ∷ args)
      → ((hash : Text) → w.sweep.left hash ≡ none)
      → w.dir ≡ true
      → w.tty pts ≡ true
      → All IsHashed (list_containers s.host.runtime)
      → (out : List ContainerListing.Line) × (router w input s
          ≡ some (record { reply = silent; screen = lines out; system = cleaned w s }))
        × Shows (keep (is_alive w.sweep.running) (list_containers s.host.runtime)) out
  unfolding router main route perform ◌==◌
  router-ps w cwd pts input args s hp hs hd hl dir tty hh =
      let t = cleaned w s in
      let living = list-runtime_cleanup w.sweep w.sweep_lib s.lib s.host.runtime hl in
      let (out, e, shown) =
        ps_total t.host.runtime
          (subst (All IsHashed) (sym living) (All-keep IsHashed (is_alive w.sweep.running) _ hh)) in
      (out, rw (hp, hs, hd, dir, tty, e) refl, subst (λ cs. Shows cs out) living shown)
