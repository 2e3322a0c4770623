-- ===== src/Container/Up.antt =====
-- `Up` of internal/container/lifecycle.go with checkNetwork of network.go, checkDiskSpace of
-- config.go and createAndSetupContainer of create.go: from the ZyloFile to a container.
pub mod Outcome
pub mod Examples
use zylo.Prelude.{
  ℕ, ◌*◌, Bool, true, false, not, Option, none, some, List, [], ◌∷◌, Result, ok, err, ltb,
  if◌then◌else◌,
}
use zylo.Prelude.Actions.{Act, Done, pure, fail, fail_if, lift, wrap, ◌>>=◌, ◌>>◌}
use zylo.Text.{Text, ◌==◌, is_empty}
use zylo.Disk.{File, Write}
use zylo.Paths.{main_net_name}
use zylo.Integer.{ℤ}
use zylo.Name
use zylo.Volume
use zylo.Zylofile
use zylo.Zylofile.{Config, load_config}
use zylo.Images
use zylo.Images.{ensure_image}
use zylo.Network
use zylo.Network.{NetState, network_not_found, get_network}
use zylo.Network.Subnet.{Outside}
use zylo.Network.Create
use zylo.Network.Create.{Links, create_network}
use zylo.Container
use zylo.Container.{Container, Runtime}
use zylo.Container.Ports.{are_ports_free}
use zylo.Container.Volumes.{Entry, check_volumes}
use zylo.Container.Lifecycle.{NameError, check_name}
use zylo.Container.Setup.{Host, SetupFate, SetupError, new_container, setup}
use zylo.Container.Start.{Running}
use zylo.Container.Start.Run.{RunFate, run_container, wait_for_container_start}

pub data UpError : Type 0 where
  no_manager no_tty no_space reserved nat_failed not_started : UpError
  config_failed : Zylofile.Error → UpError
  image_failed : Images.ImageError → UpError
  network_failed : Network.Error → UpError
  create_failed : Create.Error → UpError
  ports_failed : Container.Error → UpError
  volume_used : Text → UpError
  setup_failed : SetupError → UpError
  name_failed : NameError → UpError

-- What the system answers to one `Up`.
pub record UpFate : Type 0 where
  pub manager : Bool
  pub decode : Text → Option (List Text)
  pub hash : Text
  pub parse : ℕ → Zylofile.Fate
  pub source : Zylofile.Source
  pub tty : Bool
  pub free_space : Option ℕ
  pub image_there : Text → Bool
  pub image_pulled : Text → Bool
  pub links : Links
  pub outside : Outside
  pub net_write : Write
  pub net_id : Text
  pub nat : Bool
  pub listening : ℤ → Bool
  pub running : ℤ → Bool
  pub dirs : List Entry
  pub id : Text
  pub setup : SetupFate
  pub name_write : Write
  pub now : Text
  pub generated : Text
  pub run : RunFate

-- A gigabyte; where the space cannot be asked for, a warning is printed.
unfoldable pub check_disk_space : Option ℕ → Result UpError Done
check_disk_space none = ok tt
check_disk_space (some free) = if ltb free (1024 * 1024 * 1024) then err no_space else ok tt

abbrev make_network : UpFate → Text → Act NetState UpError Done
make_network w name = do
  net ← wrap create_failed (create_network w.links w.outside w.net_write w.net_id name)
  fail_if (not w.nat) nat_failed

abbrev pub checked : UpFate → Text → Result Network.Error Network.Net → Act NetState UpError Done
checked w name (ok net) = pure tt
checked w name (err network_not_found) = make_network w name
checked w name (err e) = fail (network_failed e)

unfoldable pub check_network : UpFate → Config → Act NetState UpError Done
unfolding get_network create_network
check_network w cfg s =
    if is_empty cfg.network
    then (ok tt, s)
    else if cfg.network == main_net_name
    then (err reserved, s)
    else checked w cfg.network (get_network cfg.network s).0 s

abbrev pub Upping : Type 0 → Type 0
Upping A = Act Host UpError A

abbrev pub load : UpFate → Text → Text → Upping Config
load w p tty s =
    let (r, volumes) = load_config w.decode w.hash w.parse p tty w.source s.runtime.volumes in
    (
      elim r [ ok cfg ↦ ok cfg | err e ↦ err (config_failed e) ],
      record s { runtime = record s.runtime { volumes = volumes } },
    )

abbrev pub on_net : Act NetState UpError Done → Upping Done
on_net m s =
    let (r, net) = m s.runtime.net in (r, record s { runtime = record s.runtime { net = net } })

abbrev pub image_of : Result Images.ImageError Done → Result UpError Done
image_of (ok u) = ok u
image_of (err e) = err (image_failed e)

abbrev pub ports_of : Result Container.Error Done → Result UpError Done
ports_of (ok u) = ok u
ports_of (err e) = err (ports_failed e)

abbrev pub volumes_of : Result Text Done → Result UpError Done
volumes_of (ok u) = ok u
volumes_of (err path) = err (volume_used path)

-- Everything that `Up` looks at before it makes the container.
unfoldable pub check_all : UpFate → Config → Upping Done
unfolding check_disk_space check_network check_volumes are_ports_free ensure_image
check_all w cfg = do
  fail_if (not w.tty) no_tty
  lift (check_disk_space w.free_space)
  lift (image_of (ensure_image w.image_there w.image_pulled cfg.image))
  on_net (check_network w cfg)
  (λ s. (ports_of (are_ports_free w.listening cfg.open_ports s.runtime), s))
  lift (volumes_of (check_volumes w.running w.dirs cfg.volumes))

abbrev pub on_names : Act (File Name.NameRegistry) NameError Done → Upping Done
on_names m s =
    let (r, names) = m s.runtime.names in
    (
      elim r [ ok u ↦ ok u | err e ↦ err (name_failed e) ],
      record s { runtime = record s.runtime { names = names } },
    )

-- `runContainer`, whose error is dropped, and the container then.
abbrev pub run_host : UpFate → Container → Upping Container
run_host w c s =
    let t = run_container w.run (record { runtime = s.runtime; container = c }) in
    (ok t.container, record s { runtime = t.runtime })

-- 50 rounds of 100 milliseconds.
unfoldable pub start_container : UpFate → Container → Upping Done
unfolding check_name run_container wait_for_container_start
start_container w c = do
  on_names (check_name w.name_write w.now w.generated c.name c.id)
  ctr ← run_host w c
  fail_if (not (wait_for_container_start 50 ctr)) not_started

-- `p` is the directory of the project. A process that _ZYLO_INIT marks becomes the container
-- instead, which is not modelled.
unfoldable pub up : UpFate → Text → Text → Upping Done
unfolding load_config check_all setup start_container
up w p tty = do
  fail_if (not w.manager) no_manager
  cfg ← load w p tty
  check_all w cfg
  wrap setup_failed (setup w.setup (new_container w.id cfg))
  start_container w (new_container w.id cfg)
