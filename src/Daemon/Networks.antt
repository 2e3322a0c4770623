-- ===== src/Daemon/Networks.antt =====
-- cleanNetworks of daemon/cleanup.go: the files that it leaves.
use zylo.Prelude.{
  ◌≡◌, refl, Bool, true, false, not, ◌&&◌, ◌||◌, Option, none, some, [], ◌∷◌, ok, arith, any, keep,
  if◌then◌else◌,
}
use zylo.Text.{Text, ◌==◌}
use zylo.Disk.{File, absent, unreadable, malformed, holds}
use zylo.Table.{Table}
use zylo.Paths.{main_net_name}
use zylo.Network.{Net, ContainerNetInfo}
use zylo.Daemon.{is_unused, clean_file, clean_networks}

abbrev pub is_bad : Text × File Net → Bool
is_bad (name, holds config) = false
is_bad (name, _) = true

module _ (removed : Text → Bool) where
  abbrev pub stays : Text × File Net → Bool
  stays (name, holds config) =
      any (λ c. true) config.containers || (config.name == main_net_name || not (removed name))
  stays (name, _) = true

  stays-is_unused :
      (name : Text) (config : Net)
      → (is_unused config && removed name) ≡ not (stays (name, holds config))
  stays-is_unused name config = only_if config.containers
    where
      only_if :
          (cs : Table ContainerNetInfo)
          → (is_unused (record config { containers = cs }) && removed name)
            ≡ not (stays (name, holds (record config { containers = cs })))
      only_if [] = ground arith
      only_if (c ∷ cs) = refl

  clean_file-keep :
      (name : Text) (config : Net) (files : Table (File Net)) (rest : Option (Table (File Net)))
      → rest ≡ (if any is_bad files then none else some (keep stays files))
      → clean_file removed name (holds config) (ok config) rest
        ≡ (if any is_bad files then none else some (keep stays ((name, holds config) ∷ files)))
  clean_file-keep name config files none h = ground arith
  clean_file-keep name config files (some r) h = ground (arith, stays-is_unused name config)

  -- The start of the daemon panics exactly where the file of some network cannot be read or
  -- decoded, and otherwise leaves, in their order, the files of the networks that have a container
  -- or are the daemon's own, and those that cannot be removed.
  pub clean_networks-keep :
      (files : Table (File Net))
      → clean_networks removed files ≡ (if any is_bad files then none else some (keep stays files))
  unfolding clean_networks
  clean_networks-keep [] = refl
  clean_networks-keep ((name, absent) ∷ files) = refl
  clean_networks-keep ((name, unreadable) ∷ files) = refl
  clean_networks-keep ((name, malformed) ∷ files) = refl
  clean_networks-keep ((name, holds config) ∷ files) =
      clean_file-keep name config files (clean_networks removed files) (clean_networks-keep files)
