-- ===== src/Daemon/Containers/Examples.antt =====
-- The theorems on left containers at a concrete state, and tests.
use zylo.Prelude.{◌≡◌, refl, ◌↔◌, Bool, keep, true, false, none, [], ◌∷◌, if◌then◌else◌}
use zylo.Text.{Text, codes, ◌==◌}
use zylo.Disk.{absent, malformed, missing, has, holds, written, whole, read_text}
use zylo.Integer.{atoi}
use zylo.Volume.{Volume, Registry}
use zylo.Container.{Runtime}
use zylo.Daemon.Containers.{CleanFate, clean_runtime_containers, clean_container_resources}
use zylo.Daemon.Containers.Living.{IsLive, clean_runtime_containers-keep}
use zylo.Daemon.Containers.Volumes.{Apart, clean_container_resources-volumes}

-- The process of 17-1 runs, and the other directories have no file of a process.
abbrev pub fate : CleanFate
fate = record {
  pids = λ hash. if hash == codes "17-1" then has (codes "41") else missing;
  running = λ pid. true;
  volume = λ hash n. written;
  name = λ hash. written;
  net = λ hash name. record { config = written; made = true; base = whole; change = whole };
  left = λ hash. none;
  lib_left = λ hash. false;
}

abbrev pub named : Volume
named = record {
  name = codes "data";
  path = codes "/srv/data";
  created = codes "t";
  used_by = codes "17-1" ∷ codes "17-2" ∷ [];
}

abbrev pub bound : Volume
bound = record named { name = []; path = codes "/home/db"; used_by = codes "17-2" ∷ [] }

abbrev pub registry : Registry
registry = named ∷ bound ∷ []

abbrev pub state : Runtime
state = record {
  containers = (codes "17-1", absent) ∷ (codes "17-2", malformed) ∷ [];
  names = absent;
  volumes = holds registry;
  net = record { networks = []; hosts = [] };
  rules = [];
}

clean_runtime_containers-keep_example :
    (stays : Text → Bool) × ((hash : Text) → (stays hash ≡ true) ↔ IsLive fate hash)
    × ((clean_runtime_containers fate state.containers [] state).0
        ≡ keep (λ d. stays d.0) state.containers)
clean_runtime_containers-keep_example =
    clean_runtime_containers-keep fate state.containers [] state (λ hash. refl)

living : (clean_runtime_containers fate state.containers [] state).0 ≡ (codes "17-1", absent) ∷ []
unfolding clean_runtime_containers read_text atoi ◌==◌
living = refl

registry-Apart : Apart registry
unfolding ◌==◌
registry-Apart = (refl, (refl, tt), (refl, tt, tt))

clean_container_resources-volumes_example :
    (clean_container_resources fate (codes "17-2") state).volumes
    ≡ holds (record named { used_by = codes "17-1" ∷ [] } ∷ record bound { used_by = [] } ∷ [])
unfolding ◌==◌
clean_container_resources-volumes_example =
    clean_container_resources-volumes fate (codes "17-2") state registry refl registry-Apart
      (λ n. refl)
