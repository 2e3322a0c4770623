-- ===== src/Container/Volumes/Examples.antt =====
-- The theorems on the volumes of containers at concrete inputs, and tests.
use zylo.Prelude.{◌≡◌, refl, Bool, true, [], ◌∷◌, err}
use zylo.Text.{codes, ◌==◌}
use zylo.Disk.{holds, written, has}
use zylo.Integer.{ℤ, pos, int_eq}
use zylo.Zylofile.{Mount}
use zylo.Volume.{Volume, Registry, find_volume}
use zylo.Container.{Container}
use zylo.Container.Volumes.{Entry, check_volumes, volume_delete, volume_in_use}

abbrev stored : Volume
stored = record {
  name = codes "data";
  path = codes "/v/data";
  created = [];
  used_by = codes "17-1" ∷ [];
}

abbrev cache : Volume
cache = record { name = codes "cache"; path = codes "/v/cache"; created = []; used_by = [] }

abbrev both : Registry
both = stored ∷ cache ∷ []

refused :
    volume_delete true written written [] (codes "data") [] (holds both)
    ≡ (err volume_in_use, holds both)
unfolding volume_delete find_volume ◌==◌
refused = refl

abbrev mount : Mount
mount = record { name = codes "data"; host_path = codes "/v/data"; container_path = codes "/data" }

abbrev web : Container
web = record {
  id = codes "17-1";
  name = [];
  rootfs = [];
  image = [];
  copy_dir = [];
  workdir = [];
  volumes = mount ∷ [];
  network = [];
  env = [];
  cmd = [];
  cmd_path = [];
  user_tty = [];
  ports = [];
  ip = [];
  pid = 41;
}

abbrev entry : Entry
entry = record { file = holds web; pid = has (codes "41") }

abbrev is_41 : ℤ → Bool
is_41 n = int_eq n (pos 41)

mounted : check_volumes is_41 (entry ∷ []) (mount ∷ []) ≡ err (codes "/v/data")
unfolding check_volumes ◌==◌
mounted = refl
