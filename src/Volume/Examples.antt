-- ===== src/Volume/Examples.antt =====
-- The theorems on the volume registry at concrete inputs, and tests.
use zylo.Prelude.{◌≡◌, refl, [], ◌∷◌, ok}
use zylo.Text.{codes}
use zylo.Disk.{absent, written, torn, late}
use zylo.Volume.{Volume, Registry, register_volume, list_volumes}
use zylo.Volume.Unique.{
  register, unregister, mark_used, mark_unused, IsSound, perform_all, volume_calls-IsSound,
}

abbrev logs : Volume
logs = record { name = codes "logs"; path = codes "/v/logs"; created = codes "today"; used_by = [] }

abbrev bound : Volume
bound = record {
  name = [];
  path = codes "/srv";
  created = codes "today";
  used_by = codes "17-1" ∷ [];
}

abbrev shelf : Registry
shelf = logs ∷ bound ∷ []

volume_calls-IsSound_example : IsSound (
    perform_all
      (register written (codes "now") (codes "logs") (codes "/l")
        ∷ mark_used late (codes "logs") [] (codes "1")
        ∷ mark_unused torn (codes "logs") [] (codes "1")
        ∷ unregister written (codes "logs") []
        ∷ [])
      absent)
volume_calls-IsSound_example =
    volume_calls-IsSound
      (register written (codes "now") (codes "logs") (codes "/l")
        ∷ mark_used late (codes "logs") [] (codes "1")
        ∷ mark_unused torn (codes "logs") [] (codes "1")
        ∷ unregister written (codes "logs") []
        ∷ [])
      absent tt

list_after_register :
    (list_volumes (register_volume written (codes "t") (codes "a") (codes "/a") absent).1).0
    ≡ ok (record { name = codes "a"; path = codes "/a"; created = codes "t"; used_by = [] } ∷ [])
unfolding register_volume list_volumes
list_after_register = refl
