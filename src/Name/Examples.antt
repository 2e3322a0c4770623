-- ===== src/Name/Examples.antt =====
-- The theorems on the name registry at concrete inputs, and tests.
use zylo.Prelude.{◌≡◌, refl, ◌≢◌, List, [], ◌∷◌, ok, err, arith}
use zylo.Text.{codes, ◌==◌}
use zylo.Text.Equality.{==_iff}
use zylo.Disk.{torn, File, absent, holds, malformed, written, torn}
use zylo.Name.{
  NameEntry, NameRegistry, not_found, register_name, unregister_name, get_container_id_by_name,
}
use zylo.Name.Unique.{Call, register, unregister, IsSound, perform_all, name_calls-IsSound}
use zylo.Name.Race.{
  World, start, finished, left_turn, right_turn, run, Turn, run-in_turn, in_turn, alternate,
  IsConsistent, run-IsConsistent, race_loses_name,
}

abbrev web : NameEntry
web = record { name = codes "web"; container = codes "17-1"; created = codes "today" }

abbrev db : NameEntry
db = record { name = codes "db"; container = codes "17-2"; created = codes "today" }

abbrev two : File NameRegistry
two = holds (web ∷ db ∷ [])

abbrev script : List Call
script =
    register written (codes "now") (codes "web") (codes "1")
    ∷ register written (codes "now") (codes "web") (codes "2")
    ∷ unregister torn (codes "1")
    ∷ []

name_calls-IsSound_example : IsSound (perform_all script absent)
name_calls-IsSound_example = name_calls-IsSound script absent tt

script_torn : perform_all script absent ≡ malformed
unfolding perform_all register_name unregister_name ◌==◌
script_torn = refl

abbrev both : World
both = record {
  file = holds [];
  left = record { entry = web; stage = start };
  right = record { entry = db; stage = start };
}

run-in_turn_example :
    let w' = run in_turn both in
    (w'.left.stage ≡ finished (ok tt))
    × ((get_container_id_by_name (codes "web") w'.file).0 ≡ ok (codes "17-1"))
    × (w'.right.stage ≡ finished (ok tt))
    × ((get_container_id_by_name (codes "db") w'.file).0 ≡ ok (codes "17-2"))
unfolding ◌==◌
run-in_turn_example = run-in_turn [] both refl refl refl refl refl

-- A save that fails half-way in between.
abbrev torn_turns : List Turn
torn_turns = left_turn torn ∷ right_turn torn ∷ left_turn torn ∷ right_turn written ∷ []

web-ne-db : web.name ≢ db.name
unfolding ◌==◌
web-ne-db e = ground (arith, ==_iff web.name db.name)

run-IsConsistent_example : IsConsistent (run torn_turns both)
run-IsConsistent_example =
    run-IsConsistent torn_turns both
      (record { file_sound = tt; left_unique = tt; right_unique = tt })

race_loses_name_example :
    let w' = run alternate both in
    (w'.left.stage ≡ finished (ok tt))
    × (w'.right.stage ≡ finished (ok tt))
    × ((get_container_id_by_name (codes "web") w'.file).0 ≡ err not_found)
race_loses_name_example = race_loses_name [] both refl refl refl refl refl web-ne-db
