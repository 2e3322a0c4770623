-- ===== src/Name/Race.antt =====
-- Two registrations at once. `nameMu` is held by the load and by the save, and not between them,
-- so a registration is two atomic steps that those of another goroutine may stand between.
use zylo.Prelude.{
  ◌≡◌, ◌≢◌, false, List, [], ◌∷◌, ◌++◌, Result, ok, err, arith, any, any-append, first-none,
  if◌then◌else◌,
}
use zylo.Prelude.Actions.{Done}
use zylo.Text.{◌==◌}
use zylo.Text.Equality.{==_iff, ==_refl}
use zylo.Disk.{File, Fault, Write, holds, written, write}
use zylo.Name.{
  NameEntry, NameRegistry, Error, disk, already_exists, not_found, has_name, load_name_registry,
  save_name_registry, get_container_id_by_name,
}
use zylo.Name.Lookup.{first-add}
use zylo.Name.Unique.{IsSound, NamesUnique, NamesUnique-add}

-- Where a call of RegisterName stands: before its load, before its save, or back.
pub data Stage : Type 0 where
  start : Stage
  loaded : NameRegistry → Stage
  finished : Result Error Done → Stage

pub record Client : Type 0 where
  pub entry : NameEntry
  pub stage : Stage

abbrev after_load : NameEntry → Result Fault NameRegistry → Stage
after_load n (err e) = finished (err (disk e))
after_load n (ok reg) =
    if any (has_name n.name) reg then finished (err already_exists) else loaded (reg ++ n ∷ [])

abbrev after_save : Result Fault Done → Stage
after_save (err e) = finished (err (disk e))
after_save (ok u) = finished (ok u)

advance : Write → NameEntry → Stage → File NameRegistry → Stage × File NameRegistry
unfolding load_name_registry save_name_registry
advance v n start f = (after_load n (load_name_registry f).0, f)
advance v n (loaded reg) f = let (r, f') = save_name_registry v reg f in (after_save r, f')
advance v n (finished r) f = (finished r, f)

pub record World : Type 0 where
  pub file : File NameRegistry
  pub left : Client
  pub right : Client

-- One atomic step of the client on the left or on the right, with how a save would go in it.
pub data Turn : Type 0 where
  left_turn right_turn : Write → Turn

unfoldable pub step : Turn → World → World
unfolding advance
step (left_turn v) w =
    let (s, f) = advance v w.left.entry w.left.stage w.file in
    record w { file = f; left = record w.left { stage = s } }
step (right_turn v) w =
    let (s, f) = advance v w.right.entry w.right.stage w.file in
    record w { file = f; right = record w.right { stage = s } }

unfoldable pub run : List Turn → World → World
unfolding step
run [] w = w
run (t ∷ ts) w = run ts (step t w)

-- A client that is about to save holds a registry with unique names.
abbrev HasUnique : Stage → Type 0
HasUnique (loaded reg) = NamesUnique reg
HasUnique _ = Unit

pub record IsConsistent (w : World) : Type 0 where
  pub file_sound : IsSound w.file
  pub left_unique : HasUnique w.left.stage
  pub right_unique : HasUnique w.right.stage

save-IsSound :
    (v : Write) (reg : NameRegistry) (f : File NameRegistry)
    → IsSound f
    → NamesUnique reg
    → IsSound (save_name_registry v reg f).1
unfolding save_name_registry write
save-IsSound Write.written reg f h u = u
save-IsSound Write.no_dir reg f h u = h
save-IsSound Write.not_opened reg f h u = h
save-IsSound Write.torn reg f h u = tt
save-IsSound Write.late reg f h u = u

advance-HasUnique :
    (v : Write) (n : NameEntry) (s : Stage) (f : File NameRegistry)
    → IsSound f
    → HasUnique s
    → HasUnique (advance v n s f).0 × IsSound (advance v n s f).1
unfolding advance write
advance-HasUnique v n start (holds reg) hf hs = ground (arith, NamesUnique-add reg n hf)
advance-HasUnique v n start _ hf hs = ground arith
advance-HasUnique v n (loaded reg) f hf hs = (ground arith, save-IsSound v reg f hf hs)
advance-HasUnique v n (finished r) f hf hs = ground arith

step-IsConsistent : (t : Turn) (w : World) → IsConsistent w → IsConsistent (step t w)
unfolding step
step-IsConsistent (left_turn v) w c =
    let (s, f) = advance-HasUnique v w.left.entry w.left.stage w.file c.file_sound c.left_unique in
    record { file_sound = f; left_unique = s; right_unique = c.right_unique }
step-IsConsistent (right_turn v) w c =
    let (s, f) =
      advance-HasUnique v w.right.entry w.right.stage w.file c.file_sound c.right_unique in
    record { file_sound = f; left_unique = c.left_unique; right_unique = s }

-- From a state in which the registry has unique names, and so has each registry that one of the two
-- clients has loaded, any interleaving of their steps leads to such a state, whichever saves fail, are
-- refused or leave a file that does not decode.
pub run-IsConsistent : (ts : List Turn) (w : World) → IsConsistent w → IsConsistent (run ts w)
unfolding run
run-IsConsistent [] w c = c
run-IsConsistent (t ∷ ts) w c = run-IsConsistent ts (step t w) (step-IsConsistent t w c)

abbrev pub in_turn : List Turn
in_turn = left_turn written ∷ left_turn written ∷ right_turn written ∷ right_turn written ∷ []

-- Where the file of the registry can be read and decoded, both saves go through, and the two steps of
-- one registration come before the two of another, each of a name that is not in the registry: the
-- first returns without an error, and its name stands for its container afterwards. The second does so
-- too where the names differ; where they are the same, it returns that the name exists, and the name
-- still stands for the container of the first.
pub run-in_turn :
    (reg : NameRegistry) (w : World)
    → w.file ≡ holds reg
    → w.left.stage ≡ start
    → w.right.stage ≡ start
    → any (has_name w.left.entry.name) reg ≡ false
    → any (has_name w.right.entry.name) reg ≡ false
    → let w' = run in_turn w in
      (w'.left.stage ≡ finished (ok tt))
      × ((get_container_id_by_name w.left.entry.name w'.file).0 ≡ ok w.left.entry.container)
      × (w'.right.stage
          ≡ finished
              (if w.left.entry.name == w.right.entry.name then err already_exists else ok tt))
      × ((get_container_id_by_name w.right.entry.name w'.file).0
          ≡ ok (
              if w.left.entry.name == w.right.entry.name
              then w.left.entry.container
              else w.right.entry.container))
unfolding run get_container_id_by_name
run-in_turn reg w hf hl hr fl fr =
    let l = w.left.entry in
    let r = w.right.entry in
    let added = any-append (has_name r.name) reg (l ∷ []) in
    let same = ==_iff l.name r.name in
    let one = first-add l.name reg l fl in
    let other = first-add r.name (reg ++ l ∷ []) r in
    let kept = first-add l.name (reg ++ l ∷ []) r in
    (
      ground (arith, added, same),
      ground (arith, added, same, one, kept, ==_iff r.name l.name, ==_refl l.name),
      ground (arith, added, same),
      ground (arith, added, same, one, other, ==_refl r.name, first-add r.name reg l fl),
    )

abbrev pub alternate : List Turn
alternate = left_turn written ∷ right_turn written ∷ left_turn written ∷ right_turn written ∷ []

-- Where the file of the registry can be read and decoded and both saves go through, two registrations
-- of different names that are not in it, whose loads both come before the saves, both return without an
-- error, and yet the name that was saved first is not in the registry afterwards.
pub race_loses_name :
    (reg : NameRegistry) (w : World)
    → w.file ≡ holds reg
    → w.left.stage ≡ start
    → w.right.stage ≡ start
    → any (has_name w.left.entry.name) reg ≡ false
    → any (has_name w.right.entry.name) reg ≡ false
    → w.left.entry.name ≢ w.right.entry.name
    → let w' = run alternate w in
      (w'.left.stage ≡ finished (ok tt))
      × (w'.right.stage ≡ finished (ok tt))
      × ((get_container_id_by_name w.left.entry.name w'.file).0 ≡ err not_found)
unfolding run get_container_id_by_name
race_loses_name reg w hf hl hr fl fr ne =
    let n = w.right.entry in
    ground (
      arith,
      any-append (has_name w.left.entry.name) reg (n ∷ []),
      first-none (has_name w.left.entry.name) (reg ++ n ∷ []),
      ==_iff n.name w.left.entry.name,
    )
