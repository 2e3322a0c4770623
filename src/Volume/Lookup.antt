-- ===== src/Volume/Lookup.antt =====
-- What the registry's operations find and refuse.
use zylo.Prelude.{
  ◌≡◌, refl, Bool, true, false, not, ◌&&◌, none, some, [], ◌∷◌, ok, err, arith, any, keep, first,
  first-append_miss, if◌then◌else◌,
}
use zylo.Text.{Text, ◌==◌, is_empty}
use zylo.Text.Equality.{==_refl, ==_nil}
use zylo.Disk.{File, Write, written, holds}
use zylo.Volume.{
  Volume, Registry, in_use, name_exists, name_not_found, path_not_found, picks, clash, strike,
  register_volume, unregister_volume, mark_volume_used, find_volume,
}

abbrev pub is_used : Volume → Bool
is_used v = elim v.used_by [ [] ↦ false | c ∷ cs ↦ true ]

-- The loop of UnregisterVolume, in one line.
pub strike_lem :
    (name path : Text) (reg : Registry)
    → strike name path reg ≡ (
        if any (λ v. picks name path v && is_used v) reg
        then err in_use
        else ok (keep (λ v. not (picks name path v)) reg))
unfolding strike
strike_lem name path [] = refl
strike_lem name path (v ∷ reg) = ground (arith, strike_lem name path reg)

-- UnregisterVolume on a registry that can be read and written: it is refused while a picked volume
-- is in use, reports that nothing is picked, or strikes exactly the picked volumes and leaves the
-- others in their order.
unregister_volume_lem :
    (name path : Text) (reg : Registry)
    → unregister_volume written name path (holds reg) ≡ (
        if any (λ v. picks name path v && is_used v) reg
        then (err in_use, holds reg)
        else if any (picks name path) reg
        then (ok tt, holds (keep (λ v. not (picks name path v)) reg))
        else (err (if is_empty name then path_not_found else name_not_found), holds reg))
unfolding unregister_volume
unregister_volume_lem name path reg = ground (arith, strike_lem name path reg)

clash-picks :
    (name path : Text) (reg : Registry)
    → clash name path reg ≡ ok tt
    → any (picks name []) reg ≡ false
unfolding clash
clash-picks name path [] h = refl
clash-picks name path (v ∷ reg) h = ground (arith, clash-picks name path reg)

clash-unnamed :
    (path : Text) (reg : Registry)
    → any (λ v. is_empty v.name) reg ≡ true
    → any (λ v. v.path == path) reg ≡ false
    → clash [] path reg ≡ err name_exists
unfolding clash
clash-unnamed path [] h free = cc
clash-unnamed path (v ∷ reg) h free = ground (arith, ==_nil v.name, clash-unnamed path reg)

first-path :
    (path : Text) (reg : Registry)
    → any (λ v. v.path == path) reg ≡ false
    → first (picks [] path) reg ≡ none
first-path path [] h = refl
first-path path (v ∷ reg) h = ground (arith, first-path path reg)

-- After a registration that succeeds, under a name that is not empty, the volume is found by that
-- name, with no container using it.
find-register :
    (w : Write) (now name path : Text) (f : File Registry)
    → is_empty name ≡ false
    → (register_volume w now name path f).0 ≡ ok tt
    → (find_volume name [] (register_volume w now name path f).1).0
      ≡ ok (some (record { name = name; path = path; created = now; used_by = [] }))
unfolding register_volume find_volume
find-register w now name path File.absent ne h = ground (arith, ==_refl name)
find-register w now name path (holds reg) ne h =
    let v : Volume = record { name = name; path = path; created = now; used_by = [] } in
    ground (
      arith,
      clash-picks name path reg,
      first-append_miss (picks name []) reg (v ∷ []),
      ==_refl name,
    )
find-register w now name path _ ne h = ground arith

-- Once a volume without a name is registered, a second one at a new path cannot be: the registration
-- is refused, and a later call that marks the second volume as used returns no error and changes
-- nothing.
second_unnamed_untracked :
    (w : Write) (now path id : Text) (reg : Registry)
    → any (λ v. is_empty v.name) reg ≡ true
    → any (λ v. v.path == path) reg ≡ false
    → (register_volume w now [] path (holds reg) ≡ (err name_exists, holds reg))
      × (mark_volume_used w [] path id (holds reg) ≡ (ok tt, holds reg))
unfolding register_volume mark_volume_used
second_unnamed_untracked w now path id reg named free =
    ground (arith, clash-unnamed path reg named free, first-path path reg free)
