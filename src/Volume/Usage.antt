-- ===== src/Volume/Usage.antt =====
-- Which containers use a volume.
use zylo.Prelude.{
  ◌≡◌, refl, Bool, true, false, not, ◌&&◌, none, some, List, [], ◌∷◌, ◌++◌, ok, err, arith, any,
  keep, first, if◌then◌else◌,
}
use zylo.Text.{Text, ◌==◌}
use zylo.Text.Equality.{==_refl}
use zylo.Disk.{Write, written, holds}
use zylo.Volume.{
  Volume, Registry, in_use, picks, change, add_user, drop_user, unregister_volume, mark_volume_used,
  mark_volume_unused, find_volume,
}
use zylo.Volume.Lookup.{is_used, strike_lem}

abbrev pub has_user : Text → Volume → Bool
has_user id v = any (λ u. u == id) v.used_by

-- A change that keeps a volume picked is what a later search finds.
first-change :
    (name path : Text) (f : Volume → Volume) (reg : Registry)
    → ((v : Volume) → picks name path (f v) ≡ picks name path v)
    → first (picks name path) (change name path f reg)
      ≡ (elim (first (picks name path) reg) [ none ↦ none | some v ↦ some (f v) ])
first-change name path f [] same = refl
first-change name path f (v ∷ reg) same = ground (arith, same v, first-change name path f reg same)

change-change :
    (name path : Text) (f g : Volume → Volume) (reg : Registry) {v : Volume}
    → ((u : Volume) → picks name path (f u) ≡ picks name path u)
    → first (picks name path) reg ≡ some v
    → g (f v) ≡ v
    → change name path g (change name path f reg) ≡ reg
change-change name path f g [] same at back = refl
change-change name path f g (u ∷ reg) {v} same at back =
    ground (arith, same u, change-change name path f g reg {v = v} same)

keep-add :
    (id : Text) (us : List Text)
    → any (λ u. u == id) us ≡ false
    → keep (λ u. not (u == id)) (us ++ id ∷ []) ≡ us
keep-add id [] h = ground (arith, ==_refl id)
keep-add id (u ∷ us) h = ground (arith, keep-add id us)

any-used :
    (name path id : Text) (reg : Registry) {v : Volume}
    → first (picks name path) reg ≡ some v
    → has_user id v ≡ true
    → any (λ u. picks name path u && is_used u) reg ≡ true
any-used name path id [] at used = cc
any-used name path id (u ∷ reg) {v} at used = ground (arith, any-used name path id reg {v = v})

-- After a volume that the registry has is marked as used, a search finds it with the container added
-- to its users, or just as it was if the container was among them already.
find-mark_used :
    (name path id : Text) (reg : Registry) (v : Volume)
    → first (picks name path) reg ≡ some v
    → (find_volume name path (mark_volume_used written name path id (holds reg)).1).0
      ≡ ok (some (if has_user id v then v else add_user id v))
unfolding mark_volume_used find_volume
find-mark_used name path id reg v at =
    ground (arith, first-change name path (add_user id) reg (λ _. refl))

-- Marking a volume that the registry has as used by a container that did not use it, and then as
-- unused by the same container, with writes that go through, gives the registry back as it was.
mark_unused-mark_used :
    (name path id : Text) (reg : Registry) (v : Volume)
    → first (picks name path) reg ≡ some v
    → has_user id v ≡ false
    → mark_volume_unused written name path id (mark_volume_used written name path id (holds reg)).1
      ≡ (ok tt, holds reg)
unfolding mark_volume_unused mark_volume_used
mark_unused-mark_used name path id reg v at new =
    let again = change name path (add_user id) reg in
    ground (
      arith,
      first-change name path (add_user id) reg (λ _. refl),
      keep-add id v.used_by new,
      change-change name path (add_user id) (drop_user id) reg {v = v} (λ _. refl) at,
    )

-- While some container uses the first volume that the arguments pick, the volume cannot be
-- unregistered, and the attempt leaves the registry as it was.
used_stays :
    (w : Write) (name path id : Text) (reg : Registry) (v : Volume)
    → first (picks name path) reg ≡ some v
    → has_user id v ≡ true
    → unregister_volume w name path (holds reg) ≡ (err in_use, holds reg)
unfolding unregister_volume
used_stays w name path id reg v at used =
    ground (arith, strike_lem name path reg, any-used name path id reg {v = v} at used)
