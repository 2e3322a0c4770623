-- ===== src/Volume/Unique.antt =====
-- volume/volume.go: the names, paths and users in the registry, call by call.
use zylo.Prelude.{
  ◌≡◌, refl, Bool, false, not, ◌||◌, Option, none, some, List, [], ◌∷◌, ◌++◌, ok, arith, any, keep,
  first, any-append, any-keep, Bool-cases, inl, inr,
}
use zylo.Text.{Text, ◌==◌}
use zylo.Text.Equality.{==_sym}
use zylo.Disk.{File, Write, holds}
use zylo.Volume.Lookup.{strike_lem}
use zylo.Volume.{
  Volume, Registry, picks, clash, change, add_user, drop_user, register_volume, mark_used_in,
  mark_unused_in, save_registry, unregister_volume, mark_volume_used, mark_volume_unused,
}

abbrev pub clashes : Text → Text → Volume → Bool
clashes name path v = v.name == name || v.path == path

abbrev pub UsersUnique : List Text → Type 0
UsersUnique [] = Unit
UsersUnique (u ∷ us) = (any (λ x. x == u) us ≡ false) × UsersUnique us

abbrev pub IsValid : Registry → Type 0
IsValid [] = Unit
IsValid (v ∷ reg) = (any (clashes v.name v.path) reg ≡ false) × UsersUnique v.used_by × IsValid reg

-- Whatever the file holds is valid.
abbrev pub IsSound : File Registry → Type 0
IsSound (File.holds reg) = IsValid reg
IsSound _ = Unit

-- The loop of RegisterVolume finds a clash exactly when there is one.
pub clash-any :
    (name path : Text) (reg : Registry)
    → clash name path reg ≡ ok tt
    → any (clashes name path) reg ≡ false
unfolding clash
clash-any name path [] h = refl
clash-any name path (v ∷ reg) h = ground (arith, clash-any name path reg)

IsValid-add :
    (reg : Registry) (v : Volume)
    → IsValid reg
    → UsersUnique v.used_by
    → any (clashes v.name v.path) reg ≡ false
    → IsValid (reg ++ v ∷ [])
IsValid-add [] v h u new = (refl, u, tt)
IsValid-add (m ∷ reg) v h u new = (
  ground (
    arith,
    any-append (clashes m.name m.path) reg (v ∷ []),
    ==_sym v.name m.name,
    ==_sym v.path m.path,
  ),
  h.1,
  IsValid-add reg v h.2 u (ground arith),
)

IsValid-keep : (p : Volume → Bool) (reg : Registry) → IsValid reg → IsValid (keep p reg)
IsValid-keep p [] h = h
IsValid-keep p (v ∷ reg) h =
    ground (arith, IsValid-keep p reg h.2, any-keep (clashes v.name v.path) p reg h.0)

UsersUnique-add :
    (id : Text) (us : List Text)
    → any (λ u. u == id) us ≡ false
    → UsersUnique us
    → UsersUnique (us ++ id ∷ [])
UsersUnique-add id [] h u = (refl, tt)
UsersUnique-add id (x ∷ us) h u =
    ground
      (arith, UsersUnique-add id us, any-append (λ (y : Text). y == x) us (id ∷ []), ==_sym id x)

UsersUnique-drop :
    (id : Text) (us : List Text) → UsersUnique us → UsersUnique (keep (λ u. not (u == id)) us)
UsersUnique-drop id [] u = tt
UsersUnique-drop id (x ∷ us) u =
    ground (
      arith,
      UsersUnique-drop id us u.1,
      any-keep (λ (y : Text). y == x) (λ y. not (y == id)) us u.0,
    )

-- A change that leaves names and paths alone makes no clash.
any-change :
    (name path n p : Text) (f : Volume → Volume) (reg : Registry)
    → ((v : Volume) → ((f v).name ≡ v.name) × ((f v).path ≡ v.path))
    → any (clashes n p) (change name path f reg) ≡ any (clashes n p) reg
any-change name path n p f [] same = refl
any-change name path n p f (v ∷ reg) same =
    ground (arith, same v, any-change name path n p f reg same)

IsValid-change :
    (name path : Text) (f : Volume → Volume) (reg : Registry) {v : Volume}
    → ((u : Volume) → ((f u).name ≡ u.name) × ((f u).path ≡ u.path))
    → first (picks name path) reg ≡ some v
    → (UsersUnique v.used_by → UsersUnique (f v).used_by)
    → IsValid reg
    → IsValid (change name path f reg)
IsValid-change name path f [] same at keeps h = tt
IsValid-change name path f (u ∷ reg) {v} same at keeps h = ground (
  arith,
  same u,
  any-change name path u.name u.path f reg same,
  IsValid-change name path f reg {v = v} same,
)

pub register_volume-IsSound :
    (w : Write) (now name path : Text) (f : File Registry)
    → IsSound f
    → IsSound (register_volume w now name path f).1
unfolding register_volume
register_volume-IsSound w now name path (File.holds reg) h =
    let v : Volume = record { name = name; path = path; created = now; used_by = [] } in
    ground (arith, IsValid-add reg v h tt, clash-any name path reg)
register_volume-IsSound w now name path File.absent h = ground arith
register_volume-IsSound w now name path _ h = ground arith

unregister_volume-IsSound :
    (w : Write) (name path : Text) (f : File Registry)
    → IsSound f
    → IsSound (unregister_volume w name path f).1
unfolding unregister_volume
unregister_volume-IsSound w name path (File.holds reg) h =
    ground (arith, strike_lem name path reg, IsValid-keep (λ v. not (picks name path v)) reg h)
unregister_volume-IsSound w name path File.absent h = ground (arith, strike_lem name path [])
unregister_volume-IsSound w name path _ h = ground arith

mark_used_in-IsSound :
    (w : Write) (name path id : Text) (reg : Registry) (o : Option Volume)
    → first (picks name path) reg ≡ o
    → IsValid reg
    → IsSound (mark_used_in w name path id reg o (holds reg)).1
unfolding save_registry
mark_used_in-IsSound w name path id reg none e h = h
mark_used_in-IsSound w name path id reg (some v) e h =
    elim (Bool-cases (any (λ u. u == id) v.used_by)) [
      | inl old ↦ rw old h
      | inr new ↦ rw new (
          ground (
            arith,
            IsValid-change name path (add_user id) reg (λ _. (refl, refl)) e
                (UsersUnique-add id v.used_by new) h,
          ))
    ]

mark_unused_in-IsSound :
    (w : Write) (name path id : Text) (reg : Registry) (o : Option Volume)
    → first (picks name path) reg ≡ o
    → IsValid reg
    → IsSound (mark_unused_in w name path id reg o (holds reg)).1
unfolding save_registry
mark_unused_in-IsSound w name path id reg none e h = h
mark_unused_in-IsSound w name path id reg (some v) e h = ground (
  arith,
  IsValid-change name path (drop_user id) reg (λ _. (refl, refl)) e (UsersUnique-drop id v.used_by)
      h,
)

mark_volume_used-IsSound :
    (w : Write) (name path id : Text) (f : File Registry)
    → IsSound f
    → IsSound (mark_volume_used w name path id f).1
unfolding mark_volume_used
mark_volume_used-IsSound w name path id (File.holds reg) h =
    mark_used_in-IsSound w name path id reg (first (picks name path) reg) refl h
mark_volume_used-IsSound w name path id File.absent h = ground arith
mark_volume_used-IsSound w name path id _ h = ground arith

mark_volume_unused-IsSound :
    (w : Write) (name path id : Text) (f : File Registry)
    → IsSound f
    → IsSound (mark_volume_unused w name path id f).1
unfolding mark_volume_unused
mark_volume_unused-IsSound w name path id (File.holds reg) h =
    mark_unused_in-IsSound w name path id reg (first (picks name path) reg) refl h
mark_volume_unused-IsSound w name path id File.absent h = ground arith
mark_volume_unused-IsSound w name path id _ h = ground arith

-- The calls that write the registry, each with how its write goes.
pub data Call : Type 0 where
  register : Write → Text → Text → Text → Call
  unregister : Write → Text → Text → Call
  mark_used mark_unused : Write → Text → Text → Text → Call

unfoldable pub perform : Call → File Registry → File Registry
perform (register w now name path) f = (register_volume w now name path f).1
perform (unregister w name path) f = (unregister_volume w name path f).1
perform (mark_used w name path id) f = (mark_volume_used w name path id f).1
perform (mark_unused w name path id) f = (mark_volume_unused w name path id f).1

unfoldable pub perform_all : List Call → File Registry → File Registry
unfolding perform
perform_all [] f = f
perform_all (c ∷ cs) f = perform_all cs (perform c f)

perform-IsSound : (c : Call) (f : File Registry) → IsSound f → IsSound (perform c f)
unfolding perform
perform-IsSound (register w now name path) f h = register_volume-IsSound w now name path f h
perform-IsSound (unregister w name path) f h = unregister_volume-IsSound w name path f h
perform-IsSound (mark_used w name path id) f h = mark_volume_used-IsSound w name path id f h
perform-IsSound (mark_unused w name path id) f h = mark_volume_unused-IsSound w name path id f h

-- From a valid registry, any calls that write it, one after another and with writes that succeed or
-- fail in any way, leave a registry in which no two volumes have one name or one path, and no
-- container stands twice among the users of a volume.
pub volume_calls-IsSound :
    (cs : List Call) (f : File Registry) → IsSound f → IsSound (perform_all cs f)
unfolding perform_all
volume_calls-IsSound [] f h = h
volume_calls-IsSound (c ∷ cs) f h = volume_calls-IsSound cs (perform c f) (perform-IsSound c f h)
