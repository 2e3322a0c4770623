-- ===== src/Name/Unique.antt =====
-- name/name.go: the names in the registry, call by call.
use zylo.Prelude.{
  ◌≡◌, refl, Bool, false, not, List, [], ◌∷◌, ◌++◌, arith, any, keep, any-append, any-keep,
}
use zylo.Text.{Text}
use zylo.Text.Equality.{==_sym}
use zylo.Disk.{File, Write}
use zylo.Name.{NameEntry, NameRegistry, has_name, has_container, register_name, unregister_name}

abbrev pub NamesUnique : NameRegistry → Type 0
NamesUnique [] = Unit
NamesUnique (n ∷ reg) = (any (has_name n.name) reg ≡ false) × NamesUnique reg

-- Whatever the file holds, its names are unique.
abbrev pub IsSound : File NameRegistry → Type 0
IsSound (File.holds reg) = NamesUnique reg
IsSound _ = Unit

pub NamesUnique-add :
    (reg : NameRegistry) (n : NameEntry)
    → NamesUnique reg
    → any (has_name n.name) reg ≡ false
    → NamesUnique (reg ++ n ∷ [])
NamesUnique-add [] n h new = (refl, tt)
NamesUnique-add (m ∷ reg) n h new = (
  ground (arith, any-append (has_name m.name) reg (n ∷ []), ==_sym n.name m.name),
  NamesUnique-add reg n h.1 (ground arith),
)

pub NamesUnique-keep :
    (q : NameEntry → Bool) (reg : NameRegistry) → NamesUnique reg → NamesUnique (keep q reg)
NamesUnique-keep q [] h = tt
NamesUnique-keep q (n ∷ reg) h =
    ground (arith, NamesUnique-keep q reg h.1, any-keep (has_name n.name) q reg h.0)

register_name-IsSound :
    (w : Write) (now name id : Text) (f : File NameRegistry)
    → IsSound f
    → IsSound (register_name w now name id f).1
unfolding register_name
register_name-IsSound w now name id (File.holds reg) h =
    ground (arith, NamesUnique-add reg (record { name = name; container = id; created = now }) h)
register_name-IsSound w now name id File.absent h = ground arith
register_name-IsSound w now name id _ h = ground arith

unregister_name-IsSound :
    (w : Write) (id : Text) (f : File NameRegistry) → IsSound f → IsSound (unregister_name w id f).1
unfolding unregister_name
unregister_name-IsSound w id (File.holds reg) h =
    ground (arith, NamesUnique-keep (λ n. not (has_container id n)) reg h)
unregister_name-IsSound w id _ h = ground arith

-- The calls that write the registry, each with how its write goes.
pub data Call : Type 0 where
  register : Write → Text → Text → Text → Call
  unregister : Write → Text → Call

unfoldable pub perform : Call → File NameRegistry → File NameRegistry
perform (register w now name id) f = (register_name w now name id f).1
perform (unregister w id) f = (unregister_name w id f).1

unfoldable pub perform_all : List Call → File NameRegistry → File NameRegistry
unfolding perform
perform_all [] f = f
perform_all (c ∷ cs) f = perform_all cs (perform c f)

perform-IsSound : (c : Call) (f : File NameRegistry) → IsSound f → IsSound (perform c f)
unfolding perform
perform-IsSound (register w now name id) f h = register_name-IsSound w now name id f h
perform-IsSound (unregister w id) f h = unregister_name-IsSound w id f h

-- From a registry with unique names, any calls of register and unregister, one after another and
-- with writes that succeed or fail in any way, leave a registry with unique names.
pub name_calls-IsSound :
    (cs : List Call) (f : File NameRegistry) → IsSound f → IsSound (perform_all cs f)
unfolding perform_all
name_calls-IsSound [] f h = h
name_calls-IsSound (c ∷ cs) f h = name_calls-IsSound cs (perform c f) (perform-IsSound c f h)
