-- ===== src/Name/Lookup.antt =====
-- The registry seen as a map from names to containers.
use zylo.Prelude.{
  ◌≡◌, refl, ◌↔◌, true, false, not, Option, none, some, [], ◌∷◌, ◌++◌, Result, ok, err, arith, any,
  keep, first, any-keep, any-keep-not, first-none, if◌then◌else◌,
}
use zylo.Text.{Text, ◌==◌}
use zylo.Text.Equality.{==_iff}
use zylo.Disk.{File, Write}
use zylo.Name.{
  NameEntry, NameRegistry, Error, already_exists, not_found, has_name, has_container, name_exists,
  register_name, unregister_name, get_name, get_container_id_by_name,
}
use zylo.Name.Unique.{IsSound, NamesUnique}

-- Registration of a name is refused as a duplicate exactly when the name is reported to exist,
-- whatever would come of the write.
register-refused_iff :
    (w : Write) (now name id : Text) (f : File NameRegistry)
    → ((register_name w now name id f).0 ≡ err already_exists) ↔ ((name_exists name f).0 ≡ ok true)
unfolding register_name name_exists
register-refused_iff w now name id f = ground arith

-- The entry that a lookup finds once a new name stands at the end.
pub first-add :
    (j : Text) (reg : NameRegistry) (n : NameEntry)
    → any (has_name n.name) reg ≡ false
    → first (has_name j) (reg ++ n ∷ []) ≡ (if n.name == j then some n else first (has_name j) reg)
first-add j [] n h = refl
first-add j (m ∷ reg) n h =
    ground (arith, first-add j reg n, ==_iff m.name n.name, ==_iff m.name j, ==_iff n.name j)

-- After a registration that succeeds, its name stands for its container, and every other name
-- stands for what it stood for, or for nothing, as before.
pub lookup-register :
    (w : Write) (now name id j : Text) (f : File NameRegistry)
    → (register_name w now name id f).0 ≡ ok tt
    → (get_container_id_by_name j (register_name w now name id f).1).0
      ≡ (if name == j then ok id else (get_container_id_by_name j f).0)
unfolding register_name get_container_id_by_name
lookup-register w now name id j File.absent h = ground arith
lookup-register w now name id j (File.holds reg) h =
    ground (arith, first-add j reg (record { name = name; container = id; created = now }))
lookup-register w now name id j _ h = ground arith

abbrev drop_container : Text → Option NameEntry → Option NameEntry
drop_container id none = none
drop_container id (some n) = if n.container == id then none else some n

-- The entry that a lookup finds once a container's entries are struck.
first-strike :
    (id j : Text) (reg : NameRegistry)
    → NamesUnique reg
    → first (has_name j) (keep (λ n. not (has_container id n)) reg)
      ≡ drop_container id (first (has_name j) reg)
first-strike id j [] u = refl
first-strike id j (m ∷ reg) u = ground (
  arith,
  first-strike id j reg u.1,
  ==_iff m.name j,
  any-keep (has_name m.name) (λ n. not (has_container id n)) reg u.0,
  first-none (has_name m.name) (keep (λ n. not (has_container id n)) reg),
)

-- The container of a name, once `id` has been struck from the registry.
abbrev pub without : Text → Result Error Text → Result Error Text
without id (ok c) = if c == id then err not_found else ok c
without id (err e) = err e

-- After a container is unregistered its names stand for nothing, and every other name stands for
-- what it stood for, in a registry with unique names.
lookup-unregister :
    (w : Write) (id j : Text) (f : File NameRegistry)
    → IsSound f
    → (unregister_name w id f).0 ≡ ok tt
    → (get_container_id_by_name j (unregister_name w id f).1).0
      ≡ without id (get_container_id_by_name j f).0
unfolding unregister_name get_container_id_by_name
lookup-unregister w id j File.absent s h = ground arith
lookup-unregister w id j (File.holds reg) s h = ground (arith, first-strike id j reg s)
lookup-unregister w id j _ s h = ground arith

-- After a container is unregistered no name is found for it.
get_name-unregister :
    (w : Write) (id : Text) (f : File NameRegistry)
    → (unregister_name w id f).0 ≡ ok tt
    → (get_name id (unregister_name w id f).1).0 ≡ err not_found
unfolding unregister_name get_name
get_name-unregister w id File.absent h = ground arith
get_name-unregister w id (File.holds reg) h =
    let left = keep (λ n. not (has_container id n)) reg in
    ground (arith, any-keep-not (has_container id) reg, first-none (has_container id) left)
get_name-unregister w id _ h = ground arith
