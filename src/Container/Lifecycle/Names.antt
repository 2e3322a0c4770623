-- ===== src/Container/Lifecycle/Names.antt =====
-- The name that a container gets when it starts.
use zylo.Prelude.{◌≡◌, ◌↔◌, true, false, ok, err, arith, if◌then◌else◌}
use zylo.Text.{Text, ◌==◌, is_empty}
use zylo.Disk.{File, Write}
use zylo.Name.{NameRegistry, name_exists, get_container_id_by_name}
use zylo.Name.Lookup.{lookup-register}
use zylo.Container.Lifecycle.{name_taken, check_name}

-- The name under which checkName registers a container.
abbrev pub chosen : Text → Text → Text
chosen generated name = if is_empty name then generated else name

name_exists_same : (name : Text) (f : File NameRegistry) → (name_exists name f).1 ≡ f
unfolding name_exists
name_exists_same name f = ground arith

-- Where the check of a name succeeds, the given name, or else the generated one, stands for the
-- container, and every other name stands for what it stood for.
lookup-check_name :
    (w : Write) (now generated name id j : Text) (f : File NameRegistry)
    → (check_name w now generated name id f).0 ≡ ok tt
    → (get_container_id_by_name j (check_name w now generated name id f).1).0
      ≡ (if chosen generated name == j then ok id else (get_container_id_by_name j f).0)
unfolding check_name
lookup-check_name w now generated name id j f h = ground (
  arith,
  name_exists_same name f,
  lookup-register w now generated id j f,
  lookup-register w now name id j f,
)

-- A given name is refused as taken exactly when the registry has it.
check_name-taken_iff :
    (w : Write) (now generated name id : Text) (f : File NameRegistry)
    → is_empty name ≡ false
    → ((check_name w now generated name id f).0 ≡ err name_taken)
      ↔ ((name_exists name f).0 ≡ ok true)
unfolding check_name
check_name-taken_iff w now generated name id f ne = ground (arith, name_exists_same name f)
