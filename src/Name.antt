-- ===== src/Name.antt =====
-- name/name.go: the registry of container names, one JSON file.
pub mod Lookup
pub mod Unique
pub mod Race
mod Examples
use zylo.Prelude.{
  Bool, true, false, not, Option, none, some, List, [], ◌∷◌, ◌++◌, ok, err, any, keep, first,
}
use zylo.Prelude.Actions.{Act, Done, pure, fail, fail_if, wrap, ◌>>=◌, ◌>>◌}
use zylo.Text.{Text, ◌==◌}
use zylo.Disk.{File, Fault, Write, read_or, write}

pub record NameEntry : Type 0 where
  pub name : Text
  pub container : Text
  pub created : Text

abbrev pub NameRegistry : Type 0
NameRegistry = List NameEntry

pub data Error : Type 0 where
  disk : Fault → Error
  already_exists not_found : Error

abbrev pub Name : Type 0 → Type 0
Name A = Act (File NameRegistry) Error A

abbrev pub has_name : Text → NameEntry → Bool
has_name name n = n.name == name

abbrev pub has_container : Text → NameEntry → Bool
has_container id n = n.container == id

unfoldable pub load_name_registry : Act (File NameRegistry) Fault NameRegistry
unfolding read_or
load_name_registry f = (read_or [] f, f)

unfoldable pub save_name_registry : Write → NameRegistry → Act (File NameRegistry) Fault Done
unfolding write
save_name_registry w reg = write w reg

unfoldable pub name_exists : Text → Name Bool
unfolding load_name_registry
name_exists name = do reg ← wrap disk load_name_registry; pure (any (has_name name) reg)

-- `now` is time.Now() in RFC 3339.
unfoldable pub register_name : Write → Text → Text → Text → Name Done
unfolding load_name_registry save_name_registry
register_name w now name id = do
  reg ← wrap disk load_name_registry
  fail_if (any (has_name name) reg) already_exists
  wrap disk
      (save_name_registry w (reg ++ record { name = name; container = id; created = now } ∷ []))

unfoldable pub unregister_name : Write → Text → Name Done
unfolding load_name_registry save_name_registry
unregister_name w id = do
  reg ← wrap disk load_name_registry
  wrap disk (save_name_registry w (keep (λ n. not (has_container id n)) reg))

abbrev name_of : Option NameEntry → Name Text
name_of none = fail not_found
name_of (some n) = pure n.name

abbrev container_of : Option NameEntry → Name Text
container_of none = fail not_found
container_of (some n) = pure n.container

unfoldable pub get_name : Text → Name Text
unfolding load_name_registry
get_name id = do reg ← wrap disk load_name_registry; name_of (first (has_container id) reg)

unfoldable pub get_container_id_by_name : Text → Name Text
unfolding load_name_registry
get_container_id_by_name name = do
  reg ← wrap disk load_name_registry
  container_of (first (has_name name) reg)
