-- ===== src/Container/Lifecycle.antt =====
-- checkName of internal/container/name.go, and Down of internal/container/lifecycle.go.
pub mod Names
pub mod Stop
use zylo.Prelude.{
  ℕ, suc, Bool, true, false, not, Option, none, some, List, [], ◌∷◌, Result, ok, err, keep,
  if◌then◌else◌,
}
use zylo.Prelude.Actions.{Act, Done, fail_if, wrap, ◌>>=◌, ◌>>◌}
use zylo.Text.{Text, is_empty}
use zylo.Disk.{File, Write}
use zylo.Name
use zylo.Name.{NameRegistry, name_exists, register_name}
use zylo.Container.{Container, Runtime, Daemon, none_match, list_containers}
use zylo.Container.Find.{has_path}
use zylo.Container.Down.{Fate, down}

pub data NameError : Type 0 where
  name_taken : NameError
  check_failed register_failed : Name.Error → NameError

abbrev check_taken : Text → Act (File NameRegistry) NameError Done
check_taken name = do taken ← wrap check_failed (name_exists name); fail_if taken name_taken

-- `generated` is what generateContainerName gives, from the time.
unfoldable pub check_name :
    Write → Text → Text → Text → Text → Act (File NameRegistry) NameError Done
check_name w now generated name id =
    if is_empty name
    then wrap register_failed (register_name w now generated id)
    else (do check_taken name; wrap register_failed (register_name w now name id))

-- Each of the containers is taken down, and an error is only printed.
unfoldable pub stop_all : (ℕ → Fate) → ℕ → List Container → Runtime → Runtime
stop_all fates n [] s = s
stop_all fates n (c ∷ cs) s = stop_all fates (suc n) cs (down (fates n) c.id s).1

abbrev pub stop_matched : (ℕ → Fate) → List Container → Daemon Done
stop_matched fates [] s = (err none_match, s)
stop_matched fates (c ∷ cs) s = (ok tt, stop_all fates 0 (c ∷ cs) s)

-- `Down`
unfoldable pub stop : (ℕ → Fate) → Text → Text → Daemon Done
stop fates hash cmd_path s =
    if is_empty hash
    then stop_matched fates (keep (has_path cmd_path) (list_containers s)) s
    else down (fates 0) hash s
