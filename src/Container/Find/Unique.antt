-- ===== src/Container/Find/Unique.antt =====
-- findContainer of internal/container/runtime_cleanup.go: which container it finds.
use zylo.Prelude.{
  ◌≡◌, ◌↔◌, Bool, true, false, some, List, [], ◌∷◌, ok, arith, keep, first, if◌then◌else◌,
}
use zylo.Text.{Text, is_empty}
use zylo.Text.Equality.{==_sound}
use zylo.Container.{Container, Runtime, list_containers}
use zylo.Container.Find.{has_id, has_path, only, find_in, find_container}

first_sound :
    (p : Container → Bool) (cs : List Container) {c : Container} → first p cs ≡ some c → p c ≡ true
first_sound p [] h = cc
first_sound p (d ∷ cs) {c} h = ground (arith, first_sound p cs {c = c})

-- A search by an identifier gives a container that has it.
find_container-id :
    (cmd_path hash cwd : Text) (s : Runtime) {c : Container}
    → is_empty hash ≡ false
    → find_container cmd_path hash cwd s ≡ ok c
    → c.id ≡ hash
unfolding find_container
find_container-id cmd_path hash cwd s {c} ne h =
    ==_sound c.id hash (ground (arith, first_sound (has_id hash) (list_containers s) {c = c}))

only-eq-ok : (cs : List Container) (c : Container) → (only cs ≡ ok c) ↔ (cs ≡ c ∷ [])
only-eq-ok [] c = (λ h. cc, λ h. cc)
only-eq-ok (d ∷ []) c = (λ h. cc, λ h. cc)
only-eq-ok (d ∷ e ∷ cs) c = (λ h. cc, λ h. cc)

find_in-path :
    (cmd_path cwd : Text) (cs : List Container) (c : Container)
    → (find_in cmd_path [] cwd cs ≡ ok c)
      ↔ (keep (has_path (if is_empty cmd_path then cwd else cmd_path)) cs ≡ c ∷ [])
find_in-path cmd_path cwd [] c = (λ h. cc, λ h. cc)
find_in-path [] cwd (d ∷ cs) c = only-eq-ok (keep (has_path cwd) (d ∷ cs)) c
find_in-path (x ∷ path) cwd (d ∷ cs) c = only-eq-ok (keep (has_path (x ∷ path)) (d ∷ cs)) c

-- A search with no identifier gives a container exactly where it is the only one that was started
-- from the path: the given one, or else the working directory.
find_container-path :
    (cmd_path cwd : Text) (s : Runtime) (c : Container)
    → (find_container cmd_path [] cwd s ≡ ok c)
      ↔ (keep (has_path (if is_empty cmd_path then cwd else cmd_path)) (list_containers s) ≡ c ∷ [])
unfolding find_container
find_container-path cmd_path cwd s c = find_in-path cmd_path cwd (list_containers s) c
