-- ===== src/Daemon/Containers/Living.antt =====
-- cleanRuntimeContainers of daemon/cleanup.go: the containers that stay.
use zylo.Prelude.{
  ◌≡◌, refl, ◌∙◌, ap, ◌↔◌, Bool, true, false, none, List, [], ◌∷◌, keep, Bool-cases, inl, inr,
  Result, ok, err, arith, not, ◌&&◌,
}
use zylo.Prelude.Actions.{ok_injective}
use zylo.Text.{Text}
use zylo.Integer.{pos, int_eq, atoi}
use zylo.Disk.{File, Fault, read_text}
use zylo.Table.{Table}
use zylo.Container.{Container, Runtime}
use zylo.Daemon.Containers.{
  CleanFate, lives_as, is_live, drop_lib, clean_container_resources, clean_runtime_containers,
}

-- The file of the process can be read, holds a number other than 0, and names a process that a signal
-- reaches.
abbrev pub IsLive : CleanFate → Text → Type 0
IsLive w hash =
    (text : Text) × (read_text (w.pids hash) ≡ ok text)
    × (int_eq (atoi text).value (pos 0) ≡ false)
    × (w.running (atoi text).value ≡ true)

is_live-IsLive : (w : CleanFate) (hash : Text) → (is_live w hash ≡ true) ↔ IsLive w hash
is_live-IsLive w hash = go (read_text (w.pids hash))
  where
    go :
        (r : Result Fault Text)
        → (lives_as w.running r ≡ true) ↔ (
            (text : Text) × (r ≡ ok text)
            × (int_eq (atoi text).value (pos 0) ≡ false)
            × (w.running (atoi text).value ≡ true))
    go (err e) = (λ h. absurd (cc), λ h. absurd (apart e h.0 h.1))
      where
        apart : (e : Fault) (t : Text) → ◌≡◌ {A = Result Fault Text} (err e) (ok t) → ⊥
        apart e t g = cc
    go (ok text) = (
      λ h. (text, refl, ground arith, ground arith),
      λ h.
          let same : text ≡ h.0 = ok_injective h.1 in
          ap (λ t. not (int_eq (atoi t).value (pos 0)) && w.running (atoi t).value) same
          ∙ rw (h.2, h.3) refl,
    )

living_kept :
    (w : CleanFate) (dirs : Table (File Container)) (lib : List Text) (s : Runtime)
    → ((hash : Text) → w.left hash ≡ none)
    → (clean_runtime_containers w dirs lib s).0 ≡ keep (λ d. is_live w d.0) dirs
unfolding clean_runtime_containers
living_kept w [] lib s h = refl
living_kept w ((hash, f) ∷ dirs) lib s h = elim (Bool-cases (is_live w hash)) [
  | inl e ↦ rw e (ap (λ ds. (hash, f) ∷ ds) (living_kept w dirs lib s h))
  | inr e ↦
      rw (e, h hash)
        (living_kept w dirs (drop_lib w hash lib) (clean_container_resources w hash s) h)
]

-- Where every removal succeeds, the directories that the start of the daemon leaves are those whose
-- file of the process can be read, holds a number other than 0, and names a process that a signal
-- reaches, in the same order, whatever comes of the volumes, the names and the directories of `lib`.
pub clean_runtime_containers-keep :
    (w : CleanFate) (dirs : Table (File Container)) (lib : List Text) (s : Runtime)
    → ((hash : Text) → w.left hash ≡ none)
    → (stays : Text → Bool) × ((hash : Text) → (stays hash ≡ true) ↔ IsLive w hash)
      × ((clean_runtime_containers w dirs lib s).0 ≡ keep (λ d. stays d.0) dirs)
clean_runtime_containers-keep w dirs lib s h =
    (is_live w, is_live-IsLive w, living_kept w dirs lib s h)
