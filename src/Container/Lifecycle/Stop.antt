-- ===== src/Container/Lifecycle/Stop.antt =====
-- Down of internal/container/lifecycle.go: what it answers.
use zylo.Prelude.{◌≡◌, refl, ◌↔◌, ℕ, Bool, true, List, [], ◌∷◌, ok, any, keep, Bool-cases, inl, inr}
use zylo.Text.{Text}
use zylo.Container.{Container, Runtime, list_containers}
use zylo.Container.Find.{has_path}
use zylo.Container.Down.{Fate}
use zylo.Container.Lifecycle.{stop_matched, stop}

keep-any :
    (p : Container → Bool) (cs : List Container) (fates : ℕ → Fate) (s : Runtime)
    → ((stop_matched fates (keep p cs) s).0 ≡ ok tt) ↔ (any p cs ≡ true)
keep-any p [] fates s = (λ h. cc, λ h. cc)
keep-any p (c ∷ cs) fates s = elim (Bool-cases (p c)) [
  | inl e ↦ rw e (λ h. refl, λ h. refl)
  | inr e ↦ rw e (keep-any p cs fates s)
]

-- A request with no identifier is answered with success exactly when some container was started
-- from the path, whether or not any of them could be taken down.
stop-path :
    (fates : ℕ → Fate) (cmd_path : Text) (s : Runtime)
    → ((stop fates [] cmd_path s).0 ≡ ok tt) ↔ (any (has_path cmd_path) (list_containers s) ≡ true)
unfolding stop
stop-path fates cmd_path s = keep-any (has_path cmd_path) (list_containers s) fates s
