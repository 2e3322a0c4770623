-- ===== src/Container/Init/Environ.antt =====
-- internal/container/exec.go with lifecycle.go: what the process reads of the variables that `run`
-- adds.
use zylo.Prelude.{
  ℕ, ◌≡◌, refl, sym, ◌∙◌, subst, ap, arith, false, not, List, [], ◌∷◌, ◌++◌, append_assoc,
  append-nil, All, Bool-cases, inl, inr, if◌then◌else◌, map,
}
use zylo.Text.{Text, codes, is_empty, ◌==◌, split, join}
use zylo.Paths.{join_path, clean}
use zylo.Text.Equality.{==_sound}
use zylo.Text.Lines.{Free, split-join}
use zylo.Table.{Table}
use zylo.Container.{Container}
use zylo.Container.Setup.{assignment, build_env, merged_root}
use zylo.Container.Start.Run.{added_env}
use zylo.Container.Init.{Environs, last_path, program_env}

-- The name of a variable.
abbrev pub IsName : Text → Type 0
IsName k = (is_empty k ≡ false) × Free b'=' k

-- What is documented of the environment: the last value that a name is given counts.
pub record Laws (os : Environs) : Type 0 where
  pub last :
      (env : List Text) (k v : Text) → IsName k → os.getenv (env ++ assignment (k, v) ∷ []) k ≡ v
  pub skip :
      (env : List Text) (k j v : Text)
      → IsName j
      → (j == k) ≡ false
      → os.getenv (env ++ assignment (j, v) ∷ []) k ≡ os.getenv env k

-- The value of a name in a table that is read to its end.
abbrev value_in : Text → Text → Table Text → Text
value_in d k [] = d
value_in d k ((j, v) ∷ t) = value_in (if j == k then v else d) k t

join_one : (b : ℕ) (l : Text) (ls : List Text) → is_empty (join 10 ((b ∷ l) ∷ ls)) ≡ false
unfolding join
join_one b l [] = refl
join_one b l (m ∷ ls) = refl

module _ (os : Environs) (laws : Laws os) where
  getenv-one :
      (env : List Text) (k j v : Text)
      → IsName j
      → os.getenv (env ++ assignment (j, v) ∷ []) k ≡ (if j == k then v else os.getenv env k)
  getenv-one env k j v h = elim (Bool-cases (j == k)) [
    | inl e ↦ rw e (
        subst (λ x. os.getenv (env ++ assignment (j, v) ∷ []) x ≡ v) (==_sound j k e)
          (laws.last env j v h))
    | inr e ↦ rw e (laws.skip env k j v h e)
  ]

  getenv-more :
      (env : List Text) (k : Text) (t : Table Text)
      → All (λ e. IsName e.0) t
      → os.getenv (env ++ map assignment t) k ≡ value_in (os.getenv env k) k t
  getenv-more env k [] h = ap (λ x. os.getenv x k) (append-nil env)
  getenv-more env k ((j, v) ∷ t) h =
      ap (λ x. os.getenv x k) (sym (append_assoc env (assignment (j, v) ∷ []) (map assignment t)))
      ∙ getenv-more (env ++ assignment (j, v) ∷ []) k t h.1
      ∙ ap (λ x. value_in x k t) (getenv-one env k j v h.0)

  -- What the process reads of the variables that `run` adds.
  given : Container → Table Text
  given c =
      (codes "_ZYLO_INIT", codes "1")
      ∷ (codes "ZYLO_ROOTFS", merged_root c)
      ∷ (codes "_ZYLO_ENV", join 10 (build_env c))
      ∷ (if not (is_empty c.workdir) then (codes "ZYLO_WORKDIR", c.workdir) ∷ [] else [])

  added_env-given : (c : Container) → added_env c ≡ map assignment (given c)
  unfolding given
  added_env-given c = elim (Bool-cases (is_empty c.workdir)) [
    | inl e ↦ rw e refl
    | inr e ↦ rw e refl
  ]

  given-IsName : (c : Container) → All (λ e. IsName e.0) (given c)
  unfolding given
  given-IsName c = elim (Bool-cases (is_empty c.workdir)) [
    | inl e ↦ rw e ((refl, refl), ((refl, refl), ((refl, refl), tt)))
    | inr e ↦ rw e ((refl, refl), ((refl, refl), ((refl, refl), ((refl, refl), tt))))
  ]

  getenv-added_env :
      (env : List Text) (k : Text) (c : Container)
      → os.getenv (env ++ added_env c) k ≡ value_in (os.getenv env k) k (given c)
  getenv-added_env env k c =
      ap (λ x. os.getenv (env ++ x) k) (added_env-given c)
      ∙ getenv-more env k (given c) (given-IsName c)

  pub given_init :
      (env : List Text) (c : Container)
      → os.getenv (env ++ added_env c) (codes "_ZYLO_INIT") ≡ codes "1"
  unfolding given ◌==◌
  given_init env c = getenv-added_env env (codes "_ZYLO_INIT") c ∙ ground arith

  pub given_root :
      (env : List Text) (c : Container)
      → os.getenv (env ++ added_env c) (codes "ZYLO_ROOTFS") ≡ merged_root c
  unfolding given ◌==◌
  given_root env c = getenv-added_env env (codes "ZYLO_ROOTFS") c ∙ ground arith

  given_env :
      (env : List Text) (c : Container)
      → os.getenv (env ++ added_env c) (codes "_ZYLO_ENV") ≡ join 10 (build_env c)
  unfolding given ◌==◌
  given_env env c = getenv-added_env env (codes "_ZYLO_ENV") c ∙ ground arith

  pub root_given : (c : Container) → is_empty (merged_root c) ≡ false
  unfolding join_path clean
  root_given c = refl

  pub program_env-added_env :
      (env : List Text) (c : Container)
      → All (Free 10) (build_env c)
      → program_env os (env ++ added_env c) ≡ build_env c ++ last_path ∷ []
  unfolding build_env
  program_env-added_env env c free =
      let all = build_env c in
      ap
        (λ x.
          (if not (is_empty x) then split 10 x else os.environ (env ++ added_env c))
          ++ last_path ∷ [])
        (given_env env c)
      ∙ rw (join_one b'P' _ (map assignment c.env))
          (ap (λ x. x ++ last_path ∷ []) (split-join 10 all (ground arith) free))
