-- ===== src/Resources/Log/Closed.antt =====
-- internal/container/resources/log.go: no file is left open.
use zylo.Prelude.{◌≡◌, refl, List, ◌∷◌, Result, ok, err, Bool-cases, inl, inr, arith}
use zylo.Text.{Text}
use zylo.Text.Equality.{==_refl, ==_iff}
use zylo.Resources.Log.{
  Files, Manager, LogError, LogFate, drop_first, manager_of, new_manager, close,
}

drop_three :
    (t o d : Text) (ps : List Text)
    → drop_first d (drop_first o (drop_first t (d ∷ o ∷ t ∷ ps))) ≡ ps
unfolding drop_first
drop_three t o d ps =
    ground (arith, ==_iff d t, ==_iff o t, ==_iff d o, ==_refl t, ==_refl o, ==_refl d)

drop_two : (t o : Text) (ps : List Text) → drop_first o (drop_first t (o ∷ t ∷ ps)) ≡ ps
unfolding drop_first
drop_two t o ps = ground (arith, ==_iff o t, ==_refl t, ==_refl o)

drop_one : (t : Text) (ps : List Text) → drop_first t (t ∷ ps) ≡ ps
unfolding drop_first
drop_one t ps = rw (==_refl t) refl

-- Where there is a manager, what its Close leaves, else what the failed call leaves.
abbrev pub after_close : Result LogError Manager × Files → Files
after_close (ok m, t) = close m t
after_close (err e, t) = t

-- Whatever call fails in NewManager, the files that it had opened are closed again; and where none fails, Close closes
-- all that it opened: the files that are open are then those that were open before.
pub close-new_manager :
    (w : LogFate) (id tty_path : Text) (s : Files)
    → (after_close (new_manager w id tty_path s)).opened ≡ s.opened
unfolding new_manager close
close-new_manager w id tty_path s =
    let m = manager_of id tty_path in
    elim (Bool-cases w.made) [
      | inr a ↦ rw a refl
      | inl a ↦ elim (Bool-cases w.tty) [
        | inr b ↦ rw (a, b) refl
        | inl b ↦ elim (Bool-cases w.output) [
          | inr c ↦ rw (a, b, c) (drop_one m.user_tty s.opened)
          | inl c ↦ elim (Bool-cases w.daemon) [
            | inr d ↦ rw (a, b, c, d) (drop_two m.user_tty m.output_file s.opened)
            | inl d ↦ rw (a, b, c, d) (drop_three m.user_tty m.output_file m.daemon_file s.opened)
          ]
        ]
      ]
    ]
