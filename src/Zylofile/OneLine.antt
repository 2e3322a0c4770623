-- ===== src/Zylofile/OneLine.antt =====
-- internal/container/zylo_file.go: the variables of a configuration stand on one line each.
use zylo.Prelude.{
  ℕ, suc, ◌≡◌, refl, false, Option, none, some, List, [], ◌∷◌, Result, ok, err, arith, All, eqb,
  Bool-cases, inl, inr, subst, sym,
}
use zylo.Prelude.Actions.{Done, ok_injective}
use zylo.Text.{Text, codes, ◌==◌, cut, split, trim_left, trim_right, trim_space}
use zylo.Text.Equality.{==_sound}
use zylo.Text.Lines.{Free, split-All-Free}
use zylo.Table.{Table, put}
use zylo.Disk.{File}
use zylo.Volume
use zylo.Zylofile.{
  Parse, Fate, Error, Config, set_anonymous, set_bound, set_named, set_volume, set_volume_parts,
  instruct, parse_parts, parse_line, parse_lines, Source, content, fresh, numbered, finish,
  load_config, env_of,
}
use zylo.Zylofile.Lines.{parse_lines_within}

trim_left-Free : (sep : ℕ) (s : Text) → Free sep s → Free sep (trim_left s)
unfolding trim_left
trim_left-Free sep [] h = refl
trim_left-Free sep (c ∷ s) h = ground (arith, trim_left-Free sep s)

trim_right-Free : (sep : ℕ) (s : Text) → Free sep s → Free sep (trim_right s)
unfolding trim_right
trim_right-Free sep [] h = refl
trim_right-Free sep (c ∷ s) h = ground (arith, trim_right-Free sep s)

trim_space-Free : (sep : ℕ) (s : Text) → Free sep s → Free sep (trim_space s)
unfolding trim_space
trim_space-Free sep s h = trim_right-Free sep (trim_left s) (trim_left-Free sep s h)

-- Both parts are free of the byte.
FreeParts : ℕ → Option (Text × Text) → Type 0
FreeParts sep none = Unit
FreeParts sep (some (a, b)) = Free sep a × Free sep b

cons-FreeParts :
    (sep b : ℕ) (o : Option (Text × Text))
    → eqb b sep ≡ false
    → FreeParts sep o
    → FreeParts sep (elim o [ none ↦ none | some (before, after) ↦ some (b ∷ before, after) ])
unfolding FreeParts
cons-FreeParts sep b none e h = tt
cons-FreeParts sep b (some (x, y)) e h = (ground arith, h.1)

cut-Free : (sep c : ℕ) (s : Text) → Free sep s → FreeParts sep (cut c s)
unfolding cut FreeParts
cut-Free sep c [] h = tt
cut-Free sep c (b ∷ s) h = elim (Bool-cases (eqb b c)) [
  | inl e ↦ rw e (refl, ground arith)
  | inr e ↦ rw e (cons-FreeParts sep b (cut c s) (ground arith) (cut-Free sep c s (ground arith)))
]

-- The names and the values of the variables are free of line feeds.
abbrev pub IsOneLine : Table Text → Type 0
IsOneLine t = All (λ e. Free 10 e.0 × Free 10 e.1) t

put-IsOneLine :
    (k v : Text) (t : Table Text) → Free 10 k → Free 10 v → IsOneLine t → IsOneLine (put k v t)
unfolding put
put-IsOneLine k v [] fk fv h = ((fk, fv), tt)
put-IsOneLine k v ((j, b) ∷ t) fk fv h = elim (Bool-cases (j == k)) [
  | inl e ↦ rw e ((fk, fv), h.1)
  | inr e ↦ rw e (h.0, put-IsOneLine k v t fk fv h.1)
]

set_volume_parts-env :
    (w : Fate) (arg : Text) (o : Option (Text × Text)) (s : Parse)
    → (set_volume_parts w arg o s).1.config.env_vars ≡ s.config.env_vars
unfolding set_anonymous set_bound set_named
set_volume_parts-env w arg none s = ground arith
set_volume_parts-env w arg (some (left, right)) s = ground arith

set_volume-env :
    (w : Fate) (arg : Text) (s : Parse) → (set_volume w arg s).1.config.env_vars ≡ s.config.env_vars
unfolding set_volume
set_volume-env w arg s = set_volume_parts-env w arg (cut b':' arg) s

abbrev Kept : Parse → Type 0
Kept s = IsOneLine s.config.env_vars

env_of-Kept : (o : Option (Text × Text)) (s : Parse) → FreeParts 10 o → Kept s → Kept (env_of o s).1
unfolding FreeParts
env_of-Kept none s f h = h
env_of-Kept (some (k, v)) s f h = put-IsOneLine k v s.config.env_vars f.0 f.1 h

module _ (decode : Text → Option (List Text)) where
  instruct-env :
      (w : Fate) (word arg : Text) (s : Parse)
      → (word == codes "SET_ENV") ≡ false
      → (instruct decode w word arg s).1.config.env_vars ≡ s.config.env_vars
  unfolding instruct
  instruct-env w word arg s h = ground (arith, set_volume-env w arg s)

  set_env-Kept :
      (w : Fate) (arg : Text) (s : Parse)
      → Free 10 arg
      → Kept s
      → Kept (instruct decode w (codes "SET_ENV") arg s).1
  unfolding instruct ◌==◌
  set_env-Kept w arg s f h = env_of-Kept (cut b':' arg) s (cut-Free 10 b':' arg f) h

  instruct-Kept :
      (w : Fate) (word arg : Text) (s : Parse)
      → Free 10 arg
      → Kept s
      → Kept (instruct decode w word arg s).1
  instruct-Kept w word arg s f h = elim (Bool-cases (word == codes "SET_ENV")) [
    | inl e ↦
        subst (λ x. Kept (instruct decode w x arg s).1) (sym (==_sound word (codes "SET_ENV") e))
          (set_env-Kept w arg s f h)
    | inr e ↦ subst IsOneLine (sym (instruct-env w word arg s e)) h
  ]

  parse_parts-Kept :
      (w : Fate) (o : Option (Text × Text)) (s : Parse)
      → FreeParts 10 o
      → Kept s
      → Kept (parse_parts decode w o s).1
  unfolding FreeParts
  parse_parts-Kept w none s f h = h
  parse_parts-Kept w (some (word, rest)) s f h =
      instruct-Kept w word (trim_space rest) s (trim_space-Free 10 rest f.1) h

  parse_line-Kept :
      (w : Fate) (line : Text) (s : Parse)
      → Free 10 line
      → Kept s
      → Kept (parse_line decode w line s).1
  unfolding parse_line
  parse_line-Kept w line s f h = parse_parts-Kept w (cut b' ' line) s (cut-Free 10 b' ' line f) h

  numbered-Free :
      (fates : ℕ → Fate) (n : ℕ) (ls : List Text)
      → All (Free 10) ls
      → All (λ l. Free 10 (trim_space l.0)) (numbered fates n ls)
  numbered-Free fates n [] f = tt
  numbered-Free fates n (l ∷ ls) f = (trim_space-Free 10 l f.0, numbered-Free fates (suc n) ls f.1)

  finish-IsOneLine :
      (tty : Text) (r : Result Error Done × Parse) {config : Config}
      → Kept r.1
      → (finish tty r).0 ≡ ok config
      → IsOneLine config.env
  finish-IsOneLine tty (ok u, s) h e = subst (λ c. IsOneLine c.env) (ok_injective e) h
  finish-IsOneLine tty (err x, s) h e = absurd (cc)

  -- The variables that an accepted ZyloFile sets hold no line feed.
  pub load_config-IsOneLine :
      (hash : Text) (fates : ℕ → Fate) (p tty : Text) (source : Source) (reg : File Volume.Registry)
      {config : Config}
      → (load_config decode hash fates p tty source reg).0 ≡ ok config
      → IsOneLine config.env
  unfolding load_config
  load_config-IsOneLine hash fates p tty (content text) reg e =
      let start : Parse = record { config = fresh hash p; registry = reg } in
      let lines = numbered fates 0 (split 10 text) in
      finish-IsOneLine tty (parse_lines decode lines start)
        (parse_lines_within decode (Free 10) Kept parse_line-Kept lines start
          (numbered-Free fates 0 (split 10 text) (split-All-Free 10 text)) tt)
        e
  load_config-IsOneLine hash fates p tty Source.missing reg e = absurd (cc)
  load_config-IsOneLine hash fates p tty _ reg e = absurd (cc)
