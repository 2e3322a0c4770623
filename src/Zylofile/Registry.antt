-- ===== src/Zylofile/Registry.antt =====
-- internal/container/zylo_file.go: the registry of volumes while a ZyloFile is parsed.
use zylo.Prelude.{ℕ, ◌≡◌, refl, Option, none, some, List, [], Result, ok, err, arith}
use zylo.Text.{Text, cut, split, trim_space}
use zylo.Prelude.Actions.{Done}
use zylo.Disk.{File}
use zylo.Paths.{vol_pth, join_path}
use zylo.Volume
use zylo.Volume.{register_volume}
use zylo.Volume.Unique.{IsSound, register_volume-IsSound}
use zylo.Zylofile.{
  Parse, Fate, register_new, set_anonymous, set_bound, set_named, set_volume, set_volume_parts,
  parse_parts, finish, numbered, fresh, Error, instruct, parse_line, parse_lines, Source, content,
  load_config,
}
use zylo.Zylofile.Lines.{parse_lines_inv}

abbrev pub KeepsRegistry : Parse → Type 0
KeepsRegistry s = IsSound s.registry

register_new-KeepsRegistry :
    (w : Fate) (fn fp name path : Text) (s : Parse)
    → KeepsRegistry s
    → KeepsRegistry (register_new w fn fp name path s).1
unfolding register_new
register_new-KeepsRegistry w fn fp name path s h =
    ground (arith, register_volume-IsSound w.write w.now name path s.registry h)

set_anonymous-KeepsRegistry :
    (w : Fate) (arg : Text) (s : Parse) → KeepsRegistry s → KeepsRegistry (set_anonymous w arg s).1
unfolding set_anonymous
set_anonymous-KeepsRegistry w arg s h =
    let host = join_path (join_path vol_pth s.config.hash) w.hash in
    ground (arith, register_volume-IsSound w.write w.now w.hash host s.registry h)

set_bound-KeepsRegistry :
    (w : Fate) (left right : Text) (s : Parse)
    → KeepsRegistry s
    → KeepsRegistry (set_bound w left right s).1
unfolding set_bound
set_bound-KeepsRegistry w left right s h =
    ground (arith, register_volume-IsSound w.write w.now [] right s.registry h)

set_named-KeepsRegistry :
    (w : Fate) (left right : Text) (s : Parse)
    → KeepsRegistry s
    → KeepsRegistry (set_named w left right s).1
unfolding set_named
set_named-KeepsRegistry w left right s h =
    ground (arith, register_volume-IsSound w.write w.now left (join_path vol_pth left) s.registry h)

set_volume_parts-KeepsRegistry :
    (w : Fate) (arg : Text) (o : Option (Text × Text)) (s : Parse)
    → KeepsRegistry s
    → KeepsRegistry (set_volume_parts w arg o s).1
set_volume_parts-KeepsRegistry w arg none s h = set_anonymous-KeepsRegistry w arg s h
set_volume_parts-KeepsRegistry w arg (some (left, right)) s h =
    ground
      (arith, set_bound-KeepsRegistry w left right s h, set_named-KeepsRegistry w left right s h)

set_volume-KeepsRegistry :
    (w : Fate) (arg : Text) (s : Parse) → KeepsRegistry s → KeepsRegistry (set_volume w arg s).1
unfolding set_volume
set_volume-KeepsRegistry w arg s h = set_volume_parts-KeepsRegistry w arg (cut b':' arg) s h

finish-registry : (tty : Text) (r : Result Error Done × Parse) → (finish tty r).1 ≡ r.1.registry
finish-registry tty (ok u, s) = refl
finish-registry tty (err e, s) = refl

module _ (decode : Text → Option (List Text)) where
  instruct-KeepsRegistry :
      (w : Fate) (word arg : Text) (s : Parse)
      → KeepsRegistry s
      → KeepsRegistry (instruct decode w word arg s).1
  unfolding instruct
  instruct-KeepsRegistry w word arg s h = ground (arith, set_volume-KeepsRegistry w arg s h)

  parse_parts-KeepsRegistry :
      (w : Fate) (o : Option (Text × Text)) (s : Parse)
      → KeepsRegistry s
      → KeepsRegistry (parse_parts decode w o s).1
  parse_parts-KeepsRegistry w none s h = h
  parse_parts-KeepsRegistry w (some (word, rest)) s h =
      instruct-KeepsRegistry w word (trim_space rest) s h

  parse_line-KeepsRegistry :
      (w : Fate) (line : Text) (s : Parse)
      → KeepsRegistry s
      → KeepsRegistry (parse_line decode w line s).1
  unfolding parse_line
  parse_line-KeepsRegistry w line s h = parse_parts-KeepsRegistry w (cut b' ' line) s h

  -- Whatever a ZyloFile holds, and whether it is accepted or not, loading it leaves a valid volume registry
  -- valid: no two volumes have one name or one path.
  pub load_config-IsSound :
      (hash : Text) (fates : ℕ → Fate) (p tty : Text) (source : Source) (reg : File Volume.Registry)
      → IsSound reg
      → IsSound (load_config decode hash fates p tty source reg).1
  unfolding load_config
  load_config-IsSound hash fates p tty (content text) reg h =
      let start : Parse = record { config = fresh hash p; registry = reg } in
      rw (finish-registry tty (parse_lines decode (numbered fates 0 (split 10 text)) start)) (
        parse_lines_inv decode KeepsRegistry parse_line-KeepsRegistry
          (numbered fates 0 (split 10 text)) start h)
  load_config-IsSound hash fates p tty _ reg h = h
