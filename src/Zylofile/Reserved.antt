-- ===== src/Zylofile/Reserved.antt =====
-- internal/container/zylo_file.go: the network of a configuration.
use zylo.Prelude.{ℕ, ◌≡◌, refl, false, Option, none, some, List, Result, ok, err, arith}
use zylo.Prelude.Actions.{Done}
use zylo.Text.{Text, ◌==◌, cut, split, trim_space}
use zylo.Disk.{File}
use zylo.Paths.{main_net_name}
use zylo.Volume
use zylo.Zylofile.{
  Parse, Fate, Error, Config, set_anonymous, set_bound, set_named, set_volume, set_volume_parts,
  instruct, parse_parts, parse_line, parse_lines, Source, content, fresh, numbered, finish,
  load_config,
}
use zylo.Zylofile.Lines.{parse_lines_inv}

abbrev pub NotReserved : Parse → Type 0
NotReserved s = (s.config.network == main_net_name) ≡ false

set_volume_parts-network :
    (w : Fate) (arg : Text) (o : Option (Text × Text)) (s : Parse)
    → (set_volume_parts w arg o s).1.config.network ≡ s.config.network
unfolding set_anonymous set_bound set_named
set_volume_parts-network w arg none s = ground arith
set_volume_parts-network w arg (some (left, right)) s = ground arith

set_volume-network :
    (w : Fate) (arg : Text) (s : Parse) → (set_volume w arg s).1.config.network ≡ s.config.network
unfolding set_volume
set_volume-network w arg s = set_volume_parts-network w arg (cut b':' arg) s

module _ (decode : Text → Option (List Text)) where
  instruct-NotReserved :
      (w : Fate) (word arg : Text) (s : Parse)
      → NotReserved s
      → NotReserved (instruct decode w word arg s).1
  unfolding instruct
  instruct-NotReserved w word arg s h = ground (arith, set_volume-network w arg s)

  parse_parts-NotReserved :
      (w : Fate) (o : Option (Text × Text)) (s : Parse)
      → NotReserved s
      → NotReserved (parse_parts decode w o s).1
  parse_parts-NotReserved w none s h = h
  parse_parts-NotReserved w (some (word, rest)) s h =
      instruct-NotReserved w word (trim_space rest) s h

  parse_line-NotReserved :
      (w : Fate) (line : Text) (s : Parse)
      → NotReserved s
      → NotReserved (parse_line decode w line s).1
  unfolding parse_line
  parse_line-NotReserved w line s h = parse_parts-NotReserved w (cut b' ' line) s h

  finish-NotReserved :
      (tty : Text) (r : Result Error Done × Parse) {config : Config}
      → NotReserved r.1
      → (finish tty r).0 ≡ ok config
      → (config.network == main_net_name) ≡ false
  finish-NotReserved tty (ok u, s) h e = ground arith
  finish-NotReserved tty (err x, s) h e = cc

  -- A ZyloFile that is accepted gives a configuration whose network is not the daemon's own.
  load_config-NotReserved :
      (hash : Text) (fates : ℕ → Fate) (p tty : Text) (source : Source) (reg : File Volume.Registry)
      {config : Config}
      → (load_config decode hash fates p tty source reg).0 ≡ ok config
      → (config.network == main_net_name) ≡ false
  unfolding load_config ◌==◌
  load_config-NotReserved hash fates p tty (content text) reg e =
      let start : Parse = record { config = fresh hash p; registry = reg } in
      finish-NotReserved tty (parse_lines decode (numbered fates 0 (split 10 text)) start)
        (parse_lines_inv decode NotReserved parse_line-NotReserved
          (numbered fates 0 (split 10 text)) start refl)
        e
  load_config-NotReserved hash fates p tty Source.missing reg e = cc
  load_config-NotReserved hash fates p tty _ reg e = cc
