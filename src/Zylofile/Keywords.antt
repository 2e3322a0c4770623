-- ===== src/Zylofile/Keywords.antt =====
-- The instructions of a ZyloFile, and what each does to the configuration.
use zylo.Prelude.{
  ◌≡◌, refl, false, Option, none, some, List, [], ◌∷◌, ◌++◌, Result, ok, err, arith, any, eqb,
  if◌then◌else◌,
}
use zylo.Prelude.Actions.{Done}
use zylo.Text.{Text, ◌==◌, codes, cut, trim_space}
use zylo.Text.Search.{cut-append}
use zylo.Paths.{main_net_name}
use zylo.Table.{put}
use zylo.Zylofile
use zylo.Zylofile.{
  Container, Parse, Parser, Fate, bad_env, bad_start, reserved_network, set, set_volume, workdir_of,
  instruct, parse_line, parse_parts,
}

pub data Keyword : Type 0 where
  use_image name set_workdir copy network execute volume set_env open_port start_with : Keyword

abbrev pub word : Keyword → Text
word use_image = codes "USE_IMAGE"
word name = codes "NAME"
word set_workdir = codes "SET_WORKDIR"
word copy = codes "COPY"
word network = codes "NETWORK"
word execute = codes "EXECUTE"
word volume = codes "VOLUME"
word set_env = codes "SET_ENV"
word open_port = codes "OPEN_PORT"
word start_with = codes "START_WITH"

-- The configuration after an instruction, or the error that refuses it. A volume also changes the
-- registry, and is left to `set_volume`.
abbrev pub effect :
    (Text → Option (List Text)) → Keyword → Fate → Text → Parse → Result Zylofile.Error Done × Parse
effect decode use_image w arg s = (ok tt, record s { config = record s.config { image = arg } })
effect decode name w arg s = (ok tt, record s { config = record s.config { name = arg } })
effect decode set_workdir w arg s =
    (ok tt, record s { config = record s.config { workdir = workdir_of arg } })
effect decode copy w arg s = (
  ok tt,
  record s {
    config = record s.config {
      copy_dir = if arg == codes "." then s.config.cmd_path else s.config.cmd_path ++ arg;
    };
  },
)
effect decode network w arg s =
    if arg == main_net_name
    then (err reserved_network, s)
    else (ok tt, record s { config = record s.config { network = arg } })
effect decode execute w arg s =
    (ok tt, record s { config = record s.config { commands = s.config.commands ++ arg ∷ [] } })
effect decode volume w arg s = set_volume w arg s
effect decode set_env w arg s = elim (cut b':' arg) [
  | none ↦ (err bad_env, s)
  | some (key, value) ↦
      (ok tt, record s { config = record s.config { env_vars = put key value s.config.env_vars } })
]
effect decode open_port w arg s =
    (ok tt, record s { config = record s.config { ports = s.config.ports ++ arg ∷ [] } })
effect decode start_with w arg s = elim (decode arg) [
  | none ↦ (err bad_start, s)
  | some cmd ↦ (ok tt, record s { config = record s.config { commands = cmd } })
]

module _ (decode : Text → Option (List Text)) where
  instruct-effect :
      (k : Keyword) (w : Fate) (arg : Text) (s : Parse)
      → instruct decode w (word k) arg s ≡ effect decode k w arg s
  unfolding instruct ◌==◌
  instruct-effect network w arg s = ground arith
  instruct-effect set_env w arg s = ground arith
  instruct-effect start_with w arg s = ground arith
  instruct-effect _ w arg s = refl

  no_space : (k : Keyword) → any (λ c. eqb c b' ') (word k) ≡ false
  no_space use_image = refl
  no_space _ = refl

  -- A line that is a keyword, a space and an argument has the effect of the keyword on the trimmed
  -- argument.
  parse_line-effect :
      (k : Keyword) (w : Fate) (rest : Text) (s : Parse)
      → parse_line decode w (word k ++ b' ' ∷ rest) s ≡ effect decode k w (trim_space rest) s
  unfolding parse_line
  parse_line-effect k w rest s =
      rw (cut-append b' ' (word k) rest (no_space k), parse_parts)
        (instruct-effect k w (trim_space rest) s)
