-- ===== src/Zylofile.antt =====
-- internal/container/zylo_file.go and loadConfig of internal/container/config.go: the ZyloFile of a
-- project and the configuration that it gives.
pub mod Lines
pub mod Keywords
pub mod Reserved
pub mod OneLine
pub mod Registry
mod Examples
use zylo.Prelude.{
  ℕ, suc, ◌<◌, Bool, true, false, not, ◌||◌, Option, none, some, List, [], ◌∷◌, ◌++◌, Result, ok,
  err, length, ltb, any, eqb, if◌then◌else◌,
}
use zylo.Prelude.Actions.{Act, Done, pure, fail, fail_if, lift, wrap, ignore, modify, ◌>>=◌, ◌>>◌}
use zylo.Text.{Text, ◌==◌, codes, is_empty, has_prefix, cut, split, trim_space}
use zylo.Disk.{File, Write}
use zylo.Table.{Table, put}
use zylo.Paths.{main_net_name, vol_pth, join_path}
use zylo.Volume
use zylo.Volume.{register_volume, find_volume}

-- `Volume` of container.go: a mount that the container asks for.
pub record Mount : Type 0 where
  pub name : Text
  pub host_path : Text
  pub container_path : Text

-- The fields of `container` that parsing sets.
pub record Container : Type 0 where
  pub hash : Text
  pub name : Text
  pub image : Text
  pub workdir : Text
  pub cmd_path : Text
  pub env_vars : Table Text
  pub ports : List Text
  pub commands : List Text
  pub copy_dir : Text
  pub volumes : List Mount
  pub network : Text

-- The volumes' registry changes while a file is parsed.
pub record Parse : Type 0 where
  pub config : Container
  pub registry : File Volume.Registry

pub data Error : Type 0 where
  no_file stat_failed is_directory read_failed too_long : Error
  invalid_instruction unknown_instruction reserved_network bad_env bad_start mkdir_failed : Error

abbrev pub Parser : Type 0 → Type 0
Parser A = Act Parse Error A

-- `Config` of config.go.
pub record Config : Type 0 where
  pub image : Text
  pub name : Text
  pub open_ports : List Text
  pub cmd_path : Text
  pub user_tty : Text
  pub set_workdir : Text
  pub copy_dir : Text
  pub env : Table Text
  pub network : Text
  pub volumes : List Mount
  pub cmd : List Text

-- What stands at the path of the ZyloFile.
pub data Source : Type 0 where
  missing unstatable directory unreadable : Source
  content : Text → Source

-- What a line meets outside: the next identifier, the time, and how its writes go.
pub record Fate : Type 0 where
  pub hash : Text
  pub now : Text
  pub made : Bool
  pub write : Write

abbrev pub set : (Container → Container) → Parser Done
set f = modify (λ s. record s { config = f s.config })

-- An action on the registry, its error dropped.
unfoldable pub on_registry {κ} :
    {E : Type κ} {A : Type 0} → Act (File Volume.Registry) E A → Parser Done
on_registry m s = (ok tt, record s { registry = (m s.registry).1 })

-- volume.FindVolume with its error dropped, and then a registration where it found nothing.
abbrev is_found : Result Volume.Error (Option Volume.Volume) → Bool
is_found (ok (some v)) = true
is_found _ = false

unfoldable pub register_new : Fate → Text → Text → Text → Text → Parser Done
unfolding on_registry
register_new w find_name find_path name path s =
    if is_found (find_volume find_name find_path s.registry).0
    then (ok tt, s)
    else on_registry (register_volume w.write w.now name path) s

abbrev pub add_volume : Mount → Container → Container
add_volume v c = record c { volumes = c.volumes ++ v ∷ [] }

unfoldable pub set_anonymous : Fate → Text → Parser Done
unfolding on_registry
set_anonymous w arg s =
    let host = join_path (join_path vol_pth s.config.hash) w.hash in
    (do
      on_registry (register_volume w.write w.now w.hash host)
      fail_if (not w.made) mkdir_failed
      set (add_volume (record { name = w.hash; host_path = host; container_path = arg })))
      s

unfoldable pub set_bound : Fate → Text → Text → Parser Done
unfolding register_new
set_bound w left right = do
  register_new w [] right [] right
  fail_if (not w.made) mkdir_failed
  set (add_volume (record { name = []; host_path = right; container_path = left }))

unfoldable pub set_named : Fate → Text → Text → Parser Done
unfolding register_new
set_named w left right = do
  register_new w left [] left (join_path vol_pth left)
  fail_if (not w.made) mkdir_failed
  set (
      add_volume
        (record { name = left; host_path = join_path vol_pth left; container_path = right }))

abbrev pub set_volume_parts : Fate → Text → Option (Text × Text) → Parser Done
set_volume_parts w arg none = set_anonymous w arg
set_volume_parts w arg (some (left, right)) =
    if has_prefix left (codes "/") then set_bound w left right else set_named w left right

unfoldable pub set_volume : Fate → Text → Parser Done
set_volume w arg = set_volume_parts w arg (cut b':' arg)

abbrev trim_slash : Text → Text
trim_slash [] = []
trim_slash (c ∷ s) = if eqb c b'/' then s else c ∷ s

unfoldable pub workdir_of : Text → Text
workdir_of arg =
    if arg == codes "." || is_empty arg
    then codes "/source"
    else join_path (codes "/source") (trim_slash arg)

abbrev pub env_of : Option (Text × Text) → Parser Done
env_of none = fail bad_env
env_of (some (key, value)) = set (λ c. record c { env_vars = put key value c.env_vars })

-- bufio.MaxScanTokenSize
abbrev pub max_line : ℕ
max_line = 65536

-- What an instruction is not: blank, or a comment.
abbrev pub is_skipped : Text → Bool
is_skipped line = is_empty line || has_prefix line (codes "!!")

abbrev pub numbered : (ℕ → Fate) → ℕ → List Text → List (Text × Fate)
numbered fates n [] = []
numbered fates n (l ∷ ls) = (l, fates n) ∷ numbered fates (suc n) ls

-- `&container{cmdPath: p}`, with the fields that parseZyFile sets first.
abbrev pub fresh : Text → Text → Container
fresh hash p = record {
  hash = hash;
  name = [];
  image = [];
  workdir = [];
  cmd_path = p;
  env_vars = [];
  ports = [];
  commands = [];
  copy_dir = [];
  volumes = [];
  network = [];
}

-- findZyFile and the read of parseZyFile
abbrev pub source_text : Source → Result Error Text
source_text missing = err no_file
source_text unstatable = err stat_failed
source_text directory = err is_directory
source_text unreadable = err read_failed
source_text (content text) = ok text

-- `CopyDir` is not among the fields that loadConfig fills.
abbrev pub config_of : Text → Container → Config
config_of tty c = record {
  image = c.image;
  name = c.name;
  open_ports = c.ports;
  cmd_path = c.cmd_path;
  user_tty = tty;
  set_workdir = c.workdir;
  copy_dir = [];
  env = c.env_vars;
  network = c.network;
  volumes = c.volumes;
  cmd = c.commands;
}

abbrev pub finish : Text → Result Error Done × Parse → Result Error Config × File Volume.Registry
finish tty (ok u, s) = (ok (config_of tty s.config), s.registry)
finish tty (err e, s) = (err e, s.registry)

-- json.Unmarshal into a []string, which is not modelled.
module _ (decode : Text → Option (List Text)) where
  abbrev start_with : Option (List Text) → Parser Done
  start_with none = fail bad_start
  start_with (some cmd) = set (λ c. record c { commands = cmd })

  -- The `switch` of parseLine.
  unfoldable pub instruct : Fate → Text → Text → Parser Done
  unfolding workdir_of
  instruct w word arg =
      if word == codes "USE_IMAGE"
      then set (λ c. record c { image = arg })
      else if word == codes "NAME"
      then set (λ c. record c { name = arg })
      else if word == codes "SET_WORKDIR"
      then set (λ c. record c { workdir = workdir_of arg })
      else if word == codes "COPY"
      then set
          (λ c. record c { copy_dir = if arg == codes "." then c.cmd_path else c.cmd_path ++ arg })
      else if word == codes "NETWORK"
      then (do
        fail_if (arg == main_net_name) reserved_network
        set (λ c. record c { network = arg }))
      else if word == codes "EXECUTE"
      then set (λ c. record c { commands = c.commands ++ arg ∷ [] })
      else if word == codes "VOLUME"
      then set_volume w arg
      else if word == codes "SET_ENV"
      then env_of (cut b':' arg)
      else if word == codes "OPEN_PORT"
      then set (λ c. record c { ports = c.ports ++ arg ∷ [] })
      else if word == codes "START_WITH"
      then start_with (decode arg)
      else fail unknown_instruction

  abbrev pub parse_parts : Fate → Option (Text × Text) → Parser Done
  parse_parts w none = fail invalid_instruction
  parse_parts w (some (word, rest)) = instruct w word (trim_space rest)

  unfoldable pub parse_line : Fate → Text → Parser Done
  parse_line w line = parse_parts w (cut b' ' line)

  -- The scanner's loop. A line that does not fit its buffer ends it with an error.
  unfoldable pub parse_lines : List (Text × Fate) → Parser Done
  parse_lines [] s = (ok tt, s)
  parse_lines ((raw, w) ∷ rest) s =
      let line = trim_space raw in
      let more = parse_lines rest in
      if ltb (length raw) max_line
      then (if is_skipped line then more s else (parse_line w line >> more) s)
      else (err too_long, s)

  abbrev pub parse_text :
      Text
      → (ℕ → Fate)
      → Text
      → Text
      → Result Error Text
      → File Volume.Registry
      → Result Error Config × File Volume.Registry
  parse_text hash fates p tty (err e) reg = (err e, reg)
  parse_text hash fates p tty (ok text) reg = finish tty (
      parse_lines (numbered fates 0 (split 10 text))
        (record { config = fresh hash p; registry = reg }))

  unfoldable pub load_config :
      Text → (ℕ → Fate) → Text → Text → Source → Act (File Volume.Registry) Error Config
  load_config hash fates p tty source reg = parse_text hash fates p tty (source_text source) reg
