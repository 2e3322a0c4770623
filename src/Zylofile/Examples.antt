-- ===== src/Zylofile/Examples.antt =====
-- The theorems on ZyloFiles at concrete inputs, and tests.
use zylo.Prelude.{ℕ, ◌≡◌, refl, true, Option, none, List, [], ◌∷◌, ◌++◌, ok, err}
use zylo.Text.{Text, codes, ◌==◌, cut, has_prefix, trim_space, split, join}
use zylo.Disk.{absent, written}
use zylo.Paths.{join_path}
use zylo.Volume.Unique.{IsSound}
use zylo.Zylofile.{
  Parse, Fate, Config, content, fresh, parse_line, parse_lines, instruct, load_config, workdir_of,
  reserved_network,
}
use zylo.Zylofile.Registry.{load_config-IsSound}

abbrev no_json : Text → Option (List Text)
no_json s = none

abbrev smooth : ℕ → Fate
smooth n = record { hash = codes "h"; now = codes "t"; made = true; write = written }

abbrev project : Text
project = codes "USE_IMAGE python" ++ (10 ∷ (codes "!! note" ++ (10 ∷ codes "NETWORK my_net")))

abbrev empty : Parse
empty = record { config = fresh (codes "17-1") (codes "/p"); registry = absent }

load_config-IsSound_example :
    IsSound
      (load_config no_json
        (codes "17-1")
        smooth
        (codes "/p")
        (codes "/dev/tty")
        (content (codes "VOLUME /data:/srv"))
        absent).1
load_config-IsSound_example =
    load_config-IsSound no_json (codes "17-1") smooth (codes "/p") (codes "/dev/tty")
      (content (codes "VOLUME /data:/srv")) absent tt

abbrev loaded : Config
loaded = record {
  image = codes "python";
  name = [];
  open_ports = [];
  cmd_path = codes "/p";
  user_tty = codes "/dev/tty";
  set_workdir = [];
  copy_dir = [];
  env = [];
  network = codes "my_net";
  volumes = [];
  cmd = [];
}

project_loads :
    (load_config no_json
      (codes "17-1")
      smooth
      (codes "/p")
      (codes "/dev/tty")
      (content project)
      absent).0
    ≡ ok loaded
unfolding load_config parse_lines parse_line instruct ◌==◌ cut has_prefix trim_space split
project_loads = refl

reserved :
    (load_config no_json
      (codes "17-1")
      smooth
      (codes "/p")
      (codes "/dev/tty")
      (content (codes "NETWORK zylo0"))
      absent).0
    ≡ err reserved_network
unfolding load_config parse_lines parse_line instruct ◌==◌ cut has_prefix trim_space split
reserved = refl

-- Two dots leave the directory that is meant to hold the work.
workdir_leaves_source : workdir_of (codes "../etc") ≡ codes "/etc"
unfolding workdir_of ◌==◌ join_path split join
workdir_leaves_source = refl
