-- ===== src/Container/Init/Examples.antt =====
-- The theorems on the start of a program at a concrete container, and tests.
use zylo.Prelude.{
  ℕ, ◌≡◌, refl, true, false, Option, none, some, List, [], ◌∷◌, ◌++◌, any, ok, if◌then◌else◌,
}
use zylo.Text.{Text, codes, ◌==◌, cut, split, join, has_prefix, trim_space}
use zylo.Text.Equality.{==_refl}
use zylo.Text.Search.{cut-append}
use zylo.Disk.{absent, written}
use zylo.Table.{put}
use zylo.Zylofile.{
  Fate, Config, content, load_config, parse_lines, parse_line, instruct, workdir_of,
}
use zylo.Paths.{join_path, clean, enter, enter_all}
use zylo.Container.Setup.{default_path, new_container, build_env}
use zylo.Container.Start.Run.{added_env, cmd_args}
use zylo.Container.Init.{
  Environs, change_dir, InitFate, last_path, container_init, enter_root, settle, start_program,
  must,
}
use zylo.Container.Init.Jail.{AllJailed, container_init-AllJailed}
use zylo.Container.Init.Environ.{IsName, Laws}
use zylo.Container.Init.Main.{zylod, program}
use zylo.Container.Init.Program.{zylod-load_config}

abbrev given_value : Text → Text → Option (Text × Text) → Text
given_value d k none = d
given_value d k (some (j, v)) = if j == k then v else d

unfoldable last_value : Text → Text → List Text → Text
last_value d k [] = d
last_value d k (e ∷ env) = last_value (given_value d k (cut b'=' e)) k env

abbrev os : Environs
os = record { getenv = λ env k. last_value [] k env; environ = λ env. env }

last_value-last :
    (d : Text) (env : List Text) (k v : Text)
    → IsName k
    → last_value d k (env ++ (k ++ b'=' ∷ v) ∷ []) ≡ v
unfolding last_value
last_value-last d [] k v h = rw (cut-append b'=' k v h.1, ==_refl k) refl
last_value-last d (e ∷ env) k v h = last_value-last (given_value d k (cut b'=' e)) env k v h

last_value-skip :
    (d : Text) (env : List Text) (k j v : Text)
    → IsName j
    → (j == k) ≡ false
    → last_value d k (env ++ (j ++ b'=' ∷ v) ∷ []) ≡ last_value d k env
unfolding last_value
last_value-skip d [] k j v h g = rw (cut-append b'=' j v h.1, g) refl
last_value-skip d (e ∷ env) k j v h g = last_value-skip (given_value d k (cut b'=' e)) env k j v h g

os-Laws : Laws os
os-Laws = record {
  last = λ env k v h. last_value-last [] env k v h;
  skip = λ env k j v h g. last_value-skip [] env k j v h g;
}

abbrev smooth : InitFate
smooth = record { go = λ c. true; script = false; entrypoint = true }

abbrev decode : Text → Option (List Text)
decode s = some (s ∷ [])

abbrev fates : ℕ → Fate
fates n = record { hash = codes "h"; now = codes "t"; made = true; write = written }

abbrev project : Text
project = codes "SET_ENV A:b c" ++ (10 ∷ codes "START_WITH run")

abbrev loaded : Config
loaded = record {
  image = [];
  name = [];
  open_ports = [];
  cmd_path = codes "/p";
  user_tty = codes "/dev/tty";
  set_workdir = [];
  copy_dir = [];
  env = (codes "A", codes "b c") ∷ [];
  network = [];
  volumes = [];
  cmd = codes "run" ∷ [];
}

loads :
    (load_config decode
      (codes "17-1")
      fates
      (codes "/p")
      (codes "/dev/tty")
      (content project)
      absent).0
    ≡ ok loaded
unfolding load_config parse_lines parse_line instruct workdir_of cut has_prefix trim_space split
    ◌==◌ put
loads = refl

zylod-load_config_example :
    program (
      zylod os smooth
        (codes "ZYLO_WORKDIR=/w" ∷ added_env (new_container (codes "17-1") loaded))
        (cmd_args (new_container (codes "17-1") loaded)))
    ≡ some (
      codes "/entrypoint.sh",
      codes "/entrypoint.sh" ∷ codes "run" ∷ [],
      default_path ∷ codes "A=b c" ∷ last_path ∷ [],
    )
zylod-load_config_example =
    zylod-load_config os os-Laws smooth (λ x. refl) decode (codes "17-1") fates (codes "/p")
      (codes "/dev/tty") (content project) absent loads (codes "17-1")
      (codes "ZYLO_WORKDIR=/w" ∷ [])

container_init-AllJailed_example :
    AllJailed
      (record smooth { script = true })
      (os.getenv (added_env (new_container (codes "17-1") loaded)) (codes "ZYLO_ROOTFS"))
      (container_init os
        (record smooth { script = true })
        (added_env (new_container (codes "17-1") loaded))
        (cmd_args (new_container (codes "17-1") loaded))
        []).1
container_init-AllJailed_example =
    container_init-AllJailed os (record smooth { script = true })
      (added_env (new_container (codes "17-1") loaded))
      (cmd_args (new_container (codes "17-1") loaded))

-- A container without a directory of work takes that of the daemon's own variables.
daemon_workdir :
    any
      (λ c. elim c [ change_dir dir ↦ dir == codes "/w" | _ ↦ false ])
      (container_init os smooth
        (codes "ZYLO_WORKDIR=/w" ∷ added_env (new_container (codes "17-1") loaded))
        (cmd_args (new_container (codes "17-1") loaded))
        []).1
    ≡ true
unfolding container_init enter_root settle start_program must build_env last_value join_path clean
    enter enter_all cut split join ◌==◌
daemon_workdir = refl
