-- ===== src/Daemon/Router/Examples.antt =====
-- The theorems on the router at concrete requests, and tests.
use zylo.Prelude.{ℕ, ◌≡◌, refl, true, Option, none, some, List, [], ◌∷◌, All, eqb, arith, keep}
use zylo.Text.{Text, ◌==◌, codes, trim_space}
use zylo.Identifiers.{hash}
use zylo.Disk.{holds, missing, written}
use zylo.Client.{Request, main, request}
use zylo.Client.Wrapped.{Command}
use zylo.Images.Pull.Retry.{all_well}
use zylo.Container.{Container, list_containers}
use zylo.Container.Cleanup.{Sweep, is_alive}
use zylo.Container.Listing as ContainerListing
use zylo.Container.Listing.Total.{IsHashed, Shows}
use zylo.Container.Start.Examples.{smooth, web}
use zylo.Container.Up.Examples.{fate, host}
use zylo.Daemon.Router.{
  System, Answer, RouterFate, line, silent, lines, cleaned, router, dark, said,
}
use zylo.Daemon.Router.Listed.{router-ps}

abbrev living : Container
living = record web { id = hash 1742583600 7; pid = 41 }

abbrev dead : Container
dead = record web { id = hash 1742583600 9; pid = 0; ip = [] }

abbrev sweep : Sweep
sweep = record {
  running = λ pid. eqb pid 41;
  iptables = record { there = true; deleted = λ q. true };
  net = λ h. smooth.down.net;
  left = λ h. none;
}

abbrev decode : Text → Option Request
decode s = some (request (codes "PS") (codes "/dev/pts/1"))

abbrev pub router_fate : RouterFate ℕ
router_fate = record {
  sweep = sweep;
  sweep_lib = sweep;
  decode = decode;
  up = fate;
  down = λ n. smooth.down;
  dir = true;
  tty = λ path. true;
  logs = λ id. missing;
  cwd = codes "/";
  removed = true;
  unregister = written;
  again = written;
  now = codes "t";
  dirs = some [];
  image = record { tty = true; ping = true; free_space = none; pull = all_well; removed = true };
  layers = λ name. none;
}

abbrev pub system : System ℕ
system = record {
  host = record host {
    runtime = record host.runtime {
      containers = (living.id, holds living) ∷ (dead.id, holds dead) ∷ [];
    };
  };
  lib = [];
  images = [];
}

containers-IsHashed : All IsHashed (list_containers system.host.runtime)
unfolding list_containers
containers-IsHashed = ((1742583600, 7, omega arith, refl), ((1742583600, 9, omega arith, refl), tt))

router-ps_example :
    (out : List ContainerListing.Line) × (router router_fate (codes "{}") system
      ≡ some (record { reply = silent; screen = lines out; system = cleaned router_fate system }))
    × Shows (keep (is_alive sweep.running) (list_containers system.host.runtime)) out
unfolding trim_space ◌==◌ main
router-ps_example =
    router-ps router_fate (codes "/") (codes "/dev/pts/1") (codes "{}") [] system refl refl refl
      (λ h. refl) refl refl containers-IsHashed

abbrev deaf : RouterFate ℕ
deaf = record router_fate { decode = λ s. none }

abbrev refusal : Answer ℕ
refusal = record {
  reply = said (line "Invalid JSON format");
  screen = dark;
  system = cleaned deaf system;
}

ping_answered :
    router deaf (codes " ping") system
    ≡ some (record { reply = said (codes "pong"); screen = dark; system = system })
unfolding router trim_space ◌==◌
ping_answered = refl

abbrev no_exec : List Text → Option Command
no_exec args = none

abbrev one_stop : Command
one_stop = record {
  op = codes "DOWN";
  tty = codes "/dev/pts/1";
  path = codes "/home/web";
  payload = (codes "hash", codes "17-1") ∷ [];
}
