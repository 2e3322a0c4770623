-- ===== src/Resources/Log.antt =====
-- internal/container/resources/log.go: the terminal and the two log files of a container. The files
-- that are open are those whose handle has not been closed.
pub mod Closed
use zylo.Prelude.{
  ℕ, Bool, true, false, not, Option, none, some, List, [], ◌∷◌, ◌++◌, Result, ok, err, keep,
  if◌then◌else◌,
}
use zylo.Prelude.Actions.{Act, Done, pure, fail, fail_if, modify, ◌>>=◌, ◌>>◌}
use zylo.Text.{Text, ◌==◌, codes, is_empty}
use zylo.Paths.{join_path}
use zylo.Table.{Table, get, put}

-- The contents of the files, the terminal among them, and the paths that are open.
pub record Files : Type 0 where
  pub contents : Table Text
  pub opened : List Text

pub record Manager : Type 0 where
  pub container_id : Text
  pub user_tty : Text
  pub output_file : Text
  pub daemon_file : Text

pub data LogError : Type 0 where
  no_dir no_tty no_output no_daemon : LogError

-- os.MkdirAll and the three calls of os.OpenFile.
pub record LogFate : Type 0 where
  pub made : Bool
  pub tty : Bool
  pub output : Bool
  pub daemon : Bool

abbrev pub log_dir : Text → Text
log_dir id = join_path (join_path (codes "/var/run/zylo/containers") id) (codes "logs")

unfoldable pub open_file : Bool → LogError → Text → Act Files LogError Done
open_file opens e path s =
    if not opens then (err e, s) else (ok tt, record s { opened = path ∷ s.opened })

abbrev pub made_if : Text → Option Text → Table Text → Table Text
made_if path (some t) files = files
made_if path none files = put path [] files

-- With O_CREATE a missing file is made, empty.
abbrev pub create_file : Text → Act Files LogError Done
create_file path =
    modify (λ s. record s { contents = made_if path (get path s.contents) s.contents })

abbrev pub open_log : Bool → LogError → Text → Act Files LogError Done
open_log opens e path = do open_file opens e path; create_file path

unfoldable pub drop_first : Text → List Text → List Text
drop_first path [] = []
drop_first path (p ∷ ps) = if p == path then ps else p ∷ drop_first path ps

-- Close of one file
unfoldable pub close_file : Text → Files → Files
unfolding drop_first
close_file path s = record s { opened = drop_first path s.opened }

-- A call that closes the files that are open where it fails.
abbrev pub or_close : List Text → Act Files LogError Done → Act Files LogError Done
or_close paths m s = undo (m s).0 (m s).1
  where
    close_all : List Text → Files → Files
    close_all [] t = t
    close_all (p ∷ ps) t = close_all ps (close_file p t)

    undo : Result LogError Done → Files → Result LogError Done × Files
    undo (ok u) t = (ok u, t)
    undo (err e) t = (err e, close_all paths t)

abbrev pub manager_of : Text → Text → Manager
manager_of id tty_path = record {
  container_id = id;
  user_tty = tty_path;
  output_file = join_path (log_dir id) (codes "output.log");
  daemon_file = join_path (log_dir id) (codes "daemon.log");
}

unfoldable pub new_manager : LogFate → Text → Text → Act Files LogError Manager
unfolding open_file close_file
new_manager w id tty_path = do
  let m = manager_of id tty_path
  fail_if (not w.made) no_dir
  open_file w.tty no_tty m.user_tty
  or_close (m.user_tty ∷ []) (open_log w.output no_output m.output_file)
  or_close (m.user_tty ∷ m.output_file ∷ []) (open_log w.daemon no_daemon m.daemon_file)
  pure m

unfoldable pub close : Manager → Files → Files
unfolding close_file
close m s = close_file m.daemon_file (close_file m.output_file (close_file m.user_tty s))

abbrev content_of : Option Text → Text
content_of none = []
content_of (some t) = t

-- The files are opened for appending.
unfoldable pub append_to : Text → Text → Files → Files
append_to path t s = record s {
  contents = put path (content_of (get path s.contents) ++ t) s.contents;
}

-- Output, where the format has been filled in; `stamp` is the time of day.
unfoldable pub output : Manager → Text → Text → Files → Files
unfolding append_to
output m stamp msg s =
    let text = if is_empty msg then 10 ∷ [] else stamp ++ (32 ∷ (msg ++ 10 ∷ [])) in
    append_to m.output_file text (append_to m.user_tty text s)

-- Daemon
unfoldable pub daemon : Manager → Text → Text → Text → Files → Files
unfolding append_to
daemon m stamp level msg s =
    append_to m.daemon_file (stamp ++ (codes " [" ++ (level ++ (codes "] " ++ (msg ++ 10 ∷ []))))) s
