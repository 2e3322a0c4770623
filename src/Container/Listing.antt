-- ===== src/Container/Listing.antt =====
-- internal/container/list.go (ps), logs.go and volumeList of volumes.go: what a terminal is shown.
-- A row is the list of its cells, which text/tabwriter sets out in columns. A slice that reaches
-- behind the end of a text ends the daemon, which is `none`.
pub mod Total
use zylo.Prelude.{
  ℕ, zero, suc, Bool, true, false, not, Option, none, some, List, [], ◌∷◌, ◌++◌, Result, ok, err,
  map, length, if◌then◌else◌,
}
use zylo.Text.{Text, codes, decimal, is_empty, join}
use zylo.Disk.{Fault, TextFile, not_exist, read_text}
use zylo.Zylofile.{Mount}
use zylo.Volume
use zylo.Volume.{Volume, Registry, list_volumes}
use zylo.Container
use zylo.Container.{Container, Runtime, list_containers}
use zylo.Container.Find.{find_container}

pub data Line : Type 0 where
  plain : Text → Line
  row : List Text → Line

pub data ListError : Type 0 where
  no_dir no_tty logs_unread : ListError
  registry_failed : Volume.Error → ListError
  not_found : Container.Error → ListError

abbrev pub Listing : Type 0
Listing = Option (Result ListError (List Line))

abbrev prefix_with : ℕ → Option Text → Option Text
prefix_with c none = none
prefix_with c (some s) = some (c ∷ s)

-- s[:n]
unfoldable pub slice_to : ℕ → Text → Option Text
slice_to zero s = some []
slice_to (suc n) [] = none
slice_to (suc n) (c ∷ s) = prefix_with c (slice_to n s)

-- A comma and a space between the texts.
unfoldable pub comma_join : List Text → Text
comma_join [] = []
comma_join (l ∷ []) = l
comma_join (l ∷ m ∷ ls) = l ++ (codes ", " ++ comma_join (m ∷ ls))

abbrev pub volume_label : Mount → Text
volume_label v = if not (is_empty v.name) then v.name else v.host_path

abbrev pub shown_name : Container → Option Text
shown_name c = if is_empty c.name then slice_to 12 c.id else some c.name

abbrev pub cells : Container → Text → Line
cells c name = row (
    name
    ∷ c.image
    ∷ comma_join (map volume_label c.volumes)
    ∷ join 32 c.cmd
    ∷ comma_join c.ports
    ∷ c.ip
    ∷ [])

abbrev pub prepend : Option Line → Option (List Line) → Option (List Line)
prepend none rest = none
prepend (some l) none = none
prepend (some l) (some ls) = some (l ∷ ls)

abbrev pub container_row : Option Text → Container → Option Line
container_row none c = none
container_row (some name) c = some (cells c name)

unfoldable pub container_rows : List Container → Option (List Line)
unfolding slice_to comma_join
container_rows [] = some []
container_rows (c ∷ cs) = prepend (container_row (shown_name c) c) (container_rows cs)

abbrev pub blank : Line
blank = plain []

abbrev pub header : Line
header =
    row (
      codes "NAME"
      ∷ codes "IMAGE"
      ∷ codes "VOLUMES"
      ∷ codes "CMD"
      ∷ codes "PORTS"
      ∷ codes "IP"
      ∷ [])

abbrev pub framed : Line → Option (List Line) → Listing
framed head none = none
framed head (some rows) = some (ok (blank ∷ head ∷ (rows ++ blank ∷ [])))

abbrev pub container_table : List Container → Listing
container_table [] = some (ok (blank ∷ plain (codes "No live containers.") ∷ blank ∷ []))
container_table (c ∷ cs) = framed header (container_rows (c ∷ cs))

-- Whether the directory of the containers can be read, and the terminal opened.
unfoldable pub ps : Bool → Bool → Runtime → Listing
unfolding list_containers container_rows
ps dir tty s =
    if not dir
    then some (err no_dir)
    else if not tty
    then some (err no_tty)
    else container_table (list_containers s)

abbrev pub volume_row : Option Text → Volume → Option Line
volume_row none v = none
volume_row (some day) v =
    some (row (v.name ∷ v.path ∷ day ∷ (decimal (length v.used_by) ++ codes " container(s)") ∷ []))

unfoldable pub volume_rows : List Volume → Option (List Line)
unfolding slice_to
volume_rows [] = some []
volume_rows (v ∷ vs) = prepend (volume_row (slice_to 10 v.created) v) (volume_rows vs)

abbrev volume_header : Line
volume_header = row (codes "NAME" ∷ codes "PATH" ∷ codes "CREATED" ∷ codes "USED BY" ∷ [])

abbrev pub volume_table : List Volume → Listing
volume_table [] = some (ok (blank ∷ plain (codes "No volumes found.") ∷ blank ∷ []))
volume_table (v ∷ vs) = framed volume_header (volume_rows (v ∷ vs))

-- The error of the terminal is dropped, and what is written to it is lost.
abbrev pub unseen : Bool → Listing → Listing
unseen true l = l
unseen false none = none
unseen false (some r) = some (ok [])

abbrev pub volumes_shown : Bool → Result Volume.Error Registry → Listing
volumes_shown tty (err e) = some (err (registry_failed e))
volumes_shown tty (ok vs) = unseen tty (volume_table vs)

unfoldable pub volume_list : Bool → Runtime → Listing
unfolding list_volumes volume_rows
volume_list tty s = volumes_shown tty (list_volumes s.volumes).0

abbrev pub no_logs : Option Text → Listing
no_logs none = none
no_logs (some id) = some (ok (plain (codes "No logs found for container " ++ id) ∷ []))

abbrev pub log_shown : Container → Result Fault Text → Listing
log_shown c (ok s) = some (ok (plain s ∷ []))
log_shown c (err not_exist) = no_logs (slice_to 12 c.id)
log_shown c (err e) = some (err logs_unread)

abbrev pub logs_of : Bool → (Text → TextFile) → Result Container.Error Container → Listing
logs_of tty files (err e) = some (err (not_found e))
logs_of tty files (ok c) =
    if not tty then some (err no_tty) else log_shown c (read_text (files c.id))

-- `files` is the file output.log of each container, and `cwd` the daemon's working directory.
unfoldable pub logs : Bool → (Text → TextFile) → Text → Text → Text → Runtime → Listing
unfolding find_container read_text slice_to
logs tty files cwd cmd_path hash s = logs_of tty files (find_container cmd_path hash cwd s)
