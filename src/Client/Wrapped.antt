-- ===== src/Client/Wrapped.antt =====
-- internal/client: a second client, which puts its arguments into a field of their own. Its exec has
-- flags that are no texts, and is left out.
use zylo.Prelude.{not, ◌&&◌, Option, none, some, List, [], ◌∷◌, if◌then◌else◌}
use zylo.Text.{Text, ◌==◌, codes, is_empty}
use zylo.Table.{Table, get}
use zylo.Client.{Request, flag}
use zylo.Client.Flags.{parse_flags}

-- `Data` is a map of texts.
pub record Command : Type 0 where
  pub op : Text
  pub tty : Text
  pub path : Text
  pub payload : Table Text

-- A field of a JSON object: a text, or an object of texts.
pub data Json : Type 0 where
  text : Text → Json
  object : Table Text → Json

-- The JSON of a command, by its tags. A text that is empty is left out there, which reads the same.
abbrev pub fields : Command → Table Json
fields c =
    (codes "op", text c.op)
    ∷ (codes "tty", text c.tty)
    ∷ (codes "path", text c.path)
    ∷ (codes "data", object c.payload)
    ∷ []

-- A field of daemonAction, all of which are texts: empty where the JSON does not have it.
abbrev pub text_at : Text → Table Json → Text
text_at key json = elim (get key json) [
  | none ↦ []
  | some value ↦ elim value [ text s ↦ s | object t ↦ [] ]
]

-- What json.Unmarshal makes of the JSON of a command, by the tags of daemonAction.
unfoldable pub received : Command → Request
unfolding get
received c =
    let json = fields c in
    record {
      op = text_at (codes "op") json;
      tty = text_at (codes "tty") json;
      path = text_at (codes "path") json;
      hash = text_at (codes "hash") json;
      kind = text_at (codes "type") json;
      name = text_at (codes "name") json;
    }

abbrev pub command : Text → Text → Command
command op tty = record { op = op; tty = tty; path = []; payload = [] }

-- The build of a command from the flags; nothing where the client exits.
abbrev pub flags : List Text → List Text → (Table Text → Option Command) → Option Command
flags known args build = elim (parse_flags known args) [ none ↦ none | some t ↦ build t ]

abbrev pub down_of : Text → Text → Table Text → Option Command
down_of cwd tty t = some (record (command (codes "DOWN") tty) {
  path = cwd;
  payload = (codes "hash", flag [] (codes "hash") t) ∷ [];
})

unfoldable pub build_down_command : Text → Text → List Text → Option Command
unfolding parse_flags get
build_down_command cwd tty args = flags (codes "hash" ∷ []) args (down_of cwd tty)

abbrev pub logs_of : Text → Text → Table Text → Option Command
logs_of cwd tty t =
    let kind = flag (codes "output") (codes "type") t in
    if not (kind == codes "output") && not (kind == codes "daemon")
    then none
    else some (record (command (codes "LOGS") tty) {
      path = cwd;
      payload = (codes "hash", flag [] (codes "hash") t) ∷ (codes "type", kind) ∷ [];
    })

unfoldable pub build_logs_command : Text → Text → List Text → Option Command
unfolding parse_flags get
build_logs_command cwd tty args = flags (codes "hash" ∷ codes "type" ∷ []) args (logs_of cwd tty)

abbrev pub volume_delete_of : Text → Table Text → Option Command
volume_delete_of tty t =
    let name = flag [] (codes "name") t in
    let path = flag [] (codes "path") t in
    if is_empty name && is_empty path
    then none
    else if not (is_empty name) && not (is_empty path)
    then none
    else some (record (command (codes "VOLUME_DELETE") tty) {
      payload = (codes "name", name) ∷ (codes "path", path) ∷ [];
    })

unfoldable pub build_volume_delete_command : Text → List Text → Option Command
unfolding parse_flags get
build_volume_delete_command tty args =
    flags (codes "name" ∷ codes "path" ∷ []) args (volume_delete_of tty)

unfoldable pub build_volume_command : Text → List Text → Option Command
unfolding build_volume_delete_command
build_volume_command tty [] = none
build_volume_command tty (word ∷ args) =
    if word == codes "list"
    then some (command (codes "VOLUME_LIST") tty)
    else if word == codes "delete"
    then build_volume_delete_command tty args
    else none

abbrev pub image_of : Text → Text → Table Text → Option Command
image_of op tty t =
    let name = flag [] (codes "name") t in
    if is_empty name
    then none
    else some (record (command op tty) { payload = (codes "name", name) ∷ [] })

unfoldable pub build_image_pull_command : Text → List Text → Option Command
unfolding parse_flags get
build_image_pull_command tty args =
    flags (codes "name" ∷ []) args (image_of (codes "IMAGE_PULL") tty)

unfoldable pub build_image_delete_command : Text → List Text → Option Command
unfolding parse_flags get
build_image_delete_command tty args =
    flags (codes "name" ∷ []) args (image_of (codes "IMAGE_DELETE") tty)

unfoldable pub build_image_command : Text → List Text → Option Command
unfolding build_image_pull_command build_image_delete_command
build_image_command tty [] = none
build_image_command tty (word ∷ args) =
    if word == codes "list"
    then some (command (codes "IMAGE_LIST") tty)
    else if word == codes "pull"
    then build_image_pull_command tty args
    else if word == codes "delete"
    then build_image_delete_command tty args
    else none

-- `Run`, where the terminal and the daemon are there: the command that is sent. `exec` is what
-- buildExecCommand makes of its arguments.
unfoldable pub run : (List Text → Option Command) → Text → Text → List Text → Option Command
unfolding build_down_command build_logs_command build_volume_command build_image_command
run exec cwd tty [] = none
run exec cwd tty (word ∷ args) =
    if word == codes "up"
    then some (record (command (codes "UP") tty) { path = cwd })
    else if word == codes "down"
    then build_down_command cwd tty args
    else if word == codes "ps"
    then some (command (codes "PS") tty)
    else if word == codes "logs"
    then build_logs_command cwd tty args
    else if word == codes "exec"
    then exec args
    else if word == codes "volume"
    then build_volume_command tty args
    else if word == codes "image"
    then build_image_command tty args
    else none
