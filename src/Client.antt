-- ===== src/Client.antt =====
-- cmd/zylo/zylo.go: the request that a command line of the client sends, and the call that the
-- router of daemon/server.go makes of it.
pub mod Flags
pub mod Protocol
pub mod Wrapped
mod Examples
use zylo.Prelude.{
  Bool, true, false, not, ◌&&◌, ◌||◌, Option, none, some, List, [], ◌∷◌, if◌then◌else◌,
}
use zylo.Text.{Text, ◌==◌, codes, is_empty}
use zylo.Table.{Table, get}
use zylo.Client.Flags.{parse_flags}

-- `daemonAction` of daemon/daemon.go: a field that the client leaves out is empty.
pub record Request : Type 0 where
  pub op : Text
  pub tty : Text
  pub path : Text
  pub hash : Text
  pub kind : Text
  pub name : Text

abbrev pub request : Text → Text → Request
request op tty = record { op = op; tty = tty; path = []; hash = []; kind = []; name = [] }

-- The value of a flag, or its default.
abbrev pub flag : Text → Text → Table Text → Text
flag default name t = elim (get name t) [ none ↦ default | some v ↦ v ]

abbrev pub with_flags : List Text → List Text → (Table Text → Option Request) → Option Request
with_flags known args use_flags = elim (parse_flags known args) [
  | none ↦ none
  | some t ↦ use_flags t
]

abbrev pub down_request : Text → Text → Table Text → Option Request
down_request cwd pts t =
    some (record (request (codes "DOWN") pts) { path = cwd; hash = flag [] (codes "hash") t })

abbrev pub logs_request : Text → Text → Table Text → Option Request
logs_request cwd pts t =
    let kind = flag (codes "output") (codes "type") t in
    if kind == codes "output" || kind == codes "daemon"
    then some (record (request (codes "LOGS") pts) {
      path = cwd;
      hash = flag [] (codes "hash") t;
      kind = kind;
    })
    else none

abbrev pub delete_request : Text → Table Text → Option Request
delete_request pts t =
    let name = flag [] (codes "name") t in
    let path = flag [] (codes "path") t in
    if is_empty name && is_empty path
    then none
    else if not (is_empty name) && not (is_empty path)
    then none
    else some (record (request (codes "VOLUME_DELETE") pts) { name = name; path = path })

abbrev pub image_request : Text → Text → Table Text → Option Request
image_request op pts t =
    let name = flag [] (codes "name") t in
    if is_empty name then none else some (record (request op pts) { name = name })

unfoldable pub volume_command : Text → List Text → Option Request
unfolding parse_flags get
volume_command pts [] = none
volume_command pts (word ∷ args) =
    if word == codes "list"
    then some (request (codes "VOLUME_LIST") pts)
    else if word == codes "delete"
    then with_flags (codes "name" ∷ codes "path" ∷ []) args (delete_request pts)
    else none

unfoldable pub image_command : Text → List Text → Option Request
unfolding parse_flags get
image_command pts [] = none
image_command pts (word ∷ args) =
    if word == codes "list"
    then some (request (codes "IMAGE_LIST") pts)
    else if word == codes "pull"
    then with_flags (codes "name" ∷ []) args (image_request (codes "IMAGE_PULL") pts)
    else if word == codes "delete"
    then with_flags (codes "name" ∷ []) args (image_request (codes "IMAGE_DELETE") pts)
    else none

-- `main`, once the daemon answers: the request that is sent, or nothing where the client ends first.
unfoldable pub main : Text → Text → List Text → Option Request
unfolding volume_command image_command
main cwd pts [] = none
main cwd pts (word ∷ args) =
    if word == codes "up"
    then some (record (request (codes "UP") pts) { path = cwd })
    else if word == codes "down"
    then with_flags (codes "hash" ∷ []) args (down_request cwd pts)
    else if word == codes "ps"
    then some (request (codes "PS") pts)
    else if word == codes "logs"
    then with_flags (codes "hash" ∷ codes "type" ∷ []) args (logs_request cwd pts)
    else if word == codes "volume"
    then volume_command pts args
    else if word == codes "image"
    then image_command pts args
    else none

-- The calls that the router makes, with their arguments.
pub data Operation : Type 0 where
  up down : Text → Text → Operation
  ps volume_list image_list : Text → Operation
  logs volume_delete : Text → Text → Text → Operation
  image_pull image_delete : Text → Text → Operation
  unknown : Operation

-- The `switch` of router.
unfoldable pub route : Request → Operation
route r =
    if r.op == codes "UP"
    then up r.path (if is_empty r.tty then codes "/dev/stdout" else r.tty)
    else if r.op == codes "DOWN"
    then down r.hash r.path
    else if r.op == codes "PS"
    then ps r.tty
    else if r.op == codes "LOGS"
    then logs r.path r.tty r.hash
    else if r.op == codes "VOLUME_LIST"
    then volume_list r.tty
    else if r.op == codes "VOLUME_DELETE"
    then volume_delete r.tty r.name r.path
    else if r.op == codes "IMAGE_LIST"
    then image_list r.tty
    else if r.op == codes "IMAGE_PULL"
    then image_pull r.tty r.name
    else if r.op == codes "IMAGE_DELETE"
    then image_delete r.tty r.name
    else unknown
