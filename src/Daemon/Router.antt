-- ===== src/Daemon/Router.antt =====
-- `router` of daemon/server.go, with Logs, Ps, VolumeList and VolumeDelete of internal/container and
-- List of image: one request as an action on all that the daemon keeps.
pub mod Listed
pub mod Wrapped
pub mod Examples
use zylo.Prelude.{
  ℕ, String, ◌++◌, Bool, true, false, Option, none, some, List, [], ◌∷◌, Result, ok, err,
  if◌then◌else◌,
}
use zylo.Prelude.Actions.{Act, Done}
use zylo.Text.{Text, ◌==◌, codes, trim_space}
use zylo.Disk.{File, Write, TextFile}
use zylo.Table.{Table}
use zylo.Client.{
  Request, Operation, up, down, ps, logs, volume_list, volume_delete, image_list, image_pull,
  image_delete, unknown, route,
}
use zylo.Images.Listing as ImageListing
use zylo.Images.Listing.{Dir}
use zylo.Images.Pull.{Entry}
use zylo.Images.Commands
use zylo.Images.Commands.{CommandFate, CommandError}
use zylo.Container
use zylo.Container.{Container, Runtime}
use zylo.Container.Listing as ContainerListing
use zylo.Container.Listing.{ListError}
use zylo.Container.Volumes
use zylo.Container.Cleanup.{Sweep, runtime_cleanup}
use zylo.Container.Down
use zylo.Container.Lifecycle.{stop}
use zylo.Container.Setup.{Host}
use zylo.Container.Up
use zylo.Container.Up.{UpFate, UpError}

-- What stands on the disk and in the kernel: the host with the containers' state, the directories of
-- `lib` that hold a container.json, and the images.
pub record System (L : Type 0) : Type 0 where
  pub host : Host
  pub lib : Table (File Container)
  pub images : Table (Entry L)

pub data Failure : Type 0 where
  up_failed : UpError → Failure
  down_failed : Container.Error → Failure
  list_failed : ListError → Failure
  delete_failed : Volumes.Error → Failure
  images_failed : ImageListing.ListError → Failure
  image_failed : CommandError → Failure

-- What goes back on the connection: nothing, a text, or the text of an error.
pub data Reply : Type 0 where
  silent : Reply
  said : Text → Reply
  failed : Failure → Reply

-- What a listing puts on the terminal of the request.
pub data Screen : Type 0 where
  dark : Screen
  lines : List ContainerListing.Line → Screen
  images : List ImageListing.Line → Screen

pub record Answer (L : Type 0) : Type 0 where
  pub reply : Reply
  pub screen : Screen
  pub system : System L

-- What a request meets outside. `decode` is json.Unmarshal of a daemonAction.
pub record RouterFate (L : Type 0) : Type 0 where
  pub sweep : Sweep
  pub sweep_lib : Sweep
  pub decode : Text → Option Request
  pub up : UpFate
  pub down : ℕ → Down.Fate
  pub dir : Bool
  pub tty : Text → Bool
  pub logs : Text → TextFile
  pub cwd : Text
  pub removed : Bool
  pub unregister : Write
  pub again : Write
  pub now : Text
  pub dirs : Option (List Dir)
  pub image : CommandFate
  pub layers : Text → Option (List L)

abbrev pub line : String → Text
line s = codes s ++ 10 ∷ []

abbrev pub reply_of {ℓ κ} : {E : Type ℓ} {A : Type κ} → (E → Failure) → Reply → Result E A → Reply
reply_of f done (ok a) = done
reply_of f done (err e) = failed (f e)

module _ {L : Type 0} where
  abbrev pub say : Text → System L → Option (Answer L)
  say t s = some (record { reply = said t; screen = dark; system = s })

  -- A listing changes nothing; where it panics the daemon ends.
  abbrev pub list_reply {ℓ κ} :
      {E : Type ℓ} {A : Type κ}
      → (E → Failure)
      → (A → Screen)
      → Option (Result E A)
      → System L
      → Option (Answer L)
  list_reply f show none s = none
  list_reply f show (some (ok a)) s = some (record { reply = silent; screen = show a; system = s })
  list_reply f show (some (err e)) s =
      some (record { reply = failed (f e); screen = dark; system = s })

  abbrev pub with_runtime : Runtime → System L → System L
  with_runtime r s = record s { host = record s.host { runtime = r } }

  -- An operation that changes the state, with what is said where it succeeds.
  abbrev pub up_answer : RouterFate L → Text → Text → System L → Option (Answer L)
  up_answer w path tty s =
      let (r, host) = Up.up w.up path tty s.host in
      some (record {
        reply = reply_of up_failed (said (line "Container started successfully")) r;
        screen = dark;
        system = record s { host = host };
      })

  abbrev pub down_answer : RouterFate L → Text → Text → System L → Option (Answer L)
  down_answer w hash path s =
      let (r, t) = stop w.down hash path s.host.runtime in
      some (record {
        reply = reply_of down_failed (said (line "Container stopped successfully")) r;
        screen = dark;
        system = with_runtime t s;
      })

  abbrev pub delete_answer : RouterFate L → Text → Text → System L → Option (Answer L)
  delete_answer w name path s =
      let t = s.host.runtime in
      let (r, f) = Volumes.volume_delete w.removed w.unregister w.again w.now name path t.volumes in
      some (record {
        reply = reply_of delete_failed silent r;
        screen = dark;
        system = with_runtime (record t { volumes = f }) s;
      })

  abbrev pub image_answer : Act (Table (Entry L)) CommandError Done → System L → Option (Answer L)
  image_answer m s =
      let (r, t) = m s.images in
      some (record {
        reply = reply_of image_failed silent r;
        screen = dark;
        system = record s { images = t };
      })

  -- The cases of the `switch`.
  unfoldable pub perform : RouterFate L → Operation → System L → Option (Answer L)
  perform w (up path tty) s = up_answer w path tty s
  perform w (down hash path) s = down_answer w hash path s
  perform w (ps tty) s =
      list_reply list_failed lines (ContainerListing.ps w.dir (w.tty tty) s.host.runtime) s
  perform w (logs path tty hash) s =
      list_reply list_failed lines
        (ContainerListing.logs (w.tty tty) w.logs w.cwd path hash s.host.runtime) s
  perform w (volume_list tty) s =
      list_reply list_failed lines (ContainerListing.volume_list (w.tty tty) s.host.runtime) s
  perform w (volume_delete tty name path) s = delete_answer w name path s
  perform w (image_list tty) s =
      list_reply images_failed images (ImageListing.list w.dirs (w.tty tty)) s
  perform w (image_pull tty name) s = image_answer (Commands.pull w.image name (w.layers name)) s
  perform w (image_delete tty name) s = image_answer (Commands.delete w.image s.host.runtime name) s
  perform w unknown s = say (line "Unknown operation") s

  abbrev pub cleaned : RouterFate L → System L → System L
  cleaned w s =
      let (dirs, t) = runtime_cleanup w.sweep w.sweep_lib s.lib s.host.runtime in
      record (with_runtime t s) { lib = dirs }

  abbrev pub perform_request : RouterFate L → Option Request → System L → Option (Answer L)
  perform_request w none s = say (line "Invalid JSON format") s
  perform_request w (some r) s = perform w (route r) s

  -- `input` is what conn.Read puts into the buffer of 4096 bytes.
  unfoldable pub router : RouterFate L → Text → System L → Option (Answer L)
  unfolding trim_space runtime_cleanup route perform
  router w input s =
      let command = trim_space input in
      if command == codes "ping"
      then say (codes "pong") s
      else if command == codes "status"
      then say (codes "ok") s
      else perform_request w (w.decode command) (cleaned w s)
