-- ===== src/Daemon/Router/Wrapped.antt =====
-- The commands of the second client, internal/client, at the router of daemon/server.go.
use zylo.Prelude.{◌≡◌, Option, some, List, [], ◌∷◌, ℕ, suc, map, keep}
use zylo.Text.{Text, ◌==◌, codes}
use zylo.Table.{Table}
use zylo.Client.{Request, down}
use zylo.Client.Wrapped.{Command, received}
use zylo.Images.Commands
use zylo.Images.Commands.{CommandError}
use zylo.Container.Volumes
use zylo.Container
use zylo.Container.{Container, Runtime, list_containers}
use zylo.Container.Down
use zylo.Daemon.Router.{
  System, Failure, delete_failed, image_failed, Answer, RouterFate, failed, said, line, dark,
  with_runtime, down_failed,
}

-- A command whose arguments all stand in its payload.
abbrev IsBare : Text → Command → Type 0
IsBare op c = (c.op ≡ op) × (c.path ≡ [])

-- The operations of this client whose arguments the daemon looks for elsewhere.
pub data Lossy : Type 0 where
  stop_one delete_volume pull_image delete_image : Lossy

abbrev pub words : Lossy → List Text → List Text
words stop_one args = codes "down" ∷ args
words delete_volume args = codes "volume" ∷ codes "delete" ∷ args
words pull_image args = codes "image" ∷ codes "pull" ∷ args
words delete_image args = codes "image" ∷ codes "delete" ∷ args

module _ {L : Type 0} (w : RouterFate L) (s : System L) where
  abbrev pub refusal : Failure → Option (Answer L)
  refusal f = some (record { reply = failed f; screen = dark; system = s })

  -- `down` is called for each of the identifiers, in their order, from the n-th call on, whatever it
  -- returns.
  abbrev pub down_each : ℕ → List Text → Runtime → Runtime
  down_each n [] t = t
  down_each n (id ∷ ids) t = down_each (suc n) ids (Down.down (w.down n) id t).1

  -- The containers whose project stands in the directory.
  abbrev pub started_from : Text → List Text
  started_from cwd =
      map (λ (c : Container). c.id) (keep (λ c. c.cmd_path == cwd) (list_containers s.host.runtime))

  abbrev pub stopped : List Text → Option (Answer L)
  stopped [] = refusal (down_failed Container.none_match)
  stopped (id ∷ ids) = some (record {
    reply = said (line "Container stopped successfully");
    screen = dark;
    system = with_runtime (down_each 0 (id ∷ ids) s.host.runtime) s;
  })

  -- What comes of them: a stop of all that runs from the directory, or an error.
  abbrev pub outcome : Lossy → Text → Option (Answer L)
  outcome stop_one cwd = stopped (started_from cwd)
  outcome delete_volume cwd = refusal (delete_failed Volumes.none_given)
  outcome pull_image cwd = refusal (image_failed Commands.name_required)
  outcome delete_image cwd = refusal (image_failed Commands.name_required)

  abbrev sent : Text → Text → Command → Request
  sent op path c = received (record c { op = op; path = path })
