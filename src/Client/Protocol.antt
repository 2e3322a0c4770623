-- ===== src/Client/Protocol.antt =====
-- What the daemon makes of the requests that the client sends.
use zylo.Prelude.{
  ◌≡◌, refl, Bool, true, false, not, ◌&&◌, ◌||◌, Option, none, some, List, [], ◌∷◌, if◌then◌else◌,
}
use zylo.Text.{Text, ◌==◌, codes, is_empty}
use zylo.Table.{Table}
use zylo.Client.{
  Request, Operation, unknown, volume_delete, volume_command, image_command, main, route, request,
  flag, with_flags, down_request, logs_request, delete_request, image_request,
}
use zylo.Client.Flags.{parse_flags}
use zylo.Prelude.Actions.{Done}

-- A call of the daemon as the client may ask for it: a known one, and the deletion of a volume by
-- exactly one of its name and its path.
abbrev pub is_proper : Operation → Bool
is_proper (volume_delete tty name path) =
    is_empty name && not (is_empty path) || not (is_empty name) && is_empty path
is_proper unknown = false
is_proper _ = true

-- Where a request is sent, its call is proper.
abbrev IsServed : Option Request → Type 0
IsServed none = Done
IsServed (some r) = is_proper (route r) ≡ true

if-IsServed :
    (b : Bool) (x y : Option Request) → IsServed x → IsServed y → IsServed (if b then x else y)
if-IsServed true x y hx hy = hx
if-IsServed false x y hx hy = hy

with_flags-IsServed :
    (known args : List Text) (f : Table Text → Option Request)
    → ((t : Table Text) → IsServed (f t))
    → IsServed (with_flags known args f)
with_flags-IsServed known args f h = parsed (parse_flags known args)
  where
    parsed : (o : Option (Table Text)) → IsServed (elim o [ none ↦ none | some t ↦ f t ])
    parsed none = tt
    parsed (some t) = h t

delete_request-IsServed : (pts : Text) (t : Table Text) → IsServed (delete_request pts t)
unfolding route ◌==◌
delete_request-IsServed pts t = given (flag [] (codes "name") t) (flag [] (codes "path") t)
  where
    given :
        (name path : Text)
        → IsServed (
            if is_empty name && is_empty path
            then none
            else if not (is_empty name) && not (is_empty path)
            then none
            else some (record (request (codes "VOLUME_DELETE") pts) { name = name; path = path }))
    given [] [] = tt
    given [] (c ∷ path) = refl
    given (c ∷ name) [] = refl
    given (c ∷ name) (d ∷ path) = tt

volume_command-IsServed : (pts : Text) (args : List Text) → IsServed (volume_command pts args)
unfolding volume_command route ◌==◌
volume_command-IsServed pts [] = tt
volume_command-IsServed pts (word ∷ args) = if-IsServed (word == codes "list") _ _ refl (
    if-IsServed (word == codes "delete") _ none
      (with_flags-IsServed (codes "name" ∷ codes "path" ∷ []) args (delete_request pts)
        (delete_request-IsServed pts))
      tt)

image_command-IsServed : (pts : Text) (args : List Text) → IsServed (image_command pts args)
unfolding image_command route ◌==◌
image_command-IsServed pts [] = tt
image_command-IsServed pts (word ∷ args) = if-IsServed (word == codes "list") _ _ refl (
    if-IsServed (word == codes "pull") _ _
      (with_flags-IsServed (codes "name" ∷ []) args (image_request (codes "IMAGE_PULL") pts)
        λ t. if-IsServed (is_empty (flag [] (codes "name") t)) _ _ tt refl)
      (if-IsServed (word == codes "delete") _ none
        (with_flags-IsServed (codes "name" ∷ []) args (image_request (codes "IMAGE_DELETE") pts)
          λ t. if-IsServed (is_empty (flag [] (codes "name") t)) _ _ tt refl)
        tt))

abbrev is_log_kind : Table Text → Bool
is_log_kind t =
    let kind = flag (codes "output") (codes "type") t in
    kind == codes "output" || kind == codes "daemon"

main-IsServed : (cwd pts : Text) (args : List Text) → IsServed (main cwd pts args)
unfolding main route ◌==◌
main-IsServed cwd pts [] = tt
main-IsServed cwd pts (word ∷ args) = if-IsServed (word == codes "up") _ _ refl (
    if-IsServed (word == codes "down") _ _
      (with_flags-IsServed (codes "hash" ∷ []) args (down_request cwd pts) λ t. refl)
      (if-IsServed (word == codes "ps") _ _ refl (
        if-IsServed (word == codes "logs") _ _
          (with_flags-IsServed (codes "hash" ∷ codes "type" ∷ []) args (logs_request cwd pts)
            λ t. if-IsServed (is_log_kind t) _ none refl tt)
          (if-IsServed (word == codes "volume") _ _ (volume_command-IsServed pts args)
            (if-IsServed (word == codes "image") _ none (image_command-IsServed pts args) tt)))))

served : (o : Option Request) (r : Request) → IsServed o → o ≡ some r → is_proper (route r) ≡ true
served none r h e = cc
served (some q) r h e = cc

-- Whatever the command line, a request that the client sends is one that the daemon knows, and a
-- request to delete a volume gives exactly one of its name and its path.
pub main-route :
    (cwd pts : Text) (args : List Text) (r : Request)
    → main cwd pts args ≡ some r
    → is_proper (route r) ≡ true
main-route cwd pts args r = served (main cwd pts args) r (main-IsServed cwd pts args)
