-- ===== src/Client/Examples.antt =====
-- The theorems on the client at concrete inputs, and tests.
use zylo.Prelude.{◌≡◌, refl, true, none, some, [], ◌∷◌}
use zylo.Text.{codes, ◌==◌}
use zylo.Table.{get, put}
use zylo.Client.{Request, down, main, route}
use zylo.Client.Flags.{parse_flags, parse_from, read_flag}
use zylo.Client.Protocol.{is_proper, main-route}

abbrev stop : Request
stop = record {
  op = codes "DOWN";
  tty = codes "/dev/pts/1";
  path = codes "/home/web";
  hash = codes "17-1";
  kind = [];
  name = [];
}

sent :
    main (codes "/home/web") (codes "/dev/pts/1") (codes "down" ∷ codes "--hash=17-1" ∷ [])
    ≡ some stop
unfolding main parse_flags parse_from read_flag get put ◌==◌
sent = refl

-- The value may stand behind the flag.
apart :
    main (codes "/home/web") (codes "/dev/pts/1") (codes "down" ∷ codes "-hash" ∷ codes "17-1" ∷ [])
    ≡ some stop
unfolding main parse_flags parse_from read_flag get put ◌==◌
apart = refl

-- A flag that is not known ends the client.
unheard : main [] [] (codes "down" ∷ codes "-name" ∷ codes "web" ∷ []) ≡ none
unfolding main parse_flags parse_from read_flag ◌==◌
unheard = refl

taken_down : route stop ≡ down (codes "17-1") (codes "/home/web")
unfolding route ◌==◌
taken_down = refl

main-route_example : is_proper (route stop) ≡ true
unfolding main parse_flags parse_from read_flag get put ◌==◌
main-route_example =
    main-route (codes "/home/web") (codes "/dev/pts/1") (codes "down" ∷ codes "--hash=17-1" ∷ [])
      stop refl
