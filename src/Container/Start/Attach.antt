-- ===== src/Container/Start/Attach.antt =====
-- AttachNetwork of internal/container/network.go.
use zylo.Prelude.{
  ℕ, Bool, false, not, ◌&&◌, Option, none, some, List, [], ◌∷◌, ◌++◌, ok, err, leb, any, eqb,
  if◌then◌else◌,
}
use zylo.Prelude.Actions.{Done, fail_if, ◌>>=◌, ◌>>◌}
use zylo.Text.{Text, codes, is_empty, split, cut, decimal}
use zylo.Text.Decimal.{value}
use zylo.Network.{Net, get_network}
use zylo.Container.{Container}
use zylo.Container.Start.{
  Starting, StartFate, is_dead, no_manager, network_failed, no_address, bad_subnet, not_moved,
  no_addr, eth_down, lo_down, no_route, not_shown, network_of, peer_name,
}

abbrev pub is_digit : ℕ → Bool
is_digit c = leb 48 c && leb c 57

abbrev all_digits : Text → Bool
all_digits s = not (is_empty s) && not (any (λ c. not (is_digit c)) s)

-- A part of an address: no leading zero, and at most 255.
abbrev starts_with_zero : Text → Bool
starts_with_zero [] = false
starts_with_zero (c ∷ []) = false
starts_with_zero (c ∷ d ∷ s) = eqb c b'0'

abbrev is_octet : Text → Bool
is_octet s = all_digits s && (leb (value 0 s) 255 && not (starts_with_zero s))

abbrev is_address : List Text → Bool
is_address (a ∷ b ∷ c ∷ d ∷ []) = is_octet a && (is_octet b && (is_octet c && is_octet d))
is_address _ = false

abbrev mask_of : Option (Text × Text) → Option ℕ
mask_of none = none
mask_of (some (ip, mask)) =
    if is_address (split b'.' ip) && (all_digits mask && leb (value 0 mask) 32)
    then some (value 0 mask)
    else none

-- net.ParseCIDR, at addresses of four parts: the size of the mask.
unfoldable pub parse_cidr : Text → Option ℕ
unfolding value
parse_cidr s = mask_of (cut b'/' s)

-- `nsenter -t <pid> -n` before a command
abbrev pub nsenter : Container → List Text → List Text
nsenter c cmd = codes "nsenter" ∷ codes "-t" ∷ decimal c.pid ∷ codes "-n" ∷ cmd

abbrev pub move_link : Container → List Text
move_link c =
    codes "ip" ∷ codes "link" ∷ codes "set" ∷ peer_name c ∷ codes "netns" ∷ decimal c.pid ∷ []

abbrev pub add_address : Container → ℕ → List Text
add_address c mask = nsenter c (
    codes "ip"
    ∷ codes "addr"
    ∷ codes "add"
    ∷ (c.ip ++ b'/' ∷ decimal mask)
    ∷ codes "dev"
    ∷ peer_name c
    ∷ [])

abbrev pub link_up : Container → Text → List Text
link_up c name = nsenter c (codes "ip" ∷ codes "link" ∷ codes "set" ∷ name ∷ codes "up" ∷ [])

abbrev pub add_route : Container → Text → List Text
add_route c gateway =
    nsenter c
      (codes "ip" ∷ codes "route" ∷ codes "add" ∷ codes "default" ∷ codes "via" ∷ gateway ∷ [])

abbrev pub show_link : Container → List Text
show_link c = nsenter c (codes "ip" ∷ codes "link" ∷ codes "show" ∷ peer_name c ∷ [])

abbrev pub configure : StartFate → Container → Text → Option ℕ → Starting Done
configure w c gateway none s = (err bad_subnet, s)
configure w c gateway (some mask) s =
    (do
      fail_if (not (w.command (add_address c mask))) no_addr
      fail_if (not (w.command (link_up c (peer_name c)))) eth_down
      fail_if (not (w.command (link_up c (codes "lo")))) lo_down
      fail_if (not (w.command (add_route c gateway))) no_route
      fail_if (not (w.command (show_link c))) not_shown)
      s

abbrev pub find_network : Text → Starting Net
find_network name s =
    let (r, net) = get_network name s.runtime.net in
    (
      elim r [ ok config ↦ ok config | err e ↦ err (network_failed e) ],
      record s { runtime = record s.runtime { net = net } },
    )

-- `c` is the container as it is by then.
unfoldable pub attach_network : StartFate → Container → Starting Done
unfolding get_network parse_cidr
attach_network w c = do
  fail_if (not (w.alive_again c.pid)) is_dead
  fail_if (not w.manager) no_manager
  config ← find_network (network_of c)
  fail_if (is_empty c.ip) no_address
  fail_if (not (w.command (move_link c))) not_moved
  configure w c config.gateway (parse_cidr config.subnet)
