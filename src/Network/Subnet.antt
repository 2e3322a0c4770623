-- ===== src/Network/Subnet.antt =====
-- network/manager.go: the choice of a subnet for a new network.
pub mod Taken
pub mod Lowest
pub mod Gateway
mod Examples
use zylo.Prelude.{
  ℕ, zero, suc, ◌+◌, Bool, true, false, not, Option, none, some, List, [], ◌∷◌, ◌++◌, Result, ok,
  err, any, keep, map, if◌then◌else◌, eqb, leb, ◌&&◌, ◌||◌,
}
use zylo.Text.{Text, ◌==◌, codes, is_empty, contains, split, decimal}
use zylo.Network.{Net, NetState, Network, Error, no_free_subnet, readable_networks}

abbrev is_blank : ℕ → Bool
is_blank c = eqb c 32 || (leb 9 c && leb c 13)

abbrev add_char : ℕ → List Text → List Text
add_char c [] = (c ∷ []) ∷ []
add_char c (w ∷ ws) = (c ∷ w) ∷ ws

-- The pieces between single white characters, some of them empty.
pieces : Text → List Text
pieces [] = [] ∷ []
pieces (c ∷ s) = let rest = pieces s in if is_blank c then [] ∷ rest else add_char c rest

-- strings.Fields
unfoldable pub fields : Text → List Text
unfolding pieces
fields s = keep (λ w. not (is_empty w)) (pieces s)

unfoldable pub route_words : List Text → List Text
unfolding fields
route_words [] = []
route_words (line ∷ lines) = keep (λ w. contains w (codes "/")) (fields line) ++ route_words lines

-- What net.Interfaces and `ip route` answer: the addresses of the interfaces that can be read, and
-- the output, or nothing where the command fails.
pub record Outside : Type 0 where
  pub interfaces : List Text
  pub routes : Option Text

abbrev pub words_of : Option Text → List Text
words_of none = []
words_of (some output) = route_words (split 10 output)

-- The keys of the map `used`.
unfoldable pub used_subnets : Outside → NetState → List Text
unfolding route_words readable_networks
used_subnets o s =
    map (λ config. config.subnet) (readable_networks s.networks)
    ++ (o.interfaces ++ words_of o.routes)

abbrev pub subnet_at : ℕ → Text
subnet_at i = codes "10.20." ++ (decimal i ++ codes ".0/24")

abbrev pub gateway_at : ℕ → Text
gateway_at i = codes "10.20." ++ (decimal i ++ codes ".1")

abbrev pub is_used : List Text → Text → Bool
is_used used subnet = any (λ u. u == subnet) used

-- The loop from MIN_SUBNET to MAX_SUBNET, with the rounds left.
unfoldable pub free_subnet : ℕ → ℕ → List Text → Result Error (Text × Text)
free_subnet zero i used = err no_free_subnet
free_subnet (suc n) i used =
    let rest = free_subnet n (i + 1) used in
    if not (is_used used (subnet_at i)) then ok (subnet_at i, gateway_at i) else rest

unfoldable pub find_free_subnet : Outside → Network (Text × Text)
find_free_subnet o s = (free_subnet 254 1 (used_subnets o s), s)
