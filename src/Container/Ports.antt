-- ===== src/Container/Ports.antt =====
-- internal/container/ports.go: the ports of the host that a new container asks for.
pub mod Free
use zylo.Prelude.{
  Bool, true, false, not, ◌||◌, Option, none, some, List, [], ◌∷◌, ◌++◌, Result, ok, err, any,
  if◌then◌else◌,
}
use zylo.Prelude.Results.{◌>>=◌, ◌>>◌, fail_if}
use zylo.Prelude.Actions.{Done}
use zylo.Text.{Text, split}
use zylo.Integer.{ℤ, int_eq, Parsed, atoi}
use zylo.Container.{Container, Runtime, Error, bad_port, port_in_use, port_taken, list_containers}

-- The first of exactly two parts.
abbrev pub host_part : List Text → Option Text
host_part (host ∷ port ∷ []) = some host
host_part _ = none

-- The port of the host in `host:port`, with what Atoi says of it.
unfoldable pub host_port : Text → Option Parsed
unfolding atoi split
host_port p = elim (host_part (split b':' p)) [ none ↦ none | some host ↦ some (atoi host) ]

abbrev pub add_port : Option Parsed → List ℤ → List ℤ
add_port none rest = rest
add_port (some n) rest = n.value ∷ rest

-- The ports that a container holds: an entry of another form is passed over, and one that is no
-- number counts as what Atoi returns for it.
unfoldable pub ports_of : List Text → List ℤ
ports_of [] = []
ports_of (p ∷ ps) = add_port (host_port p) (ports_of ps)

-- The keys of the map `usedPorts`.
unfoldable pub used_ports : List Container → List ℤ
unfolding ports_of
used_ports [] = []
used_ports (c ∷ cs) = ports_of c.ports ++ used_ports cs

abbrev pub is_used : List ℤ → ℤ → Bool
is_used used n = any (λ m. int_eq m n) used

-- `listening n` is what a connection to the port says: something answers there.
module _ (listening : ℤ → Bool) (used : List ℤ) where
  abbrev pub check_number : Option Parsed → Result Error Done
  check_number none = err bad_port
  check_number (some n) = do
    fail_if (not n.is_ok) bad_port
    fail_if (listening n.value) port_in_use
    fail_if (is_used used n.value) port_taken

  unfoldable pub check_ports : List Text → Result Error Done
  check_ports [] = ok tt
  check_ports (p ∷ ps) = check_number (host_port p) >> check_ports ps

unfoldable pub are_ports_free : (ℤ → Bool) → List Text → Runtime → Result Error Done
unfolding used_ports
are_ports_free listening ports s = check_ports listening (used_ports (list_containers s)) ports
