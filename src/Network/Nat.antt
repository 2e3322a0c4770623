-- ===== src/Network/Nat.antt =====
-- InitZyloNat and FlushZyloRules of network/iptables.go: the chain ZYLO of the table nat, and the two
-- rules that lead to it. iptables itself is an interface.
pub mod Init
pub mod Examples
use zylo.Prelude.{
  Bool, true, false, ◌&&◌, Option, none, some, List, [], ◌∷◌, ◌++◌, ◌≡◌, Result, ok, err, any,
  if◌then◌else◌,
}
use zylo.Prelude.Actions.{Act, Done, ◌>>=◌, ◌>>◌}
use zylo.Text.{Text, ◌==◌, codes, contains}

-- The table nat: its chains, `-N`, the append of a rule that is not there yet, `-C`, `-F`, and what
-- `-S` prints; nothing where a command fails.
pub record Iptables : Type 1 where
  pub Nat : Type 0
  pub list_chains : Nat → Option (List Text)
  pub new_chain : Text → Nat → Option Nat
  pub append_unique : Text → List Text → Nat → Option Nat
  pub check : Text → List Text → Nat → Bool
  pub flush : Text → Nat → Option Nat
  pub saved : Nat → Option Text

-- What is relied on: a chain that is made or listed is there and is printed, a rule that is
-- appended can be checked, and an append leaves chains and other rules alone.
pub record IsLawful (k : Iptables) : Type 1 where
  pub HasChain : Text → k.Nat → Type 0
  pub new_chain-HasChain : (c : Text) (s t : k.Nat) → k.new_chain c s ≡ some t → HasChain c t
  pub list_chains_sound :
      (c : Text) (s : k.Nat) (cs : List Text)
      → k.list_chains s ≡ some cs
      → any (λ d. d == c) cs ≡ true
      → HasChain c s
  pub list_chains_complete :
      (c : Text) (s : k.Nat) (cs : List Text)
      → k.list_chains s ≡ some cs
      → HasChain c s
      → any (λ d. d == c) cs ≡ true
  pub saved_chain :
      (c : Text) (s : k.Nat) (out : Text)
      → HasChain c s
      → k.saved s ≡ some out
      → contains out (codes "-N " ++ c) ≡ true
  pub append-check :
      (c : Text) (r : List Text) (s t : k.Nat)
      → k.append_unique c r s ≡ some t
      → k.check c r t ≡ true
  pub append_there :
      (c : Text) (r : List Text) (s : k.Nat) → k.check c r s ≡ true → k.append_unique c r s ≡ some s
  pub append_keeps_rule :
      (c d : Text) (r q : List Text) (s t : k.Nat)
      → k.append_unique c r s ≡ some t
      → k.check d q s ≡ true
      → k.check d q t ≡ true
  pub append_keeps_chain :
      (c d : Text) (r : List Text) (s t : k.Nat)
      → k.append_unique c r s ≡ some t
      → HasChain d s
      → HasChain d t

pub data NatError : Type 0 where
  no_iptables chain_failed prerouting_failed output_failed : NatError

abbrev pub zylo_chain : Text
zylo_chain = codes "ZYLO"

abbrev pub jump : List Text
jump = codes "-j" ∷ zylo_chain ∷ []

module _ (k : Iptables) where
  open k use {Nat, list_chains, new_chain, append_unique, check, flush, saved}

  abbrev pub outcome : NatError → Option Nat → Act Nat NatError Done
  outcome e none s = (err e, s)
  outcome e (some t) s = (ok tt, t)

  -- A command that fails leaves the table alone.
  abbrev pub command : NatError → (Nat → Option Nat) → Act Nat NatError Done
  command e run s = outcome e (run s) s

  abbrev pub chain_exists : Option (List Text) → Bool
  chain_exists none = false
  chain_exists (some cs) = any (λ c. c == zylo_chain) cs

  abbrev pub make_chain : Act Nat NatError Done
  make_chain s =
      if chain_exists (list_chains s)
      then (ok tt, s)
      else command chain_failed (new_chain zylo_chain) s

  -- `there` says whether iptables is found.
  unfoldable pub init_zylo_nat : Bool → Act Nat NatError Done
  init_zylo_nat there s =
      if there
      then (do
        make_chain
        command prerouting_failed (append_unique (codes "PREROUTING") jump)
        command output_failed (append_unique (codes "OUTPUT") jump))
          s
      else (err no_iptables, s)

  -- exec.Command("iptables", …).Run()
  unfoldable pub flush_zylo_rules : Act Nat Bool Done
  flush_zylo_rules s = elim (flush zylo_chain s) [ none ↦ (err false, s) | some t ↦ (ok tt, t) ]

  -- checkNAT of daemon/health.go
  abbrev pub chain_printed : Option Text → Bool
  chain_printed none = false
  chain_printed (some out) = contains out (codes "-N ZYLO")

  unfoldable pub check_nat : Nat → Bool
  check_nat s =
      if check zylo_chain [] s
      then check (codes "PREROUTING") jump s && check (codes "OUTPUT") jump s
      else if chain_printed (saved s)
      then check (codes "PREROUTING") jump s && check (codes "OUTPUT") jump s
      else false
