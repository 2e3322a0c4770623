-- ===== src/Network/Nat/Init.antt =====
-- InitZyloNat of network/iptables.go, made twice, and seen by checkNAT of daemon/health.go.
use zylo.Prelude.{
  ◌≡◌, refl, true, Option, none, some, List, [], ok, Bool-cases, inl, inr, subst, sym, ◌∙◌,
}
use zylo.Prelude.Actions.{bind_ok}
use zylo.Text.{Text, codes}
use zylo.Network.Nat.{
  Iptables, IsLawful, zylo_chain, jump, outcome, command, make_chain, chain_exists, chain_printed,
  init_zylo_nat, check_nat, chain_failed, prerouting_failed, output_failed, NatError,
}

module _ (k : Iptables) (lawful : IsLawful k) where
  open k use {Nat, list_chains, new_chain, append_unique, check, saved}
  open lawful use {HasChain}

  -- The table after InitZyloNat.
  pub record IsReady (s : Nat) : Type 0 where
    pub chain : HasChain zylo_chain s
    pub prerouting : check (codes "PREROUTING") jump s ≡ true
    pub output : check (codes "OUTPUT") jump s ≡ true

  outcome_ok :
      (e : NatError) (o : Option Nat) (s : Nat)
      → (outcome k e o s).0 ≡ ok tt
      → o ≡ some (outcome k e o s).1
  outcome_ok e none s h = absurd (cc)
  outcome_ok e (some t) s h = refl

  command_ok :
      (e : NatError) (run : Nat → Option Nat) (s : Nat)
      → (command k e run s).0 ≡ ok tt
      → run s ≡ some (command k e run s).1
  command_ok e run s h = outcome_ok e (run s) s h

  make_chain-HasChain :
      (s : Nat) → (make_chain k s).0 ≡ ok tt → HasChain zylo_chain (make_chain k s).1
  make_chain-HasChain s h = elim (Bool-cases (chain_exists k (list_chains s))) [
    | inl e ↦ rw e (listed (list_chains s) refl e)
    | inr e ↦ rw e (
        lawful.new_chain-HasChain zylo_chain s _
          (command_ok chain_failed (new_chain zylo_chain) s (rw e at h)))
  ]
    where
      listed :
          (o : Option (List Text))
          → list_chains s ≡ o
          → chain_exists k o ≡ true
          → HasChain zylo_chain s
      listed none l e = absurd (cc)
      listed (some cs) l e = lawful.list_chains_sound zylo_chain s cs l e

  init-IsReady : (s : Nat) → (init_zylo_nat k true s).0 ≡ ok tt → IsReady (init_zylo_nat k true s).1
  unfolding init_zylo_nat
  init-IsReady s h =
      let (u, made, rest, last) = bind_ok (make_chain k) _ s tt h in
      let s1 = (make_chain k s).1 in
      let (v, first, end, over) =
        bind_ok (command k prerouting_failed (append_unique (codes "PREROUTING") jump)) _ s1 tt
          rest in
      let s2 = (command k prerouting_failed (append_unique (codes "PREROUTING") jump) s1).1 in
      let s3 = (command k output_failed (append_unique (codes "OUTPUT") jump) s2).1 in
      let a1 = command_ok prerouting_failed (append_unique (codes "PREROUTING") jump) s1 first in
      let a2 = command_ok output_failed (append_unique (codes "OUTPUT") jump) s2 end in
      let c1 = lawful.append_keeps_chain _ zylo_chain _ s1 s2 a1 (make_chain-HasChain s made) in
      let ready : IsReady s3 = record {
        chain = lawful.append_keeps_chain _ zylo_chain _ s2 s3 a2 c1;
        prerouting = lawful.append_keeps_rule _ _ _ _ s2 s3 a2 (lawful.append-check _ _ s1 s2 a1);
        output = lawful.append-check _ _ s2 s3 a2;
      } in
      subst IsReady (sym (last ∙ over)) ready

  -- Where a table is ready, a second call finds everything there.
  init_there :
      (s : Nat) (cs : List Text)
      → list_chains s ≡ some cs
      → IsReady s
      → init_zylo_nat k true s ≡ (ok tt, s)
  unfolding init_zylo_nat
  init_there s cs l r =
      rw
        (
          l,
          lawful.list_chains_complete zylo_chain s cs l r.chain,
          command,
          lawful.append_there _ _ s r.prerouting,
          lawful.append_there _ _ s r.output,
        )
        refl

  -- Where iptables answers as documented, a second InitZyloNat after one that succeeded succeeds too and changes nothing, if the
  -- chains can be listed then.
  pub init_zylo_nat-twice :
      (s : Nat) (cs : List Text)
      → (init_zylo_nat k true s).0 ≡ ok tt
      → list_chains (init_zylo_nat k true s).1 ≡ some cs
      → init_zylo_nat k true (init_zylo_nat k true s).1 ≡ (ok tt, (init_zylo_nat k true s).1)
  init_zylo_nat-twice s cs h l = init_there (init_zylo_nat k true s).1 cs l (init-IsReady s h)

  printed :
      (s : Nat) (out : Text) → IsReady s → saved s ≡ some out → chain_printed k (saved s) ≡ true
  printed s out r e = rw e (lawful.saved_chain zylo_chain s out r.chain e)

  ready-check_nat : (s : Nat) (out : Text) → IsReady s → saved s ≡ some out → check_nat k s ≡ true
  unfolding check_nat
  ready-check_nat s out r e = elim (Bool-cases (check zylo_chain [] s)) [
    | inl c ↦ rw (c, r.prerouting, r.output) refl
    | inr c ↦ rw (c, printed s out r e, r.prerouting, r.output) refl
  ]

  -- Where iptables answers as documented and can print the table, the check of the rules for address
  -- translation finds them after an InitZyloNat that succeeded.
  pub check_nat-init_zylo_nat :
      (s : Nat) (out : Text)
      → (init_zylo_nat k true s).0 ≡ ok tt
      → saved (init_zylo_nat k true s).1 ≡ some out
      → check_nat k (init_zylo_nat k true s).1 ≡ true
  check_nat-init_zylo_nat s out h e =
      ready-check_nat (init_zylo_nat k true s).1 out (init-IsReady s h) e
