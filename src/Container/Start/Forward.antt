-- ===== src/Container/Start/Forward.antt =====
-- SetupNetwork and CleanupNetwork of internal/container/network.go: the rules that forward ports.
use zylo.Prelude.{
  ℕ, suc, ◌≡◌, refl, sym, ◌∙◌, ap, Bool, true, false, Option, none, some, List, [], ◌∷◌, ◌++◌, any,
  arith, append-nil, append_assoc,
}
use zylo.Text.{Text, ◌==◌, split}
use zylo.Text.Equality.{==_refl}
use zylo.Container.{Rule}
use zylo.Container.Down.{Iptables, rule_of, take_rule, drop_rule, remove_port_forward, drop_rules}
use zylo.Container.Start.{forward_port, forward_ports}

-- No rule is for the address.
abbrev pub Unused : Text → List Rule → Type 0
Unused ip rs = any (λ r. r.container_ip == ip) rs ≡ false

remove-Unused : (q : Rule) (rs : List Rule) → Unused q.container_ip rs → take_rule q rs ≡ rs
remove-Unused q [] h = refl
remove-Unused q (r ∷ rs) h = ground (arith, remove-Unused q rs)

remove-append :
    (q : Rule) (rs more : List Rule)
    → Unused q.container_ip rs
    → take_rule q (rs ++ q ∷ more) ≡ rs ++ more
remove-append q [] more h =
    ground (arith, ==_refl q.host_port, ==_refl q.container_ip, ==_refl q.container_port)
remove-append q (r ∷ rs) more h = ground (arith, remove-append q rs more)

-- What a forwarding adds, and what is left once its rules are dropped.
abbrev Restores : Text → (List Rule → List Rule) → (List Rule → List Rule) → Type 0
Restores ip forward undo =
    (rs : List Rule)
    → (added : List Rule) × (forward rs ≡ rs ++ added)
      × ((base : List Rule) → Unused ip base → undo (base ++ added) ≡ base)

abbrev next : (List Rule → Bool × List Rule) → List Rule → Option (List Rule) → Bool × List Rule
next forward rs none = (false, rs)
next forward rs (some more) = forward more

module _ (k : Iptables) (there : k.there ≡ true) (all : (q : Rule) → k.deleted q ≡ true) where
  drop_rule_two :
      (ip a b : Text) (rs : List Rule)
      → drop_rule k ip (a ∷ b ∷ []) rs ≡ take_rule (rule_of true ip a b) rs
  unfolding remove_port_forward
  drop_rule_two ip a b rs = rw (there, all (rule_of true ip a b)) refl

  drop_rule-Unused :
      (ip : Text) (parts : List Text) (rs : List Rule) → Unused ip rs → drop_rule k ip parts rs ≡ rs
  drop_rule-Unused ip [] rs h = refl
  drop_rule-Unused ip (a ∷ []) rs h = refl
  drop_rule-Unused ip (a ∷ b ∷ []) rs h =
      drop_rule_two ip a b rs ∙ remove-Unused (rule_of true ip a b) rs h
  drop_rule-Unused ip (a ∷ b ∷ c ∷ more) rs h = refl

  drop_rules-Unused :
      (ip : Text) (ps : List Text) (rs : List Rule) → Unused ip rs → drop_rules k ip ps rs ≡ rs
  unfolding drop_rules
  drop_rules-Unused ip [] rs h = refl
  drop_rules-Unused ip (p ∷ ps) rs h =
      ap (drop_rules k ip ps) (drop_rule-Unused ip (split b':' p) rs h)
      ∙ drop_rules-Unused ip ps rs h

  port-Restores :
      (go : Bool) (ip : Text) (parts : List Text) (forward : List Rule → Bool × List Rule)
      (undo : List Rule → List Rule)
      → Restores ip (λ rs. (forward rs).1) undo
      → ((rs : List Rule) → Unused ip rs → undo rs ≡ rs)
      → Restores ip
          (λ rs. (next forward rs (forward_port go ip parts rs)).1)
          (λ rs. undo (drop_rule k ip parts rs))
  port-Restores go ip [] forward undo h u rs = h rs
  port-Restores go ip (a ∷ []) forward undo h u rs = h rs
  port-Restores go ip (a ∷ b ∷ c ∷ more) forward undo h u rs = h rs
  port-Restores false ip (a ∷ b ∷ []) forward undo h u rs = (
    [],
    sym (append-nil rs),
    λ base gone.
        ap (λ r. undo (drop_rule k ip (a ∷ b ∷ []) r)) (append-nil base)
        ∙ ap undo (drop_rule_two ip a b base ∙ remove-Unused (rule_of true ip a b) base gone)
        ∙ u base gone,
  )
  port-Restores true ip (a ∷ b ∷ []) forward undo h u rs =
      let q = rule_of true ip a b in
      let (added, e, back) = h (rs ++ q ∷ []) in
      (
        q ∷ added,
        e ∙ append_assoc rs (q ∷ []) added,
        λ base gone.
            ap undo (drop_rule_two ip a b (base ++ q ∷ added) ∙ remove-append q base added gone)
            ∙ back base gone,
      )

  forward-Restores :
      (go : ℕ → Bool) (ip : Text) (ps : List Text) (n : ℕ)
      → Restores ip (λ rs. (forward_ports go ip n ps rs).1) (drop_rules k ip ps)
  unfolding forward_ports drop_rules
  forward-Restores go ip [] n rs = ([], sym (append-nil rs), λ base h. append-nil base)
  forward-Restores go ip (p ∷ ps) n rs =
      port-Restores (go n) ip (split b':' p) (forward_ports go ip (suc n) ps) (drop_rules k ip ps)
        (forward-Restores go ip ps (suc n)) (drop_rules-Unused ip ps) rs

  -- Where no rule was for the address of a container and each `iptables -D` succeeds, dropping the rules of its ports takes away those
  -- that were added when its ports were forwarded, and no other, even where the forwarding had stopped
  -- at an error.
  pub drop_rules-forward_ports :
      (go : ℕ → Bool) (ip : Text) (ps : List Text) (rs : List Rule)
      → Unused ip rs
      → drop_rules k ip ps (forward_ports go ip 0 ps rs).1 ≡ rs
  drop_rules-forward_ports go ip ps rs h =
      let (added, e, back) = forward-Restores go ip ps 0 rs in ap (drop_rules k ip ps) e ∙ back rs h
