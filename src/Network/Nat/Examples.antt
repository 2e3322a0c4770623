-- ===== src/Network/Nat/Examples.antt =====
-- A table of chains and rules that answers as iptables does, with the theorems on it.
use zylo.Prelude.{
  ◌≡◌, refl, Bool, true, false, ◌&&◌, ◌||◌, Option, none, some, List, [], ◌∷◌, ◌++◌, ok, any,
  Bool-cases, inl, inr, arith, if◌then◌else◌, sym, subst,
}
use zylo.Text.{Text, ◌==◌, codes, contains, has_prefix}
use zylo.Text.Equality.{==_refl, ==_sound}
use zylo.Text.Search.{contains-left}
use zylo.Network.Nat.{Iptables, IsLawful, zylo_chain, init_zylo_nat, check_nat}
use zylo.Network.Nat.Init.{init_zylo_nat-twice, check_nat-init_zylo_nat}

pub record Chains : Type 0 where
  pub names : List Text
  pub rules : List (Text × List Text)

unfoldable pub same_words : List Text → List Text → Bool
same_words [] [] = true
same_words (v ∷ vs) (w ∷ ws) = v == w && same_words vs ws
same_words _ _ = false

same_words_refl : (ws : List Text) → same_words ws ws ≡ true
unfolding same_words
same_words_refl [] = refl
same_words_refl (w ∷ ws) = rw (==_refl w, same_words_refl ws) refl

unfoldable pub has_rule : Text → List Text → List (Text × List Text) → Bool
unfolding same_words
has_rule c r [] = false
has_rule c r ((d, q) ∷ rs) = d == c && same_words q r || has_rule c r rs

abbrev pub printed : List Text → Text
printed [] = []
printed (c ∷ cs) = (codes "-N " ++ c) ++ (10 ∷ printed cs)

abbrev pub add_rule : Text → List Text → Chains → Chains
add_rule c r s = if has_rule c r s.rules then s else record s { rules = (c, r) ∷ s.rules }

abbrev names_of : Option Chains → List Text
names_of none = []
names_of (some s) = s.names

abbrev rules_of : Option Chains → List (Text × List Text)
rules_of none = []
rules_of (some s) = s.rules

abbrev some_or : Option (List Text) → List Text
some_or none = []
some_or (some cs) = cs

abbrev text_or : Option Text → Text
text_or none = []
text_or (some s) = s

abbrev pub table : Iptables
table = record {
  Nat = Chains;
  list_chains = λ s. some s.names;
  new_chain = λ c s. some (record s { names = c ∷ s.names });
  append_unique = λ c r s. some (add_rule c r s);
  check = λ c r s. has_rule c r s.rules;
  flush = λ c s. some s;
  saved = λ s. some (printed s.names);
}

contains-append : (s t sub : Text) → contains t sub ≡ true → contains (s ++ t) sub ≡ true
unfolding contains
contains-append [] t sub h = h
contains-append (c ∷ s) t sub h = ground (arith, contains-append s t sub h)

printed-contains :
    (c : Text) (cs : List Text)
    → any (λ d. d == c) cs ≡ true
    → contains (printed cs) (codes "-N " ++ c) ≡ true
printed-contains c [] h = absurd (cc)
printed-contains c (d ∷ cs) h = elim (Bool-cases (d == c)) [
  | inl e ↦
      subst (λ x. contains ((codes "-N " ++ x) ++ (10 ∷ printed cs)) (codes "-N " ++ c) ≡ true)
        (sym (==_sound d c e)) (contains-left (codes "-N " ++ c) (10 ∷ printed cs))
  | inr e ↦ contains-append (codes "-N " ++ d) (10 ∷ printed cs) (codes "-N " ++ c) (
      contains-append (10 ∷ []) (printed cs) (codes "-N " ++ c) (printed-contains c cs (rw e at h)))
]

add_rule-check :
    (c : Text) (r : List Text) (s : Chains) → has_rule c r (add_rule c r s).rules ≡ true
unfolding has_rule
add_rule-check c r s = elim (Bool-cases (has_rule c r s.rules)) [
  | inl e ↦ rw e e
  | inr e ↦ rw (e, ==_refl c, same_words_refl r) refl
]

add_rule_keeps :
    (c d : Text) (r q : List Text) (s : Chains)
    → has_rule d q s.rules ≡ true
    → has_rule d q (add_rule c r s).rules ≡ true
unfolding has_rule
add_rule_keeps c d r q s h = elim (Bool-cases (has_rule c r s.rules)) [
  | inl e ↦ rw e h
  | inr e ↦ rw (e, h) (ground arith)
]

add_rule-names : (c : Text) (r : List Text) (s : Chains) → (add_rule c r s).names ≡ s.names
add_rule-names c r s = ground arith

pub table-IsLawful : IsLawful table
table-IsLawful = record {
  HasChain = λ c s. any (λ d. d == c) s.names ≡ true;
  new_chain-HasChain = λ c s t h. subst (λ o. any (λ d. d == c) (names_of o) ≡ true) h (made c s);
  list_chains_sound = λ c s cs l h. subst (λ o. any (λ d. d == c) (some_or o) ≡ true) (sym l) h;
  list_chains_complete = λ c s cs l h. subst (λ o. any (λ d. d == c) (some_or o) ≡ true) l h;
  saved_chain = λ c s out h e.
      subst (λ o. contains (text_or o) (codes "-N " ++ c) ≡ true) e (printed-contains c s.names h);
  append-check =
      λ c r s t h. subst (λ o. has_rule c r (rules_of o) ≡ true) h (add_rule-check c r s);
  append_there = λ c r s h. rw h refl;
  append_keeps_rule = λ c d r q s t h k.
      subst (λ o. has_rule d q (rules_of o) ≡ true) h (add_rule_keeps c d r q s k);
  append_keeps_chain = λ c d r s t h k.
      subst (λ o. any (λ e. e == d) (names_of o) ≡ true) h
        (subst (λ ns. any (λ e. e == d) ns ≡ true) (sym (add_rule-names c r s)) k);
}
  where
    made : (c : Text) (s : Chains) → any (λ d. d == c) (c ∷ s.names) ≡ true
    made c s = rw (==_refl c) refl

abbrev pub bare : Chains
bare = record { names = []; rules = [] }

abbrev done : Chains
done = (init_zylo_nat table true bare).1

init_zylo_nat-twice_example : init_zylo_nat table true done ≡ (ok tt, done)
unfolding init_zylo_nat has_rule same_words ◌==◌
init_zylo_nat-twice_example =
    init_zylo_nat-twice table table-IsLawful bare (zylo_chain ∷ []) refl refl

table_checked : check_nat table done ≡ true
unfolding init_zylo_nat has_rule same_words ◌==◌
table_checked =
    check_nat-init_zylo_nat table table-IsLawful bare (printed (zylo_chain ∷ [])) refl refl

-- Without the chain the check fails.
bare_unready : check_nat table bare ≡ false
unfolding check_nat has_rule contains has_prefix ◌==◌
bare_unready = refl
