-- ===== src/Network/Subnet/Lowest.antt =====
-- findFreeSubnet of network/manager.go: the subnet that it finds.
use zylo.Prelude.{
  ℕ, zero, suc, ◌+◌, ◌<◌, ◌≤◌, ◌≡◌, true, false, List, ok, err, arith, Bool-cases, inl, inr,
}
use native.Mathlib.Decide.{ℕ_discrete}
use zylo.Text.{Text}
use zylo.Network.{NetState, no_free_subnet}
use zylo.Network.Subnet.Taken.{IsTaken, used-IsTaken, IsTaken-used}
use zylo.Network.Subnet.{
  Outside, used_subnets, subnet_at, gateway_at, is_used, free_subnet, find_free_subnet,
}

-- The subnet and the gateway of the first number from `i` on whose subnet is not among those given.
record FirstFree (n i : ℕ) (used : List Text) (r : Text × Text) : Type 0 where
  part : ℕ
  low : i ≤ part
  high : part < i + n
  pair : r ≡ (subnet_at part, gateway_at part)
  is_free : is_used used (subnet_at part) ≡ false
  below : (j : ℕ) → i ≤ j → j < part → is_used used (subnet_at j) ≡ true

free_subnet-FirstFree :
    (n i : ℕ) (used : List Text) (r : Text × Text)
    → free_subnet n i used ≡ ok r
    → FirstFree n i used r
unfolding free_subnet
free_subnet-FirstFree zero i used r h = cc
free_subnet-FirstFree (suc n) i used r h = elim (Bool-cases (is_used used (subnet_at i))) [
  | inl taken ↦
      let rest = free_subnet-FirstFree n (i + 1) used r (ground arith) in
      record {
        part = rest.part;
        low = omega (arith, rest.low);
        high = omega (arith, rest.high);
        pair = rest.pair;
        is_free = rest.is_free;
        below = λ j low high. elim (ℕ_discrete i j) [
          | yes e ↦ rw (← e) taken
          | no e ↦ rest.below j (omega arith) high
        ];
      }
  | inr free ↦ record {
    part = i;
    low = omega arith;
    high = omega arith;
    pair = ground arith;
    is_free = free;
    below = λ j low high. absurd (omega arith);
  }
]

-- A failed search has tried every number.
free_subnet_all :
    (n i : ℕ) (used : List Text)
    → free_subnet n i used ≡ err no_free_subnet
    → (j : ℕ) → i ≤ j
    → j < i + n
    → is_used used (subnet_at j) ≡ true
unfolding free_subnet
free_subnet_all zero i used h j low high = absurd (omega arith)
free_subnet_all (suc n) i used h j low high = elim (Bool-cases (is_used used (subnet_at i))) [
  | inl taken ↦ elim (ℕ_discrete i j) [
    | yes e ↦ rw (← e) taken
    | no e ↦ free_subnet_all n (i + 1) used (ground arith) j (omega arith) (omega arith)
  ]
  | inr free ↦ absurd (ground arith)
]

-- The subnet and the gateway of the first number from 1 to 254 whose subnet is not taken.
pub record IsLowest (o : Outside) (s : NetState) (r : Text × Text) : Type 0 where
  pub part : ℕ
  pub low : 1 ≤ part
  pub high : part ≤ 254
  pub pair : r ≡ (subnet_at part, gateway_at part)
  pub is_free : IsTaken o s (subnet_at part) → ⊥
  pub below : (j : ℕ) → 1 ≤ j → j < part → IsTaken o s (subnet_at j)

-- The subnet that is found is the one of the lowest number from 1 to 254 that no saved network which
-- can be read has as its subnet, that is not the address of an interface, written with the length of
-- its prefix, and that is no word of the routes with a slash; the gateway has the same number. Each
-- subnet of a lower number is one of these.
pub find_free_subnet-IsLowest :
    (o : Outside) (s : NetState) (r : Text × Text)
    → (find_free_subnet o s).0 ≡ ok r
    → IsLowest o s r
unfolding find_free_subnet
find_free_subnet-IsLowest o s r h =
    let first = free_subnet-FirstFree 254 1 (used_subnets o s) r h in
    record {
      part = first.part;
      low = first.low;
      high = omega (arith, first.high);
      pair = first.pair;
      is_free = λ t.
          let used = IsTaken-used o s (subnet_at first.part) t in
          let free = first.is_free in absurd (cc);
      below = λ j low high. used-IsTaken o s (subnet_at j) (first.below j low high);
    }

-- No subnet is found only where all 254 are used.
pub find_free_subnet-all_used :
    (o : Outside) (s : NetState)
    → (find_free_subnet o s).0 ≡ err no_free_subnet
    → (j : ℕ) → 1 ≤ j
    → j < 255
    → is_used (used_subnets o s) (subnet_at j) ≡ true
unfolding find_free_subnet
find_free_subnet-all_used o s h j low high =
    free_subnet_all 254 1 (used_subnets o s) h j low (omega arith)
