-- ===== src/Network/Ipam/Free.antt =====
-- The search for a free address: what it finds, and when it finds one.
use zylo.Prelude.{
  ℕ, zero, suc, ◌+◌, ◌<◌, ◌≤◌, ◌≡◌, refl, sym, ◌∙◌, ◌≢◌, true, false, [], ◌∷◌, ◌++◌, ok, arith,
  length, if◌then◌else◌, Bool-cases, inl, inr,
}
use native.Mathlib.Decide.{ℕ_discrete}
use zylo.Text.{Text, decimal}
use zylo.Text.Equality.{==_iff}
use zylo.Text.Decimal.{decimal_injective}
use zylo.Table.{Table, some_value}
use zylo.Network.{ContainerNetInfo}
use zylo.Network.Ipam.{address, has_ip, free_ip}

-- What the search gives: the address of the first number from `i` on that no container has.
pub record IsLowest (n i : ℕ) (base : Text) (ctrs : Table ContainerNetInfo) (ip : Text)
    : Type 0 where
  pub part : ℕ
  pub low : i ≤ part
  pub high : part < i + n
  pub is_address : ip ≡ address base part
  pub is_free : some_value (has_ip ip) ctrs ≡ false
  pub below : (j : ℕ) → i ≤ j → j < part → some_value (has_ip (address base j)) ctrs ≡ true

pub free_ip-IsLowest :
    (n i : ℕ) (base : Text) (ctrs : Table ContainerNetInfo) (ip : Text)
    → free_ip n i base ctrs ≡ ok ip
    → IsLowest n i base ctrs ip
unfolding free_ip
free_ip-IsLowest zero i base ctrs ip h = cc
free_ip-IsLowest (suc n) i base ctrs ip h =
    elim (Bool-cases (some_value (has_ip (address base i)) ctrs)) [
      | inl taken ↦
          let rest = free_ip-IsLowest n (i + 1) base ctrs ip (ground arith) in
          record {
            part = rest.part;
            low = omega (arith, rest.low);
            high = omega (arith, rest.high);
            is_address = rest.is_address;
            is_free = rest.is_free;
            below = λ j low high. elim (ℕ_discrete i j) [
              | yes e ↦ rw (← e) taken
              | no e ↦ rest.below j (omega arith) high
            ];
          }
      | inr free ↦
          let e : ip ≡ address base i = ground arith in
          record {
            part = i;
            low = omega arith;
            high = omega arith;
            is_address = e;
            is_free = rw e free;
            below = λ j low high. absurd (omega arith);
          }
    ]

cancel_left : (s t u : Text) → s ++ t ≡ s ++ u → t ≡ u
cancel_left [] t u e = e
cancel_left (c ∷ s) t u e = cancel_left s t u (cc)

pub address_injective : (base : Text) (i j : ℕ) → address base i ≡ address base j → i ≡ j
address_injective base i j e =
    let tails = cancel_left base (b'.' ∷ decimal i) (b'.' ∷ decimal j) e in
    decimal_injective i j (cc)

-- The entries whose address is another one.
others : Text → Table ContainerNetInfo → Table ContainerNetInfo
others ip [] = []
others ip ((k, c) ∷ t) = let rest = others ip t in if has_ip ip c then rest else (k, c) ∷ rest

length-others-le : (ip : Text) (t : Table ContainerNetInfo) → length (others ip t) ≤ length t
unfolding others
length-others-le ip [] = omega arith
length-others-le ip ((k, c) ∷ t) = ground (arith, length-others-le ip t)

length-others :
    (ip : Text) (t : Table ContainerNetInfo)
    → some_value (has_ip ip) t ≡ true
    → length (others ip t) < length t
unfolding others some_value
length-others ip [] h = cc
length-others ip ((k, c) ∷ t) h = ground (arith, length-others ip t, length-others-le ip t)

some_value-others :
    (ip jp : Text) (t : Table ContainerNetInfo)
    → ip ≢ jp
    → some_value (has_ip jp) (others ip t) ≡ some_value (has_ip jp) t
unfolding others some_value
some_value-others ip jp [] h = refl
some_value-others ip jp ((k, c) ∷ t) h =
    ground (arith, some_value-others ip jp t h, ==_iff c.ip ip, ==_iff c.ip jp)

-- The search looks only at the addresses from `i` on.
free_ip_cong :
    (n i : ℕ) (base : Text) (t u : Table ContainerNetInfo)
    → ((j : ℕ)
        → i ≤ j
        → some_value (has_ip (address base j)) t ≡ some_value (has_ip (address base j)) u)
    → free_ip n i base t ≡ free_ip n i base u
unfolding free_ip
free_ip_cong zero i base t u same = refl
free_ip_cong (suc n) i base t u same =
    ground
      (arith, same i (omega arith), free_ip_cong n (i + 1) base t u (λ j low. same j (omega arith)))

-- With fewer containers than addresses to try, the search finds an address.
pub free_ip_total :
    (n i : ℕ) (base : Text) (ctrs : Table ContainerNetInfo)
    → length ctrs < n
    → (ip : Text) × (free_ip n i base ctrs ≡ ok ip)
unfolding free_ip
free_ip_total zero i base ctrs h = absurd (omega arith)
free_ip_total (suc n) i base ctrs h =
    let here = address base i in
    elim (Bool-cases (some_value (has_ip here) ctrs)) [
      | inl taken ↦
          let fewer = length-others here ctrs taken in
          let (ip, e) = free_ip_total n (i + 1) base (others here ctrs) (omega (arith, fewer)) in
          let same = free_ip_cong n (i + 1) base (others here ctrs) ctrs (λ j low.
            some_value-others here (address base j) ctrs
              (λ p. omega (arith, address_injective base i j p))) in
          (ip, rw taken (sym same ∙ e))
      | inr free ↦ (here, rw free)
    ]
