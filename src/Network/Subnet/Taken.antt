-- ===== src/Network/Subnet/Taken.antt =====
-- findFreeSubnet of network/manager.go: what stands for a subnet in use.
use zylo.Prelude.{
  ◌≡◌, refl, sym, ◌∙◌, ap, ◌⊎◌, inl, inr, Bool, true, Option, none, some, List, [], ◌∷◌, ◌++◌, keep,
  map, arith, Bool-cases,
}
use zylo.Text.{Text, codes, ◌==◌, contains, split}
use zylo.Text.Equality.{==_sound, ==_refl}
use zylo.Table.{Table}
use zylo.Disk.{File, holds, absent, unreadable, malformed}
use zylo.Network.{Net, NetState, readable_networks}
use zylo.Network.Subnet.{Outside, fields, route_words, words_of, used_subnets, is_used}

abbrev pub Member : Text → List Text → Type 0
Member x [] = ⊥
Member x (y ∷ ys) = (y ≡ x) ⊎ Member x ys

-- A file of a network that can be read and decoded has the subnet.
abbrev pub Saved : Text → Table (File Net) → Type 0
Saved x [] = ⊥
Saved x ((name, holds config) ∷ files) = (config.subnet ≡ x) ⊎ Saved x files
Saved x ((name, f) ∷ files) = Saved x files

-- A line has the text as one of its words, with a slash.
abbrev pub InLines : Text → List Text → Type 0
InLines x [] = ⊥
InLines x (line ∷ lines) =
    (Member x (fields line) × (contains x (codes "/") ≡ true)) ⊎ InLines x lines

abbrev pub Routed : Text → Option Text → Type 0
Routed x none = ⊥
Routed x (some output) = InLines x (split 10 output)

-- A saved network has the subnet, an interface has it as its address with the length of the prefix,
-- or the routes show it.
abbrev pub IsTaken : Outside → NetState → Text → Type 0
IsTaken o s x = Saved x s.networks ⊎ (Member x o.interfaces ⊎ Routed x o.routes)

used-Member : (x : Text) (ys : List Text) → is_used ys x ≡ true → Member x ys
used-Member x [] h = absurd (cc)
used-Member x (y ∷ ys) h = elim (Bool-cases (y == x)) [
  | inl e ↦ inl (==_sound y x e)
  | inr e ↦ inr (used-Member x ys (ground arith))
]

Member-used : (x : Text) (ys : List Text) → Member x ys → is_used ys x ≡ true
Member-used x [] m = elim m [ ]
Member-used x (y ∷ ys) (inl e) = rw (e, ==_refl x) refl
Member-used x (y ∷ ys) (inr m) = let u = Member-used x ys m in ground arith

Member-left : (x : Text) (ys zs : List Text) → Member x ys → Member x (ys ++ zs)
Member-left x [] zs m = elim m [ ]
Member-left x (y ∷ ys) zs (inl e) = inl e
Member-left x (y ∷ ys) zs (inr m) = inr (Member-left x ys zs m)

Member-right : (x : Text) (ys zs : List Text) → Member x zs → Member x (ys ++ zs)
Member-right x [] zs m = m
Member-right x (y ∷ ys) zs m = inr (Member-right x ys zs m)

Member-append : (x : Text) (ys zs : List Text) → Member x (ys ++ zs) → Member x ys ⊎ Member x zs
Member-append x [] zs m = inr m
Member-append x (y ∷ ys) zs (inl e) = inl (inl e)
Member-append x (y ∷ ys) zs (inr m) = elim (Member-append x ys zs m) [
  | inl n ↦ inl (inr n)
  | inr n ↦ inr n
]

abbrev slashed : Text → Bool
slashed w = contains w (codes "/")

Member-keep :
    (x : Text) (ys : List Text) → Member x (keep slashed ys) → Member x ys × (slashed x ≡ true)
Member-keep x [] m = elim m [ ]
Member-keep x (y ∷ ys) m = elim (Bool-cases (slashed y)) [
  | inl e ↦ kept (rw e at m) (λ n. Member-keep x ys n) e
  | inr e ↦ let (n, g) = Member-keep x ys (rw e at m) in (inr n, g)
]
  where
    kept :
        Member x (y ∷ keep slashed ys)
        → (Member x (keep slashed ys) → Member x ys × (slashed x ≡ true))
        → slashed y ≡ true
        → Member x (y ∷ ys) × (slashed x ≡ true)
    kept (inl e) rest g = (inl e, ap slashed (sym e) ∙ g)
    kept (inr n) rest g = (inr (rest n).0, (rest n).1)

keep-Member :
    (x : Text) (ys : List Text) → Member x ys → slashed x ≡ true → Member x (keep slashed ys)
keep-Member x [] m g = elim m [ ]
keep-Member x (y ∷ ys) (inl e) g = let h : slashed y ≡ true = ap slashed e ∙ g in rw h (inl e)
keep-Member x (y ∷ ys) (inr m) g = elim (Bool-cases (slashed y)) [
  | inl e ↦ rw e (inr (keep-Member x ys m g))
  | inr e ↦ rw e (keep-Member x ys m g)
]

words-InLines : (x : Text) (lines : List Text) → Member x (route_words lines) → InLines x lines
unfolding route_words
words-InLines x [] m = elim m [ ]
words-InLines x (line ∷ lines) m =
    elim (Member-append x (keep slashed (fields line)) (route_words lines) m) [
      | inl n ↦ inl (Member-keep x (fields line) n)
      | inr n ↦ inr (words-InLines x lines n)
    ]

InLines-words : (x : Text) (lines : List Text) → InLines x lines → Member x (route_words lines)
unfolding route_words
InLines-words x [] m = elim m [ ]
InLines-words x (line ∷ lines) (inl (m, g)) =
    Member-left x (keep slashed (fields line)) (route_words lines) (keep-Member x (fields line) m g)
InLines-words x (line ∷ lines) (inr n) =
    Member-right x (keep slashed (fields line)) (route_words lines) (InLines-words x lines n)

words-Routed : (x : Text) (o : Option Text) → Member x (words_of o) → Routed x o
words-Routed x none m = elim m [ ]
words-Routed x (some output) m = words-InLines x (split 10 output) m

Routed-words : (x : Text) (o : Option Text) → Routed x o → Member x (words_of o)
Routed-words x none m = elim m [ ]
Routed-words x (some output) m = InLines-words x (split 10 output) m

abbrev subnets : Table (File Net) → List Text
subnets files = map (λ (config : Net). config.subnet) (readable_networks files)

subnets-Saved : (x : Text) (files : Table (File Net)) → Member x (subnets files) → Saved x files
unfolding readable_networks
subnets-Saved x [] m = elim m [ ]
subnets-Saved x ((name, holds config) ∷ files) (inl e) = inl e
subnets-Saved x ((name, holds config) ∷ files) (inr m) = inr (subnets-Saved x files m)
subnets-Saved x ((name, absent) ∷ files) m = subnets-Saved x files m
subnets-Saved x ((name, unreadable) ∷ files) m = subnets-Saved x files m
subnets-Saved x ((name, malformed) ∷ files) m = subnets-Saved x files m

Saved-subnets : (x : Text) (files : Table (File Net)) → Saved x files → Member x (subnets files)
unfolding readable_networks
Saved-subnets x [] m = elim m [ ]
Saved-subnets x ((name, holds config) ∷ files) (inl e) = inl e
Saved-subnets x ((name, holds config) ∷ files) (inr m) = inr (Saved-subnets x files m)
Saved-subnets x ((name, absent) ∷ files) m = Saved-subnets x files m
Saved-subnets x ((name, unreadable) ∷ files) m = Saved-subnets x files m
Saved-subnets x ((name, malformed) ∷ files) m = Saved-subnets x files m

module _ (o : Outside) (s : NetState) (x : Text) where
  pub used-IsTaken : is_used (used_subnets o s) x ≡ true → IsTaken o s x
  unfolding used_subnets
  used-IsTaken h =
      elim (Member-append x (subnets s.networks) (o.interfaces ++ words_of o.routes)
        (used-Member x (used_subnets o s) h)) [
          | inl m ↦ inl (subnets-Saved x s.networks m)
          | inr m ↦ inr (elim (Member-append x o.interfaces (words_of o.routes) m) [
            | inl n ↦ inl n
            | inr n ↦ inr (words-Routed x o.routes n)
          ])
        ]

  pub IsTaken-used : IsTaken o s x → is_used (used_subnets o s) x ≡ true
  unfolding used_subnets
  IsTaken-used t = Member-used x (used_subnets o s) (found t)
    where
      found : IsTaken o s x → Member x (used_subnets o s)
      found (inl m) =
          Member-left x (subnets s.networks) (o.interfaces ++ words_of o.routes)
            (Saved-subnets x s.networks m)
      found (inr (inl m)) =
          Member-right x (subnets s.networks) (o.interfaces ++ words_of o.routes)
            (Member-left x o.interfaces (words_of o.routes) m)
      found (inr (inr m)) =
          Member-right x (subnets s.networks) (o.interfaces ++ words_of o.routes)
            (Member-right x o.interfaces (words_of o.routes) (Routed-words x o.routes m))
