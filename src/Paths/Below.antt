-- ===== src/Paths/Below.antt =====
-- path/filepath: which parts a joined path has.
use zylo.Prelude.{
  ◌≡◌, ◌≢◌, refl, sym, ◌∙◌, ap, subst, arith, Bool, true, false, not, List, [], ◌∷◌, ◌++◌,
  append_assoc, All, Bool-cases, inl, inr, any, ℕ, ◌&&◌,
}
use zylo.Text.{Text, codes, is_empty, ◌==◌, contains, split, join, push}
use zylo.Text.Lines.{Free, join-split, split-ne-nil, split-join, split-All-Free}
use zylo.Paths.{slash, drop_last, reversed, enter, enter_all, clean, join_path}
use zylo.Paths.Dots.{dots, join-parts}

push-append : (c : ℕ) (xs ys : List Text) → xs ≢ [] → push c (xs ++ ys) ≡ push c xs ++ ys
push-append c [] ys h = absurd (h refl)
push-append c (x ∷ xs) ys h = refl

split-append_all : (sep : ℕ) (s t : Text) → split sep (s ++ sep ∷ t) ≡ split sep s ++ split sep t
unfolding split
split-append_all sep [] t = ground arith
split-append_all sep (c ∷ s) t = ground (
  arith,
  split-append_all sep s t,
  push-append c (split sep s) (split sep t) (split-ne-nil sep s),
)

pub enter_all-append :
    (ps xs ys : List Text) → enter_all ps (xs ++ ys) ≡ enter_all (enter_all ps xs) ys
unfolding enter_all
enter_all-append ps [] ys = refl
enter_all-append ps (x ∷ xs) ys = enter_all-append (enter ps x) xs ys

enter-more :
    (ps : List Text) (q : Text)
    → (q == dots) ≡ false
    → (more : List Text) × (enter ps q ≡ more ++ ps)
unfolding enter
enter-more ps q h = elim (Bool-cases (is_empty q)) [
  | inl e ↦ ([], rw e refl)
  | inr e ↦ elim (Bool-cases (q == codes ".")) [
    | inl g ↦ ([], rw (e, g) refl)
    | inr g ↦ (q ∷ [], rw (e, g, h) refl)
  ]
]

enter_all-more :
    (ps qs : List Text)
    → All (λ p. (p == dots) ≡ false) qs
    → (more : List Text) × (enter_all ps qs ≡ more ++ ps)
unfolding enter_all
enter_all-more ps [] h = ([], refl)
enter_all-more ps (q ∷ qs) h =
    let (first, e) = enter-more ps q h.0 in
    let (rest, g) = enter_all-more (enter ps q) qs h.1 in
    (rest ++ first, g ∙ ap (λ x. rest ++ x) e ∙ sym (append_assoc rest first ps))

-- The parts of a path, the last one first, and the path with those parts.
abbrev pub parts : Text → List Text
parts path = enter_all [] (split b'/' path)

abbrev pub path_of : List Text → Text
path_of ps = slash ++ join b'/' (reversed [] ps)

-- The path has the parts of the directory and then some of its own.
abbrev pub IsBelow : Text → Text → Type 0
IsBelow dest path = (more : List Text) × (path ≡ path_of (more ++ parts dest))

pub join_path-IsBelow :
    (dest name : Text) → contains name dots ≡ false → IsBelow dest (join_path dest name)
unfolding join_path clean
join_path-IsBelow dest name h =
    let whole : contains (join b'/' (split b'/' name)) dots ≡ false = rw (join-split b'/' name) h in
    let (more, e) =
      enter_all-more (parts dest) (split b'/' name) (join-parts (split b'/' name) whole) in
    (
      more,
      ap path_of (
          ap (enter_all []) (split-append_all b'/' dest name)
          ∙ enter_all-append [] (split b'/' dest) (split b'/' name)
          ∙ e),
    )

-- A part as it stands in a clean path.
abbrev pub IsProper : Text → Type 0
IsProper p = Free b'/' p × (is_empty p ≡ false) × ((p == codes ".") ≡ false) × ((p == dots) ≡ false)

enter-IsProper :
    (ps : List Text) (q : Text) → Free b'/' q → All IsProper ps → All IsProper (enter ps q)
unfolding enter
enter-IsProper ps q f h = elim (Bool-cases (is_empty q)) [
  | inl e ↦ rw e h
  | inr e ↦ elim (Bool-cases (q == codes ".")) [
    | inl g ↦ rw (e, g) h
    | inr g ↦ elim (Bool-cases (q == codes "..")) [
      | inl k ↦ rw (e, g, k) (drop_last-IsProper ps h)
      | inr k ↦ rw (e, g, k) ((f, e, g, k), h)
    ]
  ]
]
  where
    drop_last-IsProper : (ls : List Text) → All IsProper ls → All IsProper (drop_last ls)
    drop_last-IsProper [] a = tt
    drop_last-IsProper (l ∷ ls) a = a.1

enter_all-IsProper :
    (ps qs : List Text) → All (Free b'/') qs → All IsProper ps → All IsProper (enter_all ps qs)
unfolding enter_all
enter_all-IsProper ps [] f h = h
enter_all-IsProper ps (q ∷ qs) f h =
    enter_all-IsProper (enter ps q) qs f.1 (enter-IsProper ps q f.0 h)

parts-IsProper : (path : Text) → All IsProper (parts path)
parts-IsProper path = enter_all-IsProper [] (split b'/' path) (split-All-Free b'/' path) tt

reversed-append : (qs ps : List Text) → reversed qs ps ≡ reversed [] ps ++ qs
reversed-append qs [] = refl
reversed-append qs (p ∷ ps) =
    reversed-append (p ∷ qs) ps
    ∙ sym (append_assoc (reversed [] ps) (p ∷ []) qs)
    ∙ ap (λ x. x ++ qs) (sym (reversed-append (p ∷ []) ps))

enter-proper : (ps : List Text) (p : Text) → IsProper p → enter ps p ≡ p ∷ ps
unfolding enter
enter-proper ps p h = rw (h.1, h.2, h.3) refl

enter_all-reversed : (ps : List Text) → All IsProper ps → enter_all [] (reversed [] ps) ≡ ps
unfolding enter_all
enter_all-reversed [] h = refl
enter_all-reversed (p ∷ ps) h =
    ap (enter_all []) (reversed-append (p ∷ []) ps)
    ∙ enter_all-append [] (reversed [] ps) (p ∷ [])
    ∙ ap (λ x. enter x p) (enter_all-reversed ps h.1)
    ∙ enter-proper ps p h.0

All-reversed :
    (qs ps : List Text) → All (Free b'/') qs → All IsProper ps → All (Free b'/') (reversed qs ps)
All-reversed qs [] f h = f
All-reversed qs (p ∷ ps) f h = All-reversed (p ∷ qs) ps (h.0.0, f) h.1

split-join_proper :
    (ls : List Text)
    → All (Free b'/') ls
    → enter_all [] (split b'/' (join b'/' ls)) ≡ enter_all [] ls
unfolding enter_all split join enter
split-join_proper [] f = refl
split-join_proper (l ∷ ls) f = ap (enter_all []) (split-join b'/' (l ∷ ls) (ground arith) f)

after_slash : (t : Text) → parts (slash ++ t) ≡ parts t
unfolding split enter_all enter
after_slash t = refl

-- A clean path has the parts that it is made of.
parts-path_of : (ps : List Text) → All IsProper ps → parts (path_of ps) ≡ ps
parts-path_of ps h =
    after_slash (join b'/' (reversed [] ps))
    ∙ split-join_proper (reversed [] ps) (All-reversed [] ps tt h)
    ∙ enter_all-reversed ps h

pub dir_parts : (ps : List Text) → All IsProper ps → All IsProper (drop_last ps)
dir_parts [] h = tt
dir_parts (p ∷ ps) h = h.1

-- A part that is entered.
abbrev pub enters : Text → Bool
enters q = not (is_empty q) && not (q == codes ".")

enter_one :
    (ps : List Text) (q : Text) → enters q ≡ true → (q == dots) ≡ false → enter ps q ≡ q ∷ ps
unfolding enter
enter_one ps q e h = ground arith

drop_more :
    (more : List Text) (q : Text) (ps : List Text)
    → (rest : List Text) × (drop_last (more ++ q ∷ ps) ≡ rest ++ ps)
drop_more [] q ps = ([], refl)
drop_more (m ∷ more) q ps = (more ++ q ∷ [], sym (append_assoc more (q ∷ []) ps))

-- Where a part is entered and none leads back, the last part is one of their own.
enter_all-last :
    (ps qs : List Text)
    → any enters qs ≡ true
    → All (λ p. (p == dots) ≡ false) qs
    → (more : List Text) × (drop_last (enter_all ps qs) ≡ more ++ ps)
unfolding enter_all
enter_all-last ps [] e h = absurd (cc)
enter_all-last ps (q ∷ qs) e h = elim (Bool-cases (any enters qs)) [
  | inl g ↦
      (let (first, k) = enter-more ps q h.0 in
        let (more, l) = enter_all-last (enter ps q) qs g h.1 in
        (more ++ first, l ∙ ap (λ x. more ++ x) k ∙ sym (append_assoc more first ps)))
  | inr g ↦
      (let one = enter_one ps q (ground arith) h.0 in
        let (more, l) = enter_all-more (q ∷ ps) qs h.1 in
        let (rest, d) = drop_more more q ps in
        (rest, ap (λ x. drop_last (enter_all x qs)) one ∙ ap drop_last l ∙ d))
]

-- What filepath.Dir of the path gives, where its parts are known.
pub parts-dir :
    (ps : List Text)
    → All IsProper ps
    → parts (path_of (drop_last (parts (path_of ps)))) ≡ drop_last ps
parts-dir ps h =
    parts-path_of (drop_last (parts (path_of ps)))
      (subst (λ x. All IsProper (drop_last x)) (sym (parts-path_of ps h)) (dir_parts ps h))
    ∙ ap drop_last (parts-path_of ps h)

-- The directory of a joined path is below the first part of it, where the second enters somewhere and
-- does not lead back.
pub join_path-dir :
    (dest name : Text)
    → contains name dots ≡ false
    → any enters (split b'/' name) ≡ true
    → (more : List Text) × (parts (path_of (drop_last (parts (join_path dest name))))
        ≡ more ++ parts dest)
unfolding join_path clean
join_path-dir dest name h e =
    let whole = enter_all [] (split b'/' (dest ++ (slash ++ name))) in
    let whole_path : contains (join b'/' (split b'/' name)) dots ≡ false =
      rw (join-split b'/' name) h in
    let (more, l) =
      enter_all-last (parts dest) (split b'/' name) e (join-parts (split b'/' name) whole_path) in
    (
      more,
      parts-dir whole (parts-IsProper (dest ++ (slash ++ name)))
          ∙ ap drop_last (
              ap (enter_all []) (split-append_all b'/' dest name)
              ∙ enter_all-append [] (split b'/' dest) (split b'/' name))
          ∙ l,
    )
