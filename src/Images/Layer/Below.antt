-- ===== src/Images/Layer/Below.antt =====
-- extractLayer of api/image.go: where the entries of a layer come to stand.
use zylo.Prelude.{
  ℕ, suc, ◌≡◌, refl, sym, ◌∙◌, ap, subst, arith, Bool, true, false, not, Option, none, some, List,
  [], ◌∷◌, ◌++◌, append_assoc, All, Bool-cases, inl, inr, any, keep,
}
use zylo.Prelude.Actions.{bind_inv}
use zylo.Text.{Text, codes, is_empty, ◌==◌, contains, has_prefix, split}
use zylo.Paths.{slash, join_path}
use zylo.Text.Equality.{==_sound}
use zylo.Paths.Dots.{contains-tail, dots, split-no_dots}
use zylo.Paths.Below.{IsBelow, path_of, parts, enters, join_path-IsBelow, join_path-dir}
use zylo.Images.Layer.{
  Kind, directory, regular, symlink, hard_link, other, Header, Call, make_dir, make_parent, create,
  remove_all, make_symlink, make_link, LayerFate, extract_kind, extract_entry, extract_entries,
  extract_layer, base_name, whiteout, last_or, dir_of, drop_four,
}

last_or-no_dots :
    (d : Text) (qs : List Text)
    → contains d dots ≡ false
    → All (λ p. contains p dots ≡ false) qs
    → contains (last_or d (keep (λ p. not (is_empty p)) qs)) dots ≡ false
last_or-no_dots d [] hd h = hd
last_or-no_dots d (q ∷ qs) hd h = elim (Bool-cases (is_empty q)) [
  | inl e ↦ rw e (last_or-no_dots d qs hd h.1)
  | inr e ↦ rw e (last_or-no_dots q qs h.0 h.1)
]

base_name-no_dots :
    (name : Text) → contains name dots ≡ false → contains (base_name name) dots ≡ false
unfolding base_name contains has_prefix
base_name-no_dots [] h = refl
base_name-no_dots (c ∷ s) h =
    last_or-no_dots slash (split b'/' (c ∷ s)) refl (split-no_dots (c ∷ s) h)

-- A part that marks a whiteout is entered.
marked-enters : (q : Text) → is_empty q ≡ false → has_prefix q whiteout ≡ true → enters q ≡ true
unfolding has_prefix
marked-enters q e g = elim (Bool-cases (q == codes ".")) [
  | inl k ↦
      let wrong : false ≡ true =
        subst (λ x. has_prefix x whiteout ≡ true) (==_sound q (codes ".") k) g in
      absurd (cc)
  | inr k ↦ ground arith
]

last_or-enters :
    (d : Text) (qs : List Text)
    → has_prefix d whiteout ≡ false
    → has_prefix (last_or d (keep (λ p. not (is_empty p)) qs)) whiteout ≡ true
    → any enters qs ≡ true
last_or-enters d [] hd h = absurd (cc)
last_or-enters d (q ∷ qs) hd h = elim (Bool-cases (is_empty q)) [
  | inl e ↦ ground (arith, last_or-enters d qs hd (rw e at h))
  | inr e ↦ elim (Bool-cases (has_prefix q whiteout)) [
    | inl g ↦ ground (arith, marked-enters q e g)
    | inr g ↦ ground (arith, last_or-enters q qs g (rw e at h))
  ]
]

base_name-enters :
    (name : Text)
    → has_prefix (base_name name) whiteout ≡ true
    → any enters (split b'/' name) ≡ true
unfolding base_name has_prefix
base_name-enters [] h = absurd (cc)
base_name-enters (c ∷ s) h = last_or-enters slash (split b'/' (c ∷ s)) refl h

drop_four-no_dots : (s : Text) → contains s dots ≡ false → contains (drop_four s) dots ≡ false
drop_four-no_dots [] h = h
drop_four-no_dots (a ∷ []) h = h
drop_four-no_dots (a ∷ b ∷ []) h = h
drop_four-no_dots (a ∷ b ∷ c ∷ []) h = h
drop_four-no_dots (a ∷ b ∷ c ∷ d ∷ s) h = contains-tail (a ∷ b ∷ c ∷ d ∷ []) s dots h

white_out-IsBelow :
    (dest name : Text)
    → contains name dots ≡ false
    → has_prefix (base_name name) whiteout ≡ true
    → IsBelow dest (join_path (dir_of (join_path dest name)) (drop_four (base_name name)))
unfolding dir_of
white_out-IsBelow dest name h g =
    let (more, e) = join_path-dir dest name h (base_name-enters name g) in
    let (own, k) =
      join_path-IsBelow (dir_of (join_path dest name)) (drop_four (base_name name))
        (drop_four-no_dots (base_name name) (base_name-no_dots name h)) in
    (own ++ more, k ∙ ap path_of (ap (λ x. own ++ x) e ∙ sym (append_assoc own more (parts dest))))

-- What the call makes or removes for an entry is below the directory.
abbrev pub MakesBelow : Text → Call → Type 0
MakesBelow dest (make_dir path) = IsBelow dest path
MakesBelow dest (create path) = IsBelow dest path
MakesBelow dest (make_symlink link path) = IsBelow dest path
MakesBelow dest (make_link old path) = IsBelow dest path
MakesBelow dest (make_parent path) = Unit
MakesBelow dest (remove_all path) = IsBelow dest path

extract_kind-MakesBelow :
    (w : LayerFate) (n : ℕ) (dest target : Text) (kind : Kind) (link : Text) (cs : List Call)
    → IsBelow dest target
    → All (MakesBelow dest) cs
    → All (MakesBelow dest) (extract_kind w n dest target kind link cs).1
unfolding extract_kind
extract_kind-MakesBelow w n dest target directory link cs b h = elim (Bool-cases (w.made n)) [
  | inl e ↦ rw e (b, h)
  | inr e ↦ rw e (b, h)
]
extract_kind-MakesBelow w n dest target regular link cs b h = elim (Bool-cases (w.parent n)) [
  | inr e ↦ rw e (tt, h)
  | inl e ↦ elim (Bool-cases (w.opened n)) [
    | inr g ↦ rw (e, g) (b, (tt, h))
    | inl g ↦ elim (Bool-cases (w.copied n)) [
      | inl k ↦ rw (e, g, k) (b, (tt, h))
      | inr k ↦ rw (e, g, k) (b, (tt, h))
    ]
  ]
]
extract_kind-MakesBelow w n dest target symlink link cs b h = (b, (tt, h))
extract_kind-MakesBelow w n dest target hard_link link cs b h = (b, h)
extract_kind-MakesBelow w n dest target other link cs b h = h

extract_entry-MakesBelow :
    (w : LayerFate) (n : ℕ) (dest : Text) (hd : Header) (cs : List Call)
    → All (MakesBelow dest) cs
    → All (MakesBelow dest) (extract_entry w n dest hd cs).1
unfolding extract_entry
extract_entry-MakesBelow w n dest hd cs h = elim (Bool-cases (contains hd.name dots)) [
  | inl e ↦ rw e h
  | inr e ↦ elim (Bool-cases (has_prefix (base_name hd.name) whiteout)) [
    | inl g ↦ rw (e, g) (white_out-IsBelow dest hd.name e g, h)
    | inr g ↦
        rw (e, g)
          (extract_kind-MakesBelow w n dest (join_path dest hd.name) hd.kind hd.link_name cs
            (join_path-IsBelow dest hd.name e) h)
  ]
]

extract_entries-MakesBelow :
    (w : LayerFate) (n : ℕ) (dest : Text) (ended : Bool) (hs : List Header) (cs : List Call)
    → All (MakesBelow dest) cs
    → All (MakesBelow dest) (extract_entries w n dest ended hs cs).1
unfolding extract_entries
extract_entries-MakesBelow w n dest true [] cs h = h
extract_entries-MakesBelow w n dest false [] cs h = h
extract_entries-MakesBelow w n dest ended (hd ∷ hs) cs h =
    let made = extract_entry-MakesBelow w n dest hd cs h in
    bind_inv (All (MakesBelow dest)) (extract_entry w n dest hd)
      (λ _. extract_entries w (suc n) dest ended hs) cs made
      λ _ _.
        extract_entries-MakesBelow w (suc n) dest ended hs (extract_entry w n dest hd cs).1 made

-- Whatever the entries of a layer are called, and whatever fails, each directory, file and link that
-- its extraction makes for an entry, besides the parents that a file or a link may need, and each path
-- that a whiteout makes it remove, has the parts of the directory of the image, followed by parts of
-- its own or by none.
pub extract_layer-MakesBelow :
    (w : LayerFate) (dest : Text) (layer : Option (List Header × Bool))
    → All (MakesBelow dest) (extract_layer w dest layer []).1
unfolding extract_layer
extract_layer-MakesBelow w dest none = tt
extract_layer-MakesBelow w dest (some (hs, ended)) =
    extract_entries-MakesBelow w 0 dest ended hs [] tt
