-- ===== src/Hosts/Entries.antt =====
-- Which entries a hosts file has after containers come and go.
use zylo.Prelude.{
  ◌≡◌, refl, sym, ◌≢◌, ◌∙◌, ap, Bool, true, false, not, ◌||◌, List, [], ◌∷◌, ◌++◌, ok, arith, any,
  keep, append-nil, append_assoc, Result, any-keep-not,
}
use zylo.Prelude.Actions.{Done}
use zylo.Text.{Text, ◌==◌, codes, contains, split, join}
use zylo.Text.Lines.{Free}
use zylo.Text.Search.{contains-empty, contains-left}
use zylo.Text.Equality.{==_iff, ==_ne}
use zylo.Disk.{TextFile, has, whole}
use zylo.Hosts.{Error, entry, place, add_container, remove_container}
use zylo.Hosts.Lines.{lines, lines-add, lines-remove, contains-entry_name, or_blank}

keep_none {ℓ} : {A : Type ℓ} (p : A → Bool) (xs : List A) → any p xs ≡ false → keep p xs ≡ []
keep_none p [] h = refl
keep_none p (x ∷ xs) h = ground (arith, keep_none p xs)

-- Placing an entry adds it to what a test keeps, or adds nothing where it fails the test.
keep-place_in :
    (p : Text → Bool) (e : Text) (ls : List Text)
    → p e ≡ true
    → any p ls ≡ false
    → keep p (place e ls) ≡ e ∷ []
unfolding place
keep-place_in p e [] he h = ground arith
keep-place_in p e (l ∷ ls) he h = ground (arith, keep-place_in p e ls he, keep_none p ls)

keep-place_out :
    (p : Text → Bool) (e : Text) (ls : List Text) → p e ≡ false → keep p (place e ls) ≡ keep p ls
unfolding place
keep-place_out p e [] he = ground arith
keep-place_out p e (l ∷ ls) he = ground (arith, keep-place_out p e ls he)

keep-keep {ℓ} : {A : Type ℓ} (p : A → Bool) (xs : List A) → keep p (keep p xs) ≡ keep p xs
keep-keep p [] = refl
keep-keep p (x ∷ xs) = ground (arith, keep-keep p xs)

entry-contains_name : (ip name : Text) → contains (entry ip name) name ≡ true
entry-contains_name ip name =
    let found = contains-entry_name ip [] name [] in rw append-nil at found

-- After a container is added, with a write that goes through and no line break in its address or
-- name, its entry is the only line that mentions its name, and the lines that did not mention the
-- name are all there, in their order.
pub add_container_lem :
    (ip name s : Text)
    → Free 10 ip
    → Free 10 name
    → let after = lines (add_container whole ip name (has s)).1 in
      (keep (λ l. contains l name) after ≡ entry ip name ∷ [])
      × (keep (λ l. not (contains l name)) after ≡ keep (λ l. not (contains l name)) (split 10 s))
add_container_lem ip name s hi hn =
    let kept = keep (λ l. not (contains l name)) (split 10 s) in
    let named = entry-contains_name ip name in
    rw (lines-add ip name s hi hn) (
      keep-place_in (λ l. contains l name) (entry ip name) kept named
          (any-keep-not (λ l. contains l name) (split 10 s)),
      keep-place_out (λ l. not (contains l name)) (entry ip name) kept (ground arith)
          ∙ keep-keep (λ l. not (contains l name)) (split 10 s),
    )

-- Adding a container again, at another address, gives what adding it there at once gives, where the
-- writes go through and neither the first address nor the name has a line break.
add-add :
    (ip ip' name s : Text)
    → Free 10 ip
    → Free 10 name
    → add_container whole ip' name (add_container whole ip name (has s)).1
      ≡ add_container whole ip' name (has s)
unfolding add_container
add-add ip ip' name s hi hn =
    ap {B = Result Error Done × TextFile}
      (λ kept. (ok tt, has (join 10 (place (entry ip' name) kept))))
      (add_container_lem ip name s hi hn).1

keep-unnamed : (ls : List Text) → keep (λ l. not (contains l [])) ls ≡ []
keep-unnamed [] = refl
keep-unnamed (l ∷ ls) = ground (arith, contains-empty l, keep-unnamed ls)

-- Adding a container without a name, with a write that goes through, takes every line out of the
-- hosts file, so that its own entry is all that is left.
add_unnamed_erases :
    (ip s : Text) → add_container whole ip [] (has s) ≡ (ok tt, has (ip ++ codes "       "))
unfolding add_container place join
add_unnamed_erases ip s = rw (keep-unnamed (split 10 s))

-- A line that a test drops is not among the lines that it keeps.
any-eq-keep :
    (q : Text → Bool) (x : Text) (ls : List Text)
    → q x ≡ false
    → any (λ l. l == x) (keep q ls) ≡ false
any-eq-keep q x [] h = refl
any-eq-keep q x (l ∷ ls) h = ground (arith, any-eq-keep q x ls, ==_iff l x)

any-or_blank :
    (p : Text → Bool) (ls : List Text)
    → p [] ≡ false
    → any p ls ≡ false
    → any p (or_blank ls) ≡ false
any-or_blank p [] h k = ground arith
any-or_blank p (l ∷ ls) h k = k

any-place :
    (p : Text → Bool) (e : Text) (ls : List Text)
    → p e ≡ false
    → any p ls ≡ false
    → any p (place e ls) ≡ false
unfolding place
any-place p e [] h k = ground arith
any-place p e (l ∷ ls) h k = ground (arith, any-place p e ls)

blank-entry : (ip name : Text) → ([] == entry ip name) ≡ false
unfolding ◌==◌
blank-entry [] name = refl
blank-entry (c ∷ ip) name = refl

entry-contains_prefix : (ip rest name : Text) → contains (entry (ip ++ rest) name) ip ≡ true
entry-contains_prefix ip rest name =
    let found = contains-left ip (rest ++ (codes "       " ++ name)) in
    rw (append_assoc ip rest (codes "       " ++ name)) found

-- Removing a container, with a write that goes through, takes away the entry of every other container
-- whose address begins with the address of the removed one.
pub remove_drops_longer_address :
    (ip rest name other s : Text)
    → any (λ l. l == entry (ip ++ rest) other) (lines (remove_container whole ip name (has s)).1)
      ≡ false
remove_drops_longer_address ip rest name other s =
    let spare = λ (l : Text). not (contains l ip || contains l name) in
    let x = entry (ip ++ rest) other in
    rw (lines-remove ip name s) (
      any-or_blank (λ l. l == x) (keep spare (split 10 s)) (blank-entry (ip ++ rest) other)
        (any-eq-keep spare x (split 10 s) (ground (arith, entry-contains_prefix ip rest other))))

-- Adding a container takes away the entry of every other container whose name has the added name in
-- it.
add_drops_longer_name :
    (ip ip' pre name post s : Text)
    → Free 10 ip
    → Free 10 name
    → entry ip' (pre ++ (name ++ post)) ≢ entry ip name
    → any
        (λ l. l == entry ip' (pre ++ (name ++ post)))
        (lines (add_container whole ip name (has s)).1)
      ≡ false
add_drops_longer_name ip ip' pre name post s hi hn ne =
    let spare = λ (l : Text). not (contains l name) in
    let x = entry ip' (pre ++ (name ++ post)) in
    rw (lines-add ip name s hi hn) (
      any-place (λ l. l == x) (entry ip name) (keep spare (split 10 s))
        (==_ne (entry ip name) x (λ e. ne (sym e)))
        (any-eq-keep spare x (split 10 s) (ground (arith, contains-entry_name ip' pre name post))))
