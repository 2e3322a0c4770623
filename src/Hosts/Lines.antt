-- ===== src/Hosts/Lines.antt =====
-- The hosts file as a list of lines.
use zylo.Prelude.{
  ℕ, ◌≡◌, refl, ◌≢◌, true, not, ◌||◌, List, [], ◌∷◌, ◌++◌, arith, keep, All, All-keep, any-append,
  eqb, append_assoc,
}
use zylo.Text.{Text, codes, contains, split, join}
use zylo.Text.Lines.{Free, split-join, split-All-Free}
use zylo.Text.Search.{contains-middle}
use zylo.Disk.{TextFile, has, whole}
use zylo.Hosts.{entry, place, add_container, remove_container}

abbrev pub lines : TextFile → List Text
lines (TextFile.has s) = split 10 s
lines _ = []

pub entry-Free : (ip name : Text) → Free 10 ip → Free 10 name → Free 10 (entry ip name)
entry-Free ip name hi hn = ground (
  arith,
  any-append (λ (c : ℕ). eqb c 10) ip (codes "       " ++ name),
  any-append (λ (c : ℕ). eqb c 10) (codes "       ") name,
)

pub contains-entry_name :
    (ip pre name post : Text) → contains (entry ip (pre ++ (name ++ post))) name ≡ true
contains-entry_name ip pre name post =
    let found = contains-middle (ip ++ (codes "       " ++ pre)) name post in
    simp append_assoc at found

place-ne-nil : (e : Text) (ls : List Text) → place e ls ≢ []
unfolding place
place-ne-nil e [] = ground arith
place-ne-nil e (l ∷ ls) = ground arith

place-All {κ} :
    (P : Text → Type κ) (e : Text) (ls : List Text) → P e → All P ls → All P (place e ls)
unfolding place
place-All P e [] he h = (he, tt)
place-All P e (l ∷ ls) he h = ground (arith, place-All P e ls he h.1)

-- The file after a successful add holds the lines without the name, and the entry among them.
pub lines-add :
    (ip name s : Text)
    → Free 10 ip
    → Free 10 name
    → lines (add_container whole ip name (has s)).1
      ≡ place (entry ip name) (keep (λ l. not (contains l name)) (split 10 s))
unfolding add_container
lines-add ip name s hi hn =
    let kept = keep (λ l. not (contains l name)) (split 10 s) in
    split-join 10 (place (entry ip name) kept) (place-ne-nil (entry ip name) kept) (
      place-All (Free 10) (entry ip name) kept (entry-Free ip name hi hn)
        (All-keep (Free 10) (λ l. not (contains l name)) (split 10 s) (split-All-Free 10 s)))

abbrev pub or_blank : List Text → List Text
or_blank [] = [] ∷ []
or_blank (l ∷ ls) = l ∷ ls

-- A file with no line left is the empty file, which has one empty line.
split-join-or_blank : (ls : List Text) → All (Free 10) ls → split 10 (join 10 ls) ≡ or_blank ls
split-join-or_blank [] h = unfold split join in refl
split-join-or_blank (l ∷ ls) h = split-join 10 (l ∷ ls) (ground arith) h

-- After a successful removal the file has exactly the lines that mentioned neither the address nor
-- the name, in their order.
pub lines-remove :
    (ip name s : Text)
    → lines (remove_container whole ip name (has s)).1
      ≡ or_blank (keep (λ l. not (contains l ip || contains l name)) (split 10 s))
unfolding remove_container
lines-remove ip name s =
    split-join-or_blank (keep (λ l. not (contains l ip || contains l name)) (split 10 s)) (
      All-keep (Free 10) (λ l. not (contains l ip || contains l name)) (split 10 s)
        (split-All-Free 10 s))
