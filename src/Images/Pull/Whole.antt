-- ===== src/Images/Pull/Whole.antt =====
-- PullImage of api/image.go: no part of an image is ever taken for the image.
use zylo.Prelude.{
  ℕ, suc, ◌≡◌, refl, ◌∙◌, sym, ap, arith, Bool, true, false, not, Option, none, some, List, [], ◌∷◌,
  ◌++◌, append-nil, append_assoc, Result, ok, err, Bool-cases, inl, inr,
}
use zylo.Prelude.Actions.{Done, fail_if, lift, modify, ◌>>=◌, ◌>>◌}
use zylo.Text.{Text, codes, ◌==◌}
use zylo.Text.Equality.{==_refl}
use zylo.Disk.{TextWrite, whole, refused, finally, short}
use zylo.Table.{Table, get, put, remove}
use zylo.Table.Laws.{get-put, get-remove}
use zylo.Images.{image_path}
use zylo.Images.Pull.{
  PullError, PullFate, tmp_dir, lock_file, Entry, lock, broken, tree, grow, extract_all, move,
  fetched, fill, download, unlock, finish, take_lock, locked_download, unless_locked, pull_image,
  not_renamed,
}

longer : (s : Text) (c : ℕ) (t : Text) → ((s ++ c ∷ t) == s) ≡ false
unfolding ◌==◌
longer [] c t = refl
longer (a ∷ s) c t = ground (arith, longer s c t)

same_start : (s a b : Text) → ((s ++ a) == (s ++ b)) ≡ (a == b)
unfolding ◌==◌
same_start [] a b = refl
same_start (c ∷ s) a b = ground (arith, same_start s a b)

tmp-ne-image : (name : Text) → (tmp_dir name == image_path name) ≡ false
tmp-ne-image name = longer (image_path name) b'.' (codes "tmp")

lock-ne-image : (name : Text) → (lock_file name == image_path name) ≡ false
lock-ne-image name = longer (image_path name) b'.' (codes "lock")

pub tmp-ne-lock : (name : Text) → (tmp_dir name == lock_file name) ≡ false
unfolding ◌==◌
tmp-ne-lock name = same_start (image_path name) (codes ".tmp") (codes ".lock")

module _ {L : Type 0} where
  pub get-put_other :
      (k j : Text) (a : Entry L) (t : Table (Entry L))
      → (k == j) ≡ false
      → get j (put k a t) ≡ get j t
  get-put_other k j a t h = rw (get-put k j a t, h) refl

  get-put_same : (k : Text) (a : Entry L) (t : Table (Entry L)) → get k (put k a t) ≡ some a
  get-put_same k a t = rw (get-put k k a t, ==_refl k) refl

  pub get-remove_other :
      (k j : Text) (t : Table (Entry L)) → (k == j) ≡ false → get j (remove k t) ≡ get j t
  get-remove_other k j t h = rw (get-remove k j t, h) refl

  extract-other :
      (go : ℕ → Bool) (tmp j : Text) (n : ℕ) (ls : List L) (s : Table (Entry L))
      → (tmp == j) ≡ false
      → get j (extract_all go tmp n ls s).1 ≡ get j s
  unfolding extract_all
  extract-other go tmp j n [] s h = refl
  extract-other go tmp j n (l ∷ ls) s h = elim (Bool-cases (go n)) [
    | inl e ↦ rw e (
        extract-other go tmp j (suc n) ls (put tmp (grow l (get tmp s)) s) h
        ∙ get-put_other tmp j (grow l (get tmp s)) s h)
    | inr e ↦ rw e (get-put_other tmp j broken s h)
  ]

  extract-tree :
      (go : ℕ → Bool) (tmp : Text) (n : ℕ) (xs ls : List L) (s : Table (Entry L))
      → get tmp s ≡ some (tree xs)
      → (extract_all go tmp n ls s).0 ≡ ok tt
      → get tmp (extract_all go tmp n ls s).1 ≡ some (tree (xs ++ ls))
  unfolding extract_all
  extract-tree go tmp n xs [] s h k = h ∙ ap (λ ys. some (tree ys)) (sym (append-nil xs))
  extract-tree go tmp n xs (l ∷ ls) s h k = elim (Bool-cases (go n)) [
    | inl e ↦
        let t = put tmp (grow l (get tmp s)) s in
        let grown : get tmp t ≡ some (tree (xs ++ l ∷ [])) =
          get-put_same tmp (grow l (get tmp s)) s ∙ ap (λ o. some (grow l o)) h in
        let rest : (extract_all go tmp (suc n) ls t).0 ≡ ok tt = ground arith in
        rw e (
          extract-tree go tmp (suc n) (xs ++ l ∷ []) ls t grown rest
          ∙ ap (λ ys. some (tree ys)) (append_assoc xs (l ∷ []) ls))
    | inr e ↦ absurd (ground arith)
  ]

  -- The image is there with all its layers, or not at all.
  abbrev pub WholeOrAbsent :
      Text → Option (List L) → Result PullError Done × Table (Entry L) → Type 0
  WholeOrAbsent name layers (ok u, s) =
      (ls : List L) × (layers ≡ some ls) × (get (image_path name) s ≡ some (tree ls))
  WholeOrAbsent name layers (err e, s) = get (image_path name) s ≡ none

  fill-Whole :
      (w : PullFate) (name : Text) (ls : List L) (s : Table (Entry L))
      → get (image_path name) s ≡ none
      → get (tmp_dir name) s ≡ some (tree [])
      → WholeOrAbsent name (some ls) (fill w name ls s)
  unfolding fill
  fill-Whole w name ls s hf ht =
      filled (extract_all w.extracted (tmp_dir name) 0 ls s)
        (extract-tree w.extracted (tmp_dir name) 0 [] ls s ht)
        (extract-other w.extracted (tmp_dir name) (image_path name) 0 ls s (tmp-ne-image name) ∙ hf)
        w.renamed
    where
      filled :
          (r : Result PullError Done × Table (Entry L))
          → (r.0 ≡ ok tt → get (tmp_dir name) r.1 ≡ some (tree ls))
          → get (image_path name) r.1 ≡ none
          → (b : Bool)
          → WholeOrAbsent name (some ls) (
              ((λ (t : Table (Entry L)). r)
                  >> (fail_if (not b) not_renamed
                      >> modify
                          (λ t. move (tmp_dir name) (image_path name) (get (tmp_dir name) t) t)))
                s)
      filled (err e, t) h f b = f
      filled (ok u, t) h f false = f
      filled (ok u, t) h f true = (
        ls,
        refl,
        ap (λ o. get (image_path name) (move (tmp_dir name) (image_path name) o t)) (h refl)
            ∙ get-put_same (image_path name) (tree ls) (remove (tmp_dir name) t),
      )

  download-Whole :
      (w : PullFate) (name : Text) (layers : Option (List L)) (s : Table (Entry L))
      → get (image_path name) s ≡ none
      → WholeOrAbsent name layers (download w name layers s)
  unfolding download
  download-Whole w name layers s h =
      let t = remove (tmp_dir name) s in
      let u = put (tmp_dir name) (tree []) t in
      let hr = get-remove_other (tmp_dir name) (image_path name) s (tmp-ne-image name) ∙ h in
      let hp =
        get-put_other (tmp_dir name) (image_path name) (tree []) t (tmp-ne-image name) ∙ hr in
      let made = get-put_same (tmp_dir name) (tree []) t in
      elim (Bool-cases w.cleared) [
        | inr e ↦ rw e h
        | inl e ↦ elim (Bool-cases w.made) [
          | inr g ↦ rw (e, g) hr
          | inl g ↦ rw (e, g) (go layers u hp made)
        ]
      ]
    where
      go :
          (o : Option (List L)) (u : Table (Entry L))
          → get (image_path name) u ≡ none
          → get (tmp_dir name) u ≡ some (tree [])
          → WholeOrAbsent name o ((lift (fetched o) >>= fill w name) u)
      go none u hp made = hp
      go (some ls) u hp made = fill-Whole w name ls u hp made

  get-unlock :
      (w : PullFate) (name : Text) (s : Table (Entry L))
      → get (image_path name) (unlock w name s) ≡ get (image_path name) s
  get-unlock w name s = elim (Bool-cases w.unlocked) [
    | inl e ↦ rw e (get-remove_other (lock_file name) (image_path name) s (lock-ne-image name))
    | inr e ↦ rw e refl
  ]

  finish-Whole :
      (w : PullFate) (name : Text) (layers : Option (List L))
      (r : Result PullError Done × Table (Entry L))
      → WholeOrAbsent name layers r
      → WholeOrAbsent name layers (finish w name r)
  unfolding finish
  finish-Whole w name layers (ok u, s) (ls, e, h) = (ls, e, get-unlock w name s ∙ h)
  finish-Whole w name layers (err e, s) h = elim (Bool-cases w.tmp_removed) [
    | inl g ↦ rw g (
        get-remove_other (tmp_dir name) (image_path name) (unlock w name s) (tmp-ne-image name)
        ∙ get-unlock w name s
        ∙ h)
    | inr g ↦ rw g (get-unlock w name s ∙ h)
  ]

  locked-Whole :
      (w : PullFate) (name : Text) (layers : Option (List L)) (lock_write : TextWrite)
      (s : Table (Entry L))
      → get (image_path name) s ≡ none
      → WholeOrAbsent name layers
          (locked_download w name layers (take_lock lock_write (lock_file name) s))
  locked-Whole w name layers whole s h =
      let hp = get-put_other (lock_file name) (image_path name) lock s (lock-ne-image name) ∙ h in
      finish-Whole w name layers (download w name layers (put (lock_file name) lock s))
        (download-Whole w name layers (put (lock_file name) lock s) hp)
  locked-Whole w name layers refused s h = h
  locked-Whole w name layers finally s h =
      get-put_other (lock_file name) (image_path name) lock s (lock-ne-image name) ∙ h
  locked-Whole w name layers (short n) s h =
      get-put_other (lock_file name) (image_path name) lock s (lock-ne-image name) ∙ h

  -- Where an image is not there, a call of PullImage that succeeds leaves it with all the layers of the
  -- registry, one over another, and a call that fails leaves nothing at its place, whichever step fails.
  pub pull_image-WholeOrAbsent :
      (w : PullFate) (name : Text) (layers : Option (List L)) (s : Table (Entry L))
      → get (image_path name) s ≡ none
      → WholeOrAbsent name layers (pull_image w name layers s)
  unfolding pull_image
  pull_image-WholeOrAbsent w name layers s h = elim (Bool-cases w.parsed) [
    | inr e ↦ rw e h
    | inl e ↦ rw (e, h) (go (get (lock_file name) s))
  ]
    where
      go : (o : Option (Entry L)) → WholeOrAbsent name layers (unless_locked w name layers o s)
      go (some e) = h
      go none = locked-Whole w name layers w.lock s h
