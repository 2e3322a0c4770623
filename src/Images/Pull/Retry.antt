-- ===== src/Images/Pull/Retry.antt =====
-- PullImage of api/image.go: a download after a failed one.
use zylo.Prelude.{
  ℕ, suc, ◌≡◌, refl, ap, sym, ◌∙◌, true, Option, none, some, List, [], ◌∷◌, Result, ok, err,
  Bool-cases, inl, inr,
}
use zylo.Prelude.Actions.{Done}
use zylo.Text.{Text}
use zylo.Text.Equality.{==_refl}
use zylo.Disk.{whole}
use zylo.Table.{Table, get, put, remove}
use zylo.Table.Laws.{get-remove}
use zylo.Images.{image_path}
use zylo.Images.Pull.{
  PullError, PullFate, tmp_dir, lock_file, Entry, lock, tree, grow, extract_all, fill, download,
  unlock, finish, pull_image,
}
use zylo.Images.Pull.Whole.{WholeOrAbsent, pull_image-WholeOrAbsent, tmp-ne-lock, get-remove_other}

-- Nothing fails.
abbrev pub all_well : PullFate
all_well = record {
  parsed = true;
  lock = whole;
  cleared = true;
  made = true;
  extracted = λ n. true;
  renamed = true;
  unlocked = true;
  tmp_removed = true;
}

abbrev value_or {μ} : {A : Type μ} → A → Option A → A
value_or d none = d
value_or d (some a) = a

some_injective {μ} : {A : Type μ} {a b : A} → ◌≡◌ {A = Option A} (some a) (some b) → a ≡ b
some_injective {a = a} h = ap (value_or a) h

module _ {L : Type 0} where
  extract-all_well :
      (tmp : Text) (n : ℕ) (ls : List L) (s : Table (Entry L))
      → (extract_all (λ n. true) tmp n ls s).0 ≡ ok tt
  unfolding extract_all
  extract-all_well tmp n [] s = refl
  extract-all_well tmp n (l ∷ ls) s =
      extract-all_well tmp (suc n) ls (put tmp (grow l (get tmp s)) s)

  fill-all_well :
      (name : Text) (ls : List L) (s : Table (Entry L)) → (fill all_well name ls s).0 ≡ ok tt
  unfolding fill
  fill-all_well name ls s = rw (extract-all_well (tmp_dir name) 0 ls s) refl

  finish-ok :
      (w : PullFate) (name : Text) (r : Result PullError Done × Table (Entry L))
      → r.0 ≡ ok tt
      → (finish w name r).0 ≡ ok tt
  unfolding finish
  finish-ok w name (ok u, s) h = h
  finish-ok w name (err e, s) h = h

  pull-all_well :
      (name : Text) (ls : List L) (s : Table (Entry L))
      → get (image_path name) s ≡ none
      → get (lock_file name) s ≡ none
      → (pull_image all_well name (some ls) s).0 ≡ ok tt
  unfolding pull_image download
  pull-all_well name ls s hf hk =
      rw (hf, hk) (finish-ok all_well name (fill all_well name ls _) (fill-all_well name ls _))

  removed : (k : Text) (t : Table (Entry L)) → get k (remove k t) ≡ none
  removed k t = rw (get-remove k k t, ==_refl k) refl

  finish-unlocked :
      (w : PullFate) (name : Text) (r : Result PullError Done × Table (Entry L))
      → w.unlocked ≡ true
      → get (lock_file name) (finish w name r).1 ≡ none
  unfolding finish
  finish-unlocked w name (ok u, s) h = rw h (removed (lock_file name) s)
  finish-unlocked w name (err e, s) h =
      let gone : get (lock_file name) (unlock w name s) ≡ none =
        rw h (removed (lock_file name) s) in
      elim (Bool-cases w.tmp_removed) [
        | inl g ↦ rw g (
            get-remove_other (tmp_dir name) (lock_file name) (unlock w name s) (tmp-ne-lock name)
            ∙ gone)
        | inr g ↦ rw g gone
      ]

  pull-unlocked :
      (w : PullFate) (name : Text) (layers : Option (List L)) (s : Table (Entry L))
      → get (image_path name) s ≡ none
      → get (lock_file name) s ≡ none
      → w.lock ≡ whole
      → w.unlocked ≡ true
      → get (lock_file name) (pull_image w name layers s).1 ≡ none
  unfolding pull_image
  pull-unlocked w name layers s hf hk hl hu = elim (Bool-cases w.parsed) [
    | inr e ↦ rw e hk
    | inl e ↦
        rw (e, hf, hk, hl)
          (finish-unlocked w name (download w name layers (put (lock_file name) lock s)) hu)
  ]

  failed-Absent :
      (name : Text) (layers : Option (List L)) (r : Result PullError Done × Table (Entry L))
      {e : PullError}
      → WholeOrAbsent name layers r
      → r.0 ≡ err e
      → get (image_path name) r.1 ≡ none
  failed-Absent name layers (ok u, s) h f = absurd (cc)
  failed-Absent name layers (err e, s) h f = h

  ok-Whole :
      (name : Text) (ls : List L) (r : Result PullError Done × Table (Entry L))
      → WholeOrAbsent name (some ls) r
      → r.0 ≡ ok tt
      → get (image_path name) r.1 ≡ some (tree ls)
  ok-Whole name ls (ok u, s) (xs, e, h) f = h ∙ ap (λ ys. some (tree ys)) (sym (some_injective e))
  ok-Whole name ls (err e, s) h f = absurd (cc)

  -- Once a download has failed that had the lock and could take it away again, a further download in
  -- which nothing fails succeeds, and the image is there with all its layers.
  pub pull_image-retry :
      (w : PullFate) (name : Text) (layers : Option (List L)) (ls : List L) (s : Table (Entry L))
      (e : PullError)
      → get (image_path name) s ≡ none
      → get (lock_file name) s ≡ none
      → w.lock ≡ whole
      → w.unlocked ≡ true
      → (pull_image w name layers s).0 ≡ err e
      → let t = pull_image all_well name (some ls) (pull_image w name layers s).1 in
        (t.0 ≡ ok tt) × (get (image_path name) t.1 ≡ some (tree ls))
  pull_image-retry w name layers ls s e hf hk hl hu failed =
      let t = (pull_image w name layers s).1 in
      let absent =
        failed-Absent name layers (pull_image w name layers s)
          (pull_image-WholeOrAbsent w name layers s hf) failed in
      let well = pull-all_well name ls t absent (pull-unlocked w name layers s hf hk hl hu) in
      (
        well,
        ok-Whole name ls (pull_image all_well name (some ls) t)
            (pull_image-WholeOrAbsent all_well name (some ls) t absent) well,
      )
