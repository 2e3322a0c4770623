-- ===== src/Images/Pull.antt =====
-- PullImage of api/image.go: an image is downloaded to a directory of its own and then renamed.
pub mod Whole
pub mod Retry
mod Examples
use zylo.Prelude.{
  ℕ, suc, Bool, true, false, not, Option, none, some, List, [], ◌∷◌, ◌++◌, Result, ok, err,
  if◌then◌else◌,
}
use zylo.Prelude.Actions.{Act, Done, pure, fail, fail_if, lift, modify, ◌>>=◌, ◌>>◌}
use zylo.Text.{Text, codes}
use zylo.Disk.{TextWrite, whole, refused, finally, short}
use zylo.Table.{Table, get, put, remove}
use zylo.Images.{image_path}

pub data PullError : Type 0 where
  bad_reference downloading lock_failed clear_failed no_dir no_image layer_failed not_renamed :
      PullError

-- How the calls of one download go: the reference, the file of the lock, the directory, what each
-- layer's extraction comes to, the renaming, and the calls of the deferred function.
pub record PullFate : Type 0 where
  pub parsed : Bool
  pub lock : TextWrite
  pub cleared : Bool
  pub made : Bool
  pub extracted : ℕ → Bool
  pub renamed : Bool
  pub unlocked : Bool
  pub tmp_removed : Bool

abbrev pub tmp_dir : Text → Text
tmp_dir name = image_path name ++ codes ".tmp"

abbrev pub lock_file : Text → Text
lock_file name = image_path name ++ codes ".lock"

-- What stands at a path below the images: a lock, the layers extracted one over another, or a
-- directory in which a layer stopped half-way.
pub data Entry (L : Type 0) : Type 0 where
  lock broken : Entry L
  tree : List L → Entry L

abbrev pub Pulling : Type 0 → Type 0 → Type 0
Pulling L A = Act (Table (Entry L)) PullError A

module _ {L : Type 0} where
  abbrev pub grow : L → Option (Entry L) → Entry L
  grow l (some (tree ls)) = tree (ls ++ l ∷ [])
  grow l _ = broken

  -- The loop over the layers, from the n-th on.
  unfoldable pub extract_all : (ℕ → Bool) → Text → ℕ → List L → Pulling L Done
  extract_all go tmp n [] s = (ok tt, s)
  extract_all go tmp n (l ∷ ls) s =
      let more = extract_all go tmp (suc n) ls (put tmp (grow l (get tmp s)) s) in
      if go n then more else (err layer_failed, put tmp broken s)

  abbrev pub move : Text → Text → Option (Entry L) → Table (Entry L) → Table (Entry L)
  move tmp final none s = s
  move tmp final (some e) s = put final e (remove tmp s)

  -- remote.Image and Layers
  abbrev pub fetched : Option (List L) → Result PullError (List L)
  fetched none = err no_image
  fetched (some ls) = ok ls

  -- From the temporary directory to the image.
  unfoldable pub fill : PullFate → Text → List L → Pulling L Done
  unfolding extract_all
  fill w name ls = do
    extract_all w.extracted (tmp_dir name) 0 ls
    fail_if (not w.renamed) not_renamed
    modify (λ s. move (tmp_dir name) (image_path name) (get (tmp_dir name) s) s)

  -- The part of PullImage behind the `defer`.
  unfoldable pub download : PullFate → Text → Option (List L) → Pulling L Done
  unfolding fill
  download w name layers = do
    fail_if (not w.cleared) clear_failed
    modify (remove (tmp_dir name))
    fail_if (not w.made) no_dir
    modify (put (tmp_dir name) (tree []))
    ls ← lift (fetched layers)
    fill w name ls

  abbrev pub unlock : PullFate → Text → Table (Entry L) → Table (Entry L)
  unlock w name s = if w.unlocked then remove (lock_file name) s else s

  -- The deferred function: the lock goes, and after an error the temporary directory.
  unfoldable pub finish :
      PullFate
      → Text
      → Result PullError Done × Table (Entry L)
      → Result PullError Done × Table (Entry L)
  finish w name (ok u, s) = (ok u, unlock w name s)
  finish w name (err e, s) =
      let t = unlock w name s in (err e, if w.tmp_removed then remove (tmp_dir name) t else t)

  -- A write of the lock that fails before the end leaves the file, and no `defer` is there yet.
  abbrev pub take_lock : TextWrite → Text → Pulling L Done
  take_lock whole path s = (ok tt, put path lock s)
  take_lock refused path s = (err lock_failed, s)
  take_lock finally path s = (err lock_failed, put path lock s)
  take_lock (short n) path s = (err lock_failed, put path lock s)

  abbrev pub locked_download :
      PullFate
      → Text
      → Option (List L)
      → Result PullError Done × Table (Entry L)
      → Result PullError Done × Table (Entry L)
  locked_download w name layers (ok u, s) = finish w name (download w name layers s)
  locked_download w name layers (err e, s) = (err e, s)

  abbrev pub unless_locked : PullFate → Text → Option (List L) → Option (Entry L) → Pulling L Done
  unless_locked w name layers (some e) s = (err downloading, s)
  unless_locked w name layers none s =
      locked_download w name layers (take_lock w.lock (lock_file name) s)

  abbrev pub unless_there : PullFate → Text → Option (List L) → Option (Entry L) → Pulling L Done
  unless_there w name layers (some e) s = (ok tt, s)
  unless_there w name layers none s = unless_locked w name layers (get (lock_file name) s) s

  -- `layers` are those of the image in the registry, where it can be asked for.
  unfoldable pub pull_image : PullFate → Text → Option (List L) → Pulling L Done
  unfolding download finish
  pull_image w name layers s =
      if not w.parsed
      then (err bad_reference, s)
      else unless_there w name layers (get (image_path name) s) s
