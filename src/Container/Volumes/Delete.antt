-- ===== src/Container/Volumes/Delete.antt =====
-- The deletion of a volume.
use zylo.Prelude.{
  ◌≡◌, Bool, true, false, not, ◌&&◌, none, ok, arith, any, keep, any-keep-not, first-none,
}
use zylo.Text.{Text}
use zylo.Disk.{File, Write, holds}
use zylo.Volume.{Registry, picks, find_volume, unregister_volume}
use zylo.Volume.Lookup.{is_used, strike_lem}
use zylo.Container.Volumes.{volume_delete}

-- While some container uses a volume that the name or the path picks, nothing is deleted: the
-- registry stays as it is, whatever would come of the writes.
volume_delete_used :
    (removed : Bool) (w again : Write) (now name path : Text) (reg : Registry)
    → any (λ v. picks name path v && is_used v) reg ≡ true
    → (volume_delete removed w again now name path (holds reg)).1 ≡ holds reg
unfolding volume_delete find_volume unregister_volume
volume_delete_used removed w again now name path reg used = ground (arith, strike_lem name path reg)

find-unregister_volume :
    (w : Write) (name path : Text) (f : File Registry)
    → (unregister_volume w name path f).0 ≡ ok tt
    → (find_volume name path (unregister_volume w name path f).1).0 ≡ ok none
unfolding find_volume unregister_volume
find-unregister_volume w name path File.absent h = ground arith
find-unregister_volume w name path (holds reg) h =
    let left = keep (λ v. not (picks name path v)) reg in
    ground (
      arith,
      strike_lem name path reg,
      any-keep-not (picks name path) reg,
      first-none (picks name path) left,
    )
find-unregister_volume w name path _ h = ground arith

find_volume_same : (name path : Text) (f : File Registry) → (find_volume name path f).1 ≡ f
unfolding find_volume
find_volume_same name path f = ground arith

volume_delete-unregister :
    (removed : Bool) (w again : Write) (now name path : Text) (f : File Registry)
    → (volume_delete removed w again now name path f).0 ≡ ok tt
    → ((unregister_volume w name path f).0 ≡ ok tt)
      × ((volume_delete removed w again now name path f).1 ≡ (unregister_volume w name path f).1)
unfolding volume_delete
volume_delete-unregister false w again now name path f h =
    ground (arith, find_volume_same name path f)
volume_delete-unregister true w again now name path f h =
    ground (arith, find_volume_same name path f)

-- Once a volume is deleted, nothing is found under the name or the path that it was deleted by.
find-volume_delete :
    (removed : Bool) (w again : Write) (now name path : Text) (f : File Registry)
    → (volume_delete removed w again now name path f).0 ≡ ok tt
    → (find_volume name path (volume_delete removed w again now name path f).1).0 ≡ ok none
find-volume_delete removed w again now name path f h =
    let (done, same) = volume_delete-unregister removed w again now name path f h in
    rw same (find-unregister_volume w name path f done)
