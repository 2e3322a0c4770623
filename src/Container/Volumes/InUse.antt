-- ===== src/Container/Volumes/InUse.antt =====
-- When the check of a new container's volumes passes.
use zylo.Prelude.{◌≡◌, refl, ◌↔◌, Bool, false, List, [], ◌∷◌, ok, arith, any, All}
use zylo.Text.{Text}
use zylo.Integer.{ℤ}
use zylo.Zylofile.{Mount}
use zylo.Container.Volumes.{Entry, mounts, is_volume_in_use, check_volumes}

module _ (running : ℤ → Bool) where
  is_volume_in_use-any :
      (host_path : Text) (dirs : List Entry)
      → is_volume_in_use running host_path dirs ≡ any (mounts running host_path) dirs
  unfolding is_volume_in_use
  is_volume_in_use-any host_path [] = refl
  is_volume_in_use-any host_path (d ∷ dirs) = ground (arith, is_volume_in_use-any host_path dirs)

  -- The check passes exactly when no running container mounts any of the host paths.
  check_volumes_iff :
      (dirs : List Entry) (vs : List Mount)
      → (check_volumes running dirs vs ≡ ok tt)
        ↔ All (λ v. any (mounts running v.host_path) dirs ≡ false) vs
  unfolding check_volumes
  check_volumes_iff dirs [] = (λ h. tt, λ h. refl)
  check_volumes_iff dirs (v ∷ vs) =
      let rest = check_volumes_iff dirs vs in
      let now = is_volume_in_use-any v.host_path dirs in
      (λ h. (ground (arith, now), rest.0 (ground (arith, now))), λ f. rw (now, f.0) (rest.1 f.1))
