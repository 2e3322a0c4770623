-- ===== src/Table.antt =====
-- Go maps with string keys, and directories of files, as association lists. The order of the
-- entries is the order in which a range over the map would visit them.
pub mod Laws
use zylo.Prelude.{ℕ, Bool, true, false, not, Option, none, some, List, [], ◌∷◌, if◌then◌else◌}
use zylo.Text.{Text, ◌==◌}

abbrev pub Table {ℓ} : Type ℓ → Type ℓ
Table A = List (Text × A)

module _ {ℓ} {A : Type ℓ} where
  unfoldable pub get : Text → Table A → Option A
  get k [] = none
  get k ((j, a) ∷ t) = if j == k then some a else get k t

  unfoldable pub put : Text → A → Table A → Table A
  put k a [] = (k, a) ∷ []
  put k a ((j, b) ∷ t) = if j == k then (k, a) ∷ t else (j, b) ∷ put k a t

  -- delete(m, k)
  unfoldable pub remove : Text → Table A → Table A
  remove k [] = []
  remove k ((j, b) ∷ t) = let rest = remove k t in if j == k then rest else (j, b) ∷ rest

  -- Some value has the property.
  unfoldable pub some_value : (A → Bool) → Table A → Bool
  some_value p [] = false
  some_value p ((j, a) ∷ t) = if p a then true else some_value p t
