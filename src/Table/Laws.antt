-- ===== src/Table/Laws.antt =====
-- What a lookup finds after an insertion or a deletion.
use zylo.Prelude.{◌≡◌, refl, Bool, true, false, none, some, [], ◌∷◌, arith, if◌then◌else◌}
use zylo.Text.{Text, ◌==◌}
use zylo.Text.Equality.{==_iff}
use zylo.Table.{Table, get, put, remove, some_value}

module _ {ℓ} {A : Type ℓ} where
  pub get-put :
      (k j : Text) (a : A) (t : Table A) → get j (put k a t) ≡ (if k == j then some a else get j t)
  unfolding get put
  get-put k j a [] = refl
  get-put k j a ((i, b) ∷ t) = ground (arith, ==_iff k j, ==_iff i k, ==_iff i j, get-put k j a t)

  pub get-remove :
      (k j : Text) (t : Table A) → get j (remove k t) ≡ (if k == j then none else get j t)
  unfolding get remove
  get-remove k j [] = ground arith
  get-remove k j ((i, b) ∷ t) = ground (arith, ==_iff k j, ==_iff i k, ==_iff i j, get-remove k j t)

  pub some_value-put :
      (p : A → Bool) (k : Text) (a : A) (t : Table A)
      → p a ≡ false
      → some_value p t ≡ false
      → some_value p (put k a t) ≡ false
  unfolding some_value put
  some_value-put p k a [] h n = ground arith
  some_value-put p k a ((j, b) ∷ t) h n = ground (arith, some_value-put p k a t)

  pub some_value-remove :
      (p : A → Bool) (k : Text) (t : Table A)
      → some_value p t ≡ false
      → some_value p (remove k t) ≡ false
  unfolding some_value remove
  some_value-remove p k [] n = refl
  some_value-remove p k ((j, b) ∷ t) n = ground (arith, some_value-remove p k t)

  pub some_value-get :
      (p : A → Bool) (k : Text) (t : Table A) {a : A}
      → get k t ≡ some a
      → p a ≡ true
      → some_value p t ≡ true
  unfolding some_value get
  some_value-get p k [] g h = ground arith
  some_value-get p k ((j, b) ∷ t) {a} g h = ground (arith, some_value-get p k t {a = a})
