-- ===== src/Prelude/Actions.antt =====
-- Code that changes a state and may return an error. What was written before the error stays
-- written, so the state comes back beside the error too.
use zylo.Prelude.Results.{Result, ok, err}
use mathlib.Core.Path.{◌≡◌, refl, ap}
use mathlib.Core.Bool.{Bool, true, false}
use native.Mathlib.Omega.{arith}

abbrev pub Act {ℓ μ κ} : Type ℓ → Type κ → Type μ → Type (ℓ ⊔ μ ⊔ κ)
Act S E A = S → Result E A × S

module _ {ℓ μ κ} {S : Type ℓ} {E : Type κ} {A : Type μ} where
  abbrev pub pure : A → Act S E A
  pure a s = (ok a, s)

  abbrev pub fail : E → Act S E A
  fail e s = (err e, s)

  abbrev pub lift : Result E A → Act S E A
  lift r s = (r, s)

  abbrev pub gets : (S → A) → Act S E A
  gets f s = (ok (f s), s)

abbrev pub modify {ℓ κ} : {S : Type ℓ} {E : Type κ} → (S → S) → Act S E (Unit {0})
modify f s = (ok tt, f s)

-- `if cond { return err }`
abbrev pub fail_if {ℓ κ} : {S : Type ℓ} {E : Type κ} → Bool → E → Act S E (Unit {0})
fail_if true e s = (err e, s)
fail_if false e s = (ok tt, s)

-- A call whose error is dropped: `_ = f()`, or a warning printed.
abbrev pub ignore {ℓ μ κ ξ} :
    {S : Type ℓ} {E : Type κ} {F : Type ξ} {A : Type μ} → Act S F A → Act S E (Unit {0})
ignore m s = (ok tt, (m s).1)

-- The error of a part, put under the caller's error.
abbrev pub wrap {ℓ μ κ ξ} :
    {S : Type ℓ} {E : Type κ} {F : Type ξ} {A : Type μ} → (F → E) → Act S F A → Act S E A
wrap f m s = (elim (m s).0 [ ok a ↦ ok a | err e ↦ err (f e) ], (m s).1)

abbrev pub continue {ℓ μ ν κ} :
    {S : Type ℓ} {E : Type κ} {A : Type μ} {B : Type ν} → Result E A → (A → Act S E B) → Act S E B
continue (ok a) f s = f a s
continue (err e) f s = (err e, s)

infixl 5 ◌>>=◌ ◌>>◌
abbrev pub ◌>>=◌ {ℓ μ ν κ} :
    {S : Type ℓ} {E : Type κ} {A : Type μ} {B : Type ν} → Act S E A → (A → Act S E B) → Act S E B
◌>>=◌ m f s = continue (m s).0 f (m s).1

abbrev pub ◌>>◌ {ℓ ν κ} :
    {S : Type ℓ} {E : Type κ} {B : Type ν} → Act S E (Unit {0}) → Act S E B → Act S E B
m >> k = m >>= λ _. k

-- What a Go function that returns only an `error` gives.
abbrev pub Done : Type 0
Done = Unit {0}

-- A property of the state holds after a sequence if it holds after the first part, and the rest
-- keeps it wherever the first part returned a value.
module _ {ℓ μ ν κ ξ} {S : Type ℓ} {E : Type κ} {A : Type μ} {B : Type ν} (P : S → Type ξ) where
  continue_inv :
      (r : Result E A) (f : A → Act S E B) (s : S)
      → P s
      → ((a : A) → r ≡ ok a → P (f a s).1)
      → P (continue r f s).1
  continue_inv (ok a) f s h k = k a refl
  continue_inv (err e) f s h k = h

  pub bind_inv :
      (m : Act S E A) (f : A → Act S E B) (s : S)
      → P (m s).1
      → ((a : A) → (m s).0 ≡ ok a → P (f a (m s).1).1)
      → P ((m >>= f) s).1
  bind_inv m f s h k = continue_inv (m s).0 f (m s).1 h k

-- A guard leaves the state alone.
pub guard_inv {ℓ ν κ ξ} :
    {S : Type ℓ} {E : Type κ} {B : Type ν} (P : S → Type ξ) (b : Bool) (e : E) (k : Act S E B)
    (s : S)
    → P s
    → P (k s).1
    → P ((fail_if b e >> k) s).1
guard_inv P true e k s h g = h
guard_inv P false e k s h g = g

-- Where a sequence returns a value, its first part has returned one, and the rest returns that
-- value and leaves that state.
module _ {ℓ μ ν κ} {S : Type ℓ} {E : Type κ} {A : Type μ} {B : Type ν} where
  abbrev pub Passed : Act S E A → (A → Act S E B) → S → B → Type (ℓ ⊔ μ ⊔ ν ⊔ κ)
  Passed m f s b =
      (a : A) × ((m s).0 ≡ ok a) × ((f a (m s).1).0 ≡ ok b) × (((m >>= f) s).1 ≡ (f a (m s).1).1)

  continue_ok :
      (r : Result E A) (f : A → Act S E B) (s : S) (b : B)
      → (continue r f s).0 ≡ ok b
      → (a : A) × (r ≡ ok a) × ((f a s).0 ≡ ok b) × ((continue r f s).1 ≡ (f a s).1)
  continue_ok (ok a) f s b h = (a, refl, h, refl)
  continue_ok (err e) f s b h = absurd (cc)

  pub bind_ok :
      (m : Act S E A) (f : A → Act S E B) (s : S) (b : B) → ((m >>= f) s).0 ≡ ok b → Passed m f s b
  bind_ok m f s b h = continue_ok (m s).0 f (m s).1 b h

pub guard_pass {ℓ ν κ} :
    {S : Type ℓ} {E : Type κ} {B : Type ν} (b : Bool) (e : E) (k : Act S E B) (s : S) {v : B}
    → ((fail_if b e >> k) s).0 ≡ ok v
    → (fail_if b e >> k) s ≡ k s
guard_pass true e k s h = absurd (cc)
guard_pass false e k s h = refl

abbrev value_or {μ κ} : {E : Type κ} {A : Type μ} → A → Result E A → A
value_or d (ok a) = a
value_or d (err e) = d

pub ok_injective {μ κ} :
    {E : Type κ} {A : Type μ} {a b : A} → ◌≡◌ {A = Result E A} (ok a) (ok b) → a ≡ b
ok_injective {b = b} h = ap (value_or b) h

pub bind_step {ℓ μ ν κ} :
    {S : Type ℓ} {E : Type κ} {A : Type μ} {B : Type ν} (m : Act S E A) (f : A → Act S E B) (s : S)
    {a : A}
    → (m s).0 ≡ ok a
    → (m >>= f) s ≡ f a (m s).1
bind_step m f s h = ap (λ r. continue r f (m s).1) h

pub wrap_step {ℓ μ κ ξ} :
    {S : Type ℓ} {E : Type κ} {F : Type ξ} {A : Type μ} (f : F → E) (m : Act S F A) (s : S) {a : A}
    → (m s).0 ≡ ok a
    → (wrap f m s).0 ≡ ok a
wrap_step f m s h = rw h refl

pub guard_ok {ℓ ν κ} :
    {S : Type ℓ} {E : Type κ} {B : Type ν} (b : Bool) (e : E) (k : Act S E B) (s : S) {v : B}
    → ((fail_if b e >> k) s).0 ≡ ok v
    → (k s).0 ≡ ok v
guard_ok true e k s h = absurd (cc)
guard_ok false e k s h = h

unwrap_result {μ κ ξ} :
    {E : Type κ} {F : Type ξ} {A : Type μ} (f : F → E) (r : Result F A) (a : A)
    → elim r [ ok b ↦ ok b | err e ↦ err (f e) ] ≡ ok a
    → r ≡ ok a
unwrap_result f (ok b) a h = ground arith
unwrap_result f (err e) a h = absurd (cc)

pub unwrap_ok {ℓ μ κ ξ} :
    {S : Type ℓ} {E : Type κ} {F : Type ξ} {A : Type μ} (f : F → E) (m : Act S F A) (s : S) {a : A}
    → (wrap f m s).0 ≡ ok a
    → (m s).0 ≡ ok a
unwrap_ok f m s {a} h = unwrap_result f (m s).0 a h
