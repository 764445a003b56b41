-- ===== src/Prelude/Exec.antt =====
-- Methods that change a state and may fail: what was written before an error stays written.
use at.Prelude.Result.{Error, Result, ok, err, panic}
use mathlib.Core.Logic.{◌⊎◌, inl, inr}
use mathlib.Core.Path.{◌≡◌, refl}

abbrev pub Exec {ℓ κ} : Type ℓ → Type κ → Type (ℓ ⊔ κ)
Exec S A = S → Result A × S

module _ {ℓ κ} {S : Type ℓ} {A : Type κ} where
  abbrev pub pure : A → Exec S A
  pure a s = (ok a, s)

  abbrev pub throw : Error → Exec S A
  throw x s = (err x, s)

  abbrev pub lift : Result A → Exec S A
  lift r s = (r, s)

  abbrev pub gets : (S → A) → Exec S A
  gets f s = (ok (f s), s)

abbrev pub modify {ℓ} : {S : Type ℓ} → (S → S) → Exec S (Unit {0})
modify f s = (ok tt, f s)

module _ {ℓ κ μ} {S : Type ℓ} {A : Type κ} {B : Type μ} where
  abbrev pub continue : Result A → S → (A → Exec S B) → Result B × S
  continue (ok a) s f = f a s
  continue (err x) s f = (err x, s)
  continue panic s f = (panic, s)

  infixl 5 ◌>>=◌ ◌>>◌
  abbrev pub ◌>>=◌ : Exec S A → (A → Exec S B) → Exec S B
  ◌>>=◌ m f s = continue (m s).0 (m s).1 f

  abbrev pub ◌>>◌ : Exec S A → Exec S B → Exec S B
  ◌>>◌ m k s = continue (m s).0 (m s).1 (λ _. k)

  -- Inversion of a step that succeeds.
  pub continue-eq-ok :
      (r : Result A) (s : S) (f : A → Exec S B) (b : B)
      → (continue r s f).0 ≡ ok b
      → (a : A) × (r ≡ ok a) × ((f a s).0 ≡ ok b) × (continue r s f ≡ f a s)
  continue-eq-ok (ok a) s f b h = (a, refl, h, refl)
  continue-eq-ok (err x) s f b h = cc
  continue-eq-ok panic s f b h = cc

  -- Inversion of a step that fails.
  pub continue-eq-err :
      (r : Result A) (s : S) (f : A → Exec S B) (x : Error)
      → (continue r s f).0 ≡ err x
      → ((r ≡ err x) × ((continue r s f).1 ≡ s))
        ⊎ ((a : A) × (r ≡ ok a) × ((f a s).0 ≡ err x) × (continue r s f ≡ f a s))
  continue-eq-err (ok a) s f x h = inr (a, refl, h, refl)
  continue-eq-err (err y) s f x h = inl (cc, refl)
  continue-eq-err panic s f x h = cc

-- Two binds in a row nest either way.
pub continue_assoc {ℓ κ μ ν} :
    {S : Type ℓ} {A : Type κ} {B : Type μ} {C : Type ν} (r : Result A) (s : S) (f : A → Exec S B)
    (g : B → Exec S C)
    → continue (continue r s f).0 (continue r s f).1 g
      ≡ continue r s (λ a s'. continue (f a s').0 (f a s').1 g)
continue_assoc (ok a) s f g = refl
continue_assoc (err x) s f g = refl
continue_assoc panic s f g = refl
