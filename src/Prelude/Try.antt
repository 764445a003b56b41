-- ===== src/Prelude/Try.antt =====
-- The outcome of a Go function that returns an error or a value and does not panic.
use mathlib.Core.Path.{◌≡◌, refl}

pub data Try {ℓ κ} (X : Type ℓ) (A : Type κ) : Type (ℓ ⊔ κ) where
  fails : X → Try X A
  gives : A → Try X A

infixl 5 ◌>>=◌
abbrev pub ◌>>=◌ {ℓ κ μ} :
    {X : Type ℓ} {A : Type κ} {B : Type μ} → Try X A → (A → Try X B) → Try X B
fails x >>= f = fails x
gives a >>= f = f a

pub >>=-eq-gives {ℓ κ μ} :
    {X : Type ℓ} {A : Type κ} {B : Type μ} (r : Try X A) (f : A → Try X B) {b : B}
    → r >>= f ≡ gives b
    → (a : A) × (r ≡ gives a) × (f a ≡ gives b)
>>=-eq-gives (fails x) f h = cc
>>=-eq-gives (gives a) f h = (a, refl, h)

-- `if err != nil { return nil, wrap(err) }`
abbrev pub map_error {ℓ κ μ} : {X : Type ℓ} {Y : Type κ} {A : Type μ} → (X → Y) → Try X A → Try Y A
map_error f (fails x) = fails (f x)
map_error f (gives a) = gives a

abbrev given_or {ℓ κ} : {X : Type ℓ} {A : Type κ} → A → Try X A → A
given_or d (fails x) = d
given_or d (gives a) = a

pub gives_injective {ℓ κ} :
    {X : Type ℓ} {A : Type κ} {a b : A} → ◌≡◌ {A = Try X A} (gives a) (gives b) → a ≡ b
gives_injective {a = a} h i = given_or a (h i)

pub map_error-eq-gives {ℓ κ μ} :
    {X : Type ℓ} {Y : Type κ} {A : Type μ} (f : X → Y) (r : Try X A) {a : A}
    → map_error f r ≡ gives a
    → r ≡ gives a
map_error-eq-gives f (fails x) h = cc
map_error-eq-gives f (gives b) h = λ i. gives (gives_injective h i)
