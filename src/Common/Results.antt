-- ===== src/Common/Results.antt =====
-- A computation that may raise.

pub data Result {ℓ κ} (E : Type ℓ) (A : Type κ) : Type (ℓ ⊔ κ) where
  ok : A → Result E A
  err : E → Result E A

infixl 5 ◌>>=◌ ◌>>◌
abbrev pub ◌>>=◌ {ℓ κ μ} :
    {E : Type ℓ} {A : Type κ} {B : Type μ} → Result E A → (A → Result E B) → Result E B
ok a >>= f = f a
err e >>= f = err e

abbrev pub ◌>>◌ {ℓ κ μ} :
    {E : Type ℓ} {A : Type κ} {B : Type μ} → Result E A → Result E B → Result E B
m >> k = m >>= λ _. k

-- What holds of the value, if nothing was raised.
abbrev pub Holds {ℓ κ μ} : {E : Type ℓ} {A : Type κ} → (A → Type μ) → Result E A → Type μ
Holds P (ok a) = P a
Holds P (err e) = Unit

module _ {ℓ κ μ ν ξ} {E : Type ℓ} {A : Type κ} {B : Type ν} (P : A → Type μ) (Q : B → Type ξ) where
  pub Holds-bind :
      (m : Result E A) (f : A → Result E B)
      → Holds P m
      → ((a : A) → P a → Holds Q (f a))
      → Holds Q (m >>= f)
  Holds-bind (ok a) f h k = k a h
  Holds-bind (err e) f h k = tt

pub Holds-map {ℓ κ μ ν} :
    {E : Type ℓ} {A : Type κ} (P : A → Type μ) (Q : A → Type ν) (m : Result E A)
    → ((a : A) → P a → Q a)
    → Holds P m
    → Holds Q m
Holds-map P Q (ok a) f h = f a h
Holds-map P Q (err e) f h = tt
