-- ===== src/Common/Keyed.antt =====
-- A dictionary by texts, in the order in which the keys came.
use Prim.Native.String.{String}
use mathlib.Core.Path.{◌≡◌, refl, subst}
use mathlib.Core.Logic.{inl, inr}
use mathlib.Core.Bool.{false}
use mathlib.Core.Option.{Option, none, some}
use native.Mathlib.Omega.{arith}
use text.Mathlib.TextEquality.{eq_iff}
use text.Mathlib.TextPositions.{eq_refl}
use clipgauge.Common.Tests.{◌=s=◌, if◌then◌else◌, if_ind, Bool-cases}

pub data Table {ℓ} (A : Type ℓ) : Type ℓ where
  empty : Table A
  row : String → A → Table A → Table A

module _ {ℓ} {A : Type ℓ} where
  -- `d.get(k)`
  unfoldable pub lookup : Table A → String → Option A
  lookup empty k = none
  lookup (row j v t) k = if j =s= k then some v else lookup t k

  -- `d[k] = v`
  unfoldable pub store : Table A → String → A → Table A
  store empty k v = row k v empty
  store (row j w t) k v = if j =s= k then row j v t else row j w (store t k v)

  -- `d.pop(k, None)`
  unfoldable pub drop_key : Table A → String → Table A
  drop_key empty k = empty
  drop_key (row j w t) k = let rest = drop_key t k in if j =s= k then rest else row j w rest

  pub lookup-store :
      (t : Table A) (k j : String) (v : A)
      → lookup (store t k v) j ≡ (if k =s= j then some v else lookup t j)
  unfolding lookup store
  lookup-store empty k j v = refl
  lookup-store (row i w t) k j v =
      ground (arith, eq_iff k j, eq_iff i k, eq_iff i j, lookup-store t k j v)

  pub lookup-store_same : (t : Table A) (k : String) (v : A) → lookup (store t k v) k ≡ some v
  lookup-store_same t k v = rw (lookup-store t k k v, eq_refl k) refl

  pub lookup-store_other :
      (t : Table A) (k j : String) (v : A) → (k =s= j) ≡ false → lookup (store t k v) j ≡ lookup t j
  lookup-store_other t k j v ne = rw (lookup-store t k j v, ne) refl

  pub lookup-drop_key :
      (t : Table A) (k j : String)
      → lookup (drop_key t k) j ≡ (if k =s= j then none else lookup t j)
  unfolding lookup drop_key
  lookup-drop_key empty k j = ground arith
  lookup-drop_key (row i w t) k j =
      ground (arith, eq_iff k j, eq_iff i k, eq_iff i j, lookup-drop_key t k j)

-- Every value of the dictionary satisfies the predicate.
abbrev pub AllRows {ℓ κ} : {A : Type ℓ} → (A → Type κ) → Table A → Type κ
AllRows P empty = Unit
AllRows P (row k v t) = P v × AllRows P t

module _ {ℓ κ} {A : Type ℓ} (P : A → Type κ) where
  pub lookup-AllRows : (t : Table A) (k : String) (v : A) → AllRows P t → lookup t k ≡ some v → P v
  unfolding lookup
  lookup-AllRows empty k v h e = ground arith
  lookup-AllRows (row j w t) k v h e = elim (Bool-cases (j =s= k)) [
    | inl same ↦ subst P (ground (arith, same, e)) h.0
    | inr other ↦ lookup-AllRows t k v h.1 (ground (arith, other, e))
  ]

  pub store-AllRows :
      (t : Table A) (k : String) (v : A) → AllRows P t → P v → AllRows P (store t k v)
  unfolding store
  store-AllRows empty k v h p = (p, tt)
  store-AllRows (row j w t) k v h p =
      if_ind (AllRows P) (j =s= k) (λ _. (p, h.1)) (λ _. (h.0, store-AllRows t k v h.1 p))
