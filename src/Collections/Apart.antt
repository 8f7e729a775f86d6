-- ===== src/Collections/Apart.antt =====
-- The tests on lists of identifiers, up to the order of the lists
-- (collections/model.py and collections/service.py).
use mathlib.Core.List.{Permᴰ}
use clipgauge.Common.{
  ℕ, String, ◌≡◌, refl, ◌∙◌, ◌||◌, List, [], ◌∷◌, ◌++◌, arith, sort_by, text_sym, sort_by-Permᴰ,
}
use clipgauge.Collections.{contains, are_unique, all_in}
use clipgauge.Collections.Smart.{intersects}

contains-Permᴰ : (s : String) {xs ys : List String} → Permᴰ xs ys → contains xs s ≡ contains ys s
contains-Permᴰ s Permᴰ.nil = refl
contains-Permᴰ s (Permᴰ.cons e p) = rw (e, contains-Permᴰ s p) refl
contains-Permᴰ s (Permᴰ.swap e d) = rw (e, d) (ground arith)
contains-Permᴰ s (Permᴰ.trans p q) = contains-Permᴰ s p ∙ contains-Permᴰ s q

are_unique-Permᴰ : {xs ys : List String} → Permᴰ xs ys → are_unique xs ≡ are_unique ys
are_unique-Permᴰ Permᴰ.nil = refl
are_unique-Permᴰ (Permᴰ.cons {b = b} e p) = rw (e, contains-Permᴰ b p, are_unique-Permᴰ p) refl
are_unique-Permᴰ (Permᴰ.swap {a' = a'} {b' = b'} e d) = rw (e, d, text_sym a' b') (ground arith)
are_unique-Permᴰ (Permᴰ.trans p q) = are_unique-Permᴰ p ∙ are_unique-Permᴰ q

all_in-Permᴰ :
    (valid : List String) {xs ys : List String} → Permᴰ xs ys → all_in valid xs ≡ all_in valid ys
all_in-Permᴰ valid Permᴰ.nil = refl
all_in-Permᴰ valid (Permᴰ.cons e p) = rw (e, all_in-Permᴰ valid p) refl
all_in-Permᴰ valid (Permᴰ.swap e d) = rw (e, d) (ground arith)
all_in-Permᴰ valid (Permᴰ.trans p q) = all_in-Permᴰ valid p ∙ all_in-Permᴰ valid q

intersects-right :
    (seen : List String) {xs ys : List String}
    → Permᴰ xs ys
    → intersects seen xs ≡ intersects seen ys
intersects-right seen Permᴰ.nil = refl
intersects-right seen (Permᴰ.cons e p) = rw (e, intersects-right seen p) refl
intersects-right seen (Permᴰ.swap e d) = rw (e, d) (ground arith)
intersects-right seen (Permᴰ.trans p q) = intersects-right seen p ∙ intersects-right seen q

intersects-left :
    {xs ys : List String} (zs : List String) → Permᴰ xs ys → intersects xs zs ≡ intersects ys zs
intersects-left [] p = refl
intersects-left (z ∷ zs) p = rw (contains-Permᴰ z p, intersects-left zs p) refl

contains-append :
    (xs ys : List String) (s : String) → contains (xs ++ ys) s ≡ (contains xs s || contains ys s)
contains-append [] ys s = refl
contains-append (x ∷ xs) ys s = ground (arith, contains-append xs ys s)

-- What meets neither of two lists does not meet the two together, and conversely.
pub intersects-append :
    (xs ys zs : List String) → intersects (xs ++ ys) zs ≡ (intersects xs zs || intersects ys zs)
intersects-append xs ys [] = refl
intersects-append xs ys (z ∷ zs) =
    ground (arith, contains-append xs ys z, intersects-append xs ys zs)

-- Sorting the clips of a collection changes none of the tests.
module _ (key : String → ℕ) (ids : List String) where
  pub are_unique-sort_by : are_unique (sort_by key ids) ≡ are_unique ids
  are_unique-sort_by = are_unique-Permᴰ (sort_by-Permᴰ key ids)

  pub all_in-sort_by : (valid : List String) → all_in valid (sort_by key ids) ≡ all_in valid ids
  all_in-sort_by valid = all_in-Permᴰ valid (sort_by-Permᴰ key ids)

  pub intersects-sort_by :
      (seen : List String) → intersects seen (sort_by key ids) ≡ intersects seen ids
  intersects-sort_by seen = intersects-right seen (sort_by-Permᴰ key ids)

  pub sort_by-intersects :
      (others : List String) → intersects (sort_by key ids) others ≡ intersects ids others
  sort_by-intersects others = intersects-left others (sort_by-Permᴰ key ids)
