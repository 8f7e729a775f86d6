-- ===== src/Common/Sorting.antt =====
-- Stable sorting by a key, as Python's `list.sort(key=…)` does it, and what it keeps.
use Prim.Native.Nat.{ℕ, ◌≤◌}
use mathlib.Core.Path.{◌≡◌, refl, sym, ◌∙◌, subst}
use mathlib.Core.List.{List, [], ◌∷◌, ◌++◌, append-nil, append_assoc, Permᴰ}
use mathlib.Core.List.Permᴰ
use native.Mathlib.Omega.{arith}
use clipgauge.Common.Tests.{ltb, if◌then◌else◌, if_ind, ltb→lt}
use clipgauge.Common.Lists.{All, All-append}

module _ {ℓ} {A : Type ℓ} (key : A → ℕ) where
  -- Before the first item with a larger key.
  insert_by : A → List A → List A
  insert_by a [] = a ∷ []
  insert_by a (b ∷ bs) =
      let rest = insert_by a bs in if ltb (key a) (key b) then a ∷ b ∷ bs else b ∷ rest

  insert_all : List A → List A → List A
  insert_all done [] = done
  insert_all done (a ∷ as') = insert_all (insert_by a done) as'

  unfoldable pub sort_by : List A → List A
  unfolding insert_by insert_all
  sort_by = insert_all []

  abbrev pub SortedBy : List A → Type 0
  SortedBy [] = Unit
  SortedBy (a ∷ as') = All (λ b. key a ≤ key b) as' × SortedBy as'

  module _ {κ} (P : A → Type κ) where
    insert_by-All : (a : A) (bs : List A) → P a → All P bs → All P (insert_by a bs)
    unfolding insert_by
    insert_by-All a [] p h = (p, tt)
    insert_by-All a (b ∷ bs) p h =
        if_ind (All P) (ltb (key a) (key b)) (λ _. (p, h)) (λ _. (h.0, insert_by-All a bs p h.1))

    insert_all-All : (done as' : List A) → All P done → All P as' → All P (insert_all done as')
    unfolding insert_all
    insert_all-All done [] h k = h
    insert_all-All done (a ∷ as') h k =
        insert_all-All (insert_by a done) as' (insert_by-All a done k.0 h) k.1

    pub sort_by-All : (as' : List A) → All P as' → All P (sort_by as')
    unfolding sort_by
    sort_by-All as' h = insert_all-All [] as' tt h

  All-le_trans :
      (a b : A) (bs : List A)
      → key a ≤ key b
      → All (λ c. key b ≤ key c) bs
      → All (λ c. key a ≤ key c) bs
  All-le_trans a b [] h k = tt
  All-le_trans a b (c ∷ bs) h k = (omega arith, All-le_trans a b bs h k.1)

  insert_by-SortedBy : (a : A) (bs : List A) → SortedBy bs → SortedBy (insert_by a bs)
  unfolding insert_by
  insert_by-SortedBy a [] s = (tt, tt)
  insert_by-SortedBy a (b ∷ bs) s =
      if_ind SortedBy (ltb (key a) (key b))
        (λ lt. (
          (
            omega (arith, ltb→lt (key a) (key b) lt),
            All-le_trans a b bs (omega (arith, ltb→lt (key a) (key b) lt)) s.0,
          ),
          s,
        ))
        (λ ge.
          (insert_by-All (λ c. key b ≤ key c) a bs (ground arith) s.0, insert_by-SortedBy a bs s.1))

  insert_all-SortedBy : (done as' : List A) → SortedBy done → SortedBy (insert_all done as')
  unfolding insert_all
  insert_all-SortedBy done [] s = s
  insert_all-SortedBy done (a ∷ as') s =
      insert_all-SortedBy (insert_by a done) as' (insert_by-SortedBy a done s)

  pub sort_by-SortedBy : (as' : List A) → SortedBy (sort_by as')
  unfolding sort_by
  sort_by-SortedBy as' = insert_all-SortedBy [] as' tt

  insert_by-Permᴰ : (a : A) (bs : List A) → Permᴰ (insert_by a bs) (a ∷ bs)
  unfolding insert_by
  insert_by-Permᴰ a [] = Permᴰ.refl (a ∷ [])
  insert_by-Permᴰ a (b ∷ bs) =
      if_ind (λ xs. Permᴰ xs (a ∷ b ∷ bs)) (ltb (key a) (key b)) (λ _. Permᴰ.refl (a ∷ b ∷ bs))
        (λ _. Permᴰ.trans (Permᴰ.cons refl (insert_by-Permᴰ a bs)) (Permᴰ.swap refl refl))

  insert_all-Permᴰ : (done as' : List A) → Permᴰ (insert_all done as') (as' ++ done)
  unfolding insert_all
  insert_all-Permᴰ done [] = Permᴰ.refl done
  insert_all-Permᴰ done (a ∷ as') =
      Permᴰ.trans (insert_all-Permᴰ (insert_by a done) as')
        (Permᴰ.trans (behind as' (insert_by-Permᴰ a done)) (to_front as'))
    where
      behind : (xs : List A) {ys zs : List A} → Permᴰ ys zs → Permᴰ (xs ++ ys) (xs ++ zs)
      behind [] p = p
      behind (x ∷ xs) p = Permᴰ.cons refl (behind xs p)

      to_front : (xs : List A) → Permᴰ (xs ++ a ∷ done) (a ∷ xs ++ done)
      to_front [] = Permᴰ.refl (a ∷ done)
      to_front (x ∷ xs) = Permᴰ.trans (Permᴰ.cons refl (to_front xs)) (Permᴰ.swap refl refl)

  pub sort_by-Permᴰ : (as' : List A) → Permᴰ (sort_by as') as'
  unfolding sort_by
  sort_by-Permᴰ as' = subst (Permᴰ (insert_all [] as')) (append-nil as') (insert_all-Permᴰ [] as')

  insert_by_end :
      (a : A) (bs : List A) → All (λ b. key b ≤ key a) bs → insert_by a bs ≡ bs ++ a ∷ []
  unfolding insert_by
  insert_by_end a [] h = refl
  insert_by_end a (b ∷ bs) h = ground (arith, h.0, insert_by_end a bs h.1)

  insert_all_sorted :
      (done as' : List A)
      → SortedBy as'
      → All (λ a. All (λ b. key b ≤ key a) done) as'
      → insert_all done as' ≡ done ++ as'
  unfolding insert_all
  insert_all_sorted done [] s h = sym (append-nil done)
  insert_all_sorted done (a ∷ as') s h = rw (insert_by_end a done h.0) (
      insert_all_sorted (done ++ a ∷ []) as' s.1 (with_last as' s.0 h.1)
      ∙ append_assoc done (a ∷ []) as')
    where
      with_last :
          (cs : List A)
          → All (λ c. key a ≤ key c) cs
          → All (λ c. All (λ b. key b ≤ key c) done) cs
          → All (λ c. All (λ b. key b ≤ key c) (done ++ a ∷ [])) cs
      with_last [] f g = tt
      with_last (c ∷ cs) f g =
          (All-append (λ b. key b ≤ key c) done (a ∷ []) g.0 (f.0, tt), with_last cs f.1 g.1)

  -- A list in order stays as it is.
  pub sort_by-sorted : (as' : List A) → SortedBy as' → sort_by as' ≡ as'
  unfolding sort_by
  sort_by-sorted as' s = insert_all_sorted [] as' s (nothing as')
    where
      nothing : (cs : List A) → All (λ c. All (λ b. key b ≤ key c) []) cs
      nothing [] = tt
      nothing (c ∷ cs) = (tt, nothing cs)
