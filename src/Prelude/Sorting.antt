-- ===== src/Prelude/Sorting.antt =====
-- A stable sort: an element goes behind those that are not above it.
use Prim.Native.Nat.{suc}
use mathlib.Core.Path.{◌≡◌, refl, sym, ap, subst, ◌∙◌}
use mathlib.Core.Logic.{◌⊎◌, inl, inr}
use mathlib.Core.Bool.{Bool, true, false}
use mathlib.Core.List.{List, [], ◌∷◌, Memᴰ}
use mathlib.Core.List.Memᴰ.{head, tail}
use native.Mathlib.Omega.{arith}
use package.mc_router.Prelude.Lists.{length, select}

module _ {ℓ} {A : Type ℓ} (less : A → A → Bool) where
  unfoldable pub insert_sorted : A → List A → List A
  insert_sorted x [] = x ∷ []
  insert_sorted x (y ∷ ys) = elim (less y x) [ true ↦ y ∷ insert_sorted x ys | false ↦ x ∷ y ∷ ys ]

  unfoldable pub sort_stable : List A → List A
  sort_stable [] = []
  sort_stable (x ∷ xs) = insert_sorted x (sort_stable xs)

  length-insert_sorted : (x : A) (xs : List A) → length (insert_sorted x xs) ≡ suc (length xs)
  unfolding insert_sorted
  length-insert_sorted x [] = refl
  length-insert_sorted x (y ∷ ys) = ground (arith, length-insert_sorted x ys)

  pub length-sort_stable : (xs : List A) → length (sort_stable xs) ≡ length xs
  unfolding sort_stable
  length-sort_stable [] = refl
  length-sort_stable (x ∷ xs) =
      length-insert_sorted x (sort_stable xs) ∙ ap (λ n. suc n) (length-sort_stable xs)

  insert_sorted-cons :
      (x y : A) (ys : List A)
      → (insert_sorted x (y ∷ ys) ≡ y ∷ insert_sorted x ys)
        ⊎ (insert_sorted x (y ∷ ys) ≡ x ∷ y ∷ ys)
  unfolding insert_sorted
  insert_sorted-cons x y ys = ground arith

  Memᴰ-insert_sorted : (a x : A) (xs : List A) → Memᴰ a (insert_sorted x xs) → Memᴰ a (x ∷ xs)
  unfolding insert_sorted
  Memᴰ-insert_sorted a x [] m = m
  Memᴰ-insert_sorted a x (y ∷ ys) m = elim (insert_sorted-cons x y ys) [
    | inl later ↦ elim (subst (Memᴰ a) later m) [
      | head e ↦ tail (head e)
      | tail m' ↦ elim (Memᴰ-insert_sorted a x ys m') [
        | head e ↦ head e
        | tail m'' ↦ tail (tail m'')
      ]
    ]
    | inr here ↦ subst (Memᴰ a) here m
  ]

  pub Memᴰ-sort_stable : (a : A) (xs : List A) → Memᴰ a (sort_stable xs) → Memᴰ a xs
  unfolding sort_stable
  Memᴰ-sort_stable a [] m = m
  Memᴰ-sort_stable a (x ∷ xs) m = elim (Memᴰ-insert_sorted a x (sort_stable xs) m) [
    | head e ↦ head e
    | tail m' ↦ tail (Memᴰ-sort_stable a xs m')
  ]

  Memᴰ-insert_sorted_back : (a x : A) (xs : List A) → Memᴰ a (x ∷ xs) → Memᴰ a (insert_sorted x xs)
  unfolding insert_sorted
  Memᴰ-insert_sorted_back a x [] m = m
  Memᴰ-insert_sorted_back a x (y ∷ ys) m = elim (insert_sorted-cons x y ys) [
    | inr here ↦ subst (Memᴰ a) (sym here) m
    | inl later ↦ subst (Memᴰ a) (sym later) (elim m [
      | head e ↦ tail (Memᴰ-insert_sorted_back a x ys (head e))
      | tail (head e) ↦ head e
      | tail (tail m') ↦ tail (Memᴰ-insert_sorted_back a x ys (tail m'))
    ])
  ]

  pub Memᴰ-sort_stable_back : (a : A) (xs : List A) → Memᴰ a xs → Memᴰ a (sort_stable xs)
  unfolding sort_stable
  Memᴰ-sort_stable_back a [] m = m
  Memᴰ-sort_stable_back a (x ∷ xs) (head e) = Memᴰ-insert_sorted_back a x (sort_stable xs) (head e)
  Memᴰ-sort_stable_back a (x ∷ xs) (tail m) =
      Memᴰ-insert_sorted_back a x (sort_stable xs) (tail (Memᴰ-sort_stable_back a xs m))

  occurring-insert_sorted :
      (p : A → Bool) (x : A) (xs : List A)
      → length (select p (insert_sorted x xs)) ≡ length (select p (x ∷ xs))
  unfolding insert_sorted
  occurring-insert_sorted p x [] = refl
  occurring-insert_sorted p x (y ∷ ys) = elim (insert_sorted-cons x y ys) [
    | inr here ↦ ap (λ l. length (select p l)) here
    | inl later ↦
        ap (λ l. length (select p l)) later ∙ ground (arith, occurring-insert_sorted p x ys)
  ]

  -- Sorting keeps how many elements pass a test.
  pub occurring-sort_stable :
      (p : A → Bool) (xs : List A) → length (select p (sort_stable xs)) ≡ length (select p xs)
  unfolding sort_stable
  occurring-sort_stable p [] = refl
  occurring-sort_stable p (x ∷ xs) =
      occurring-insert_sorted p x (sort_stable xs) ∙ ground (arith, occurring-sort_stable p xs)
