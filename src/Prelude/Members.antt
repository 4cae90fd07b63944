-- ===== src/Prelude/Members.antt =====
-- Where the elements of a list stand.
use mathlib.Core.Path.{◌≡◌, refl, sym, ap, ◌∙◌}
use mathlib.Core.Logic.{◌⊎◌, inl, inr}
use mathlib.Core.Bool.{Bool, true}
use mathlib.Core.List.{List, [], ◌∷◌, ◌++◌, Memᴰ}
use mathlib.Core.List.Memᴰ.{head, tail}
use package.mc_router.Prelude.Tests.{Bool-cases}
use package.mc_router.Prelude.Lists.{select}

module _ {ℓ} {A : Type ℓ} where
  pub Memᴰ-append : (xs ys : List A) (a : A) → Memᴰ a (xs ++ ys) → Memᴰ a xs ⊎ Memᴰ a ys
  Memᴰ-append [] ys a m = inr m
  Memᴰ-append (x ∷ xs) ys a (head e) = inl (head e)
  Memᴰ-append (x ∷ xs) ys a (tail m) = elim (Memᴰ-append xs ys a m) [
    | inl l ↦ inl (tail l)
    | inr r ↦ inr r
  ]

  pub Memᴰ-append_left : (a : A) (xs ys : List A) → Memᴰ a xs → Memᴰ a (xs ++ ys)
  Memᴰ-append_left a [] ys m = elim m [ ]
  Memᴰ-append_left a (x ∷ xs) ys (head e) = head e
  Memᴰ-append_left a (x ∷ xs) ys (tail m) = tail (Memᴰ-append_left a xs ys m)

  pub Memᴰ-append_last : (a : A) (xs : List A) → Memᴰ a (xs ++ (a ∷ []))
  Memᴰ-append_last a [] = head refl
  Memᴰ-append_last a (x ∷ xs) = tail (Memᴰ-append_last a xs)

  pub Memᴰ-select :
      (p : A → Bool) (a : A) (xs : List A) → p a ≡ true → Memᴰ a xs → Memᴰ a (select p xs)
  Memᴰ-select p a [] h m = elim m [ ]
  Memᴰ-select p a (x ∷ xs) h (head same) =
      let first : p x ≡ true = ap p (sym same) ∙ h in rw first (head same)
  Memᴰ-select p a (x ∷ xs) h (tail m) = elim (Bool-cases (p x)) [
    | inl e ↦ rw e (tail (Memᴰ-select p a xs h m))
    | inr e ↦ rw e (Memᴰ-select p a xs h m)
  ]
