-- ===== src/Prelude/Keys.antt =====
-- Maps in which each key stands once.
use mathlib.Core.Path.{◌≡◌, refl, subst}
use mathlib.Core.Logic.{◌≢◌, inl, inr}
use mathlib.Core.List.{List, [], ◌∷◌, ◌++◌}
use mathlib.Core.Option.{some}
use native.Mathlib.Omega.{arith}
use package.mc_router.Prelude.Tests.{Eq, ◌==◌, Bool-cases}
use package.mc_router.Prelude.Lists.{All}
use package.mc_router.Prelude.Maps.{lookup, insert, erase}

module _ {ℓ κ} {K : Type ℓ} {V : Type κ} ⦃e : Eq K⦄ where
  abbrev pub Fresh : K → List (K × V) → Type ℓ
  Fresh k [] = Unit
  Fresh k ((j, v) ∷ m) = (j ≢ k) × Fresh k m

  abbrev pub Unique : List (K × V) → Type ℓ
  Unique [] = Unit
  Unique ((k, v) ∷ m) = Fresh k m × Unique m

  Fresh-insert : (k j : K) (v : V) (m : List (K × V)) → k ≢ j → Fresh j m → Fresh j (insert k v m)
  unfolding insert
  Fresh-insert k j v [] d h = (d, tt)
  Fresh-insert k j v ((i, w) ∷ m) d (c, h) = elim (Bool-cases (i == k)) [
    | inl b ↦ rw (b) (d, h)
    | inr b ↦ rw (b) (c, Fresh-insert k j v m d h)
  ]

  Fresh-erase : (k j : K) (m : List (K × V)) → Fresh j m → Fresh j (erase k m)
  unfolding erase
  Fresh-erase k j [] h = tt
  Fresh-erase k j ((i, w) ∷ m) (c, h) = elim (Bool-cases (i == k)) [
    | inl b ↦ rw (b) (Fresh-erase k j m h)
    | inr b ↦ rw (b) (c, Fresh-erase k j m h)
  ]

  pub insert-Unique : (k : K) (v : V) (m : List (K × V)) → Unique m → Unique (insert k v m)
  unfolding insert
  insert-Unique k v [] h = (tt, tt)
  insert-Unique k v ((i, w) ∷ m) (f, h) = elim (Bool-cases (i == k)) [
    | inl b ↦ let same : i ≡ k = (e.beq_iff i k).0 b in rw (b) (subst (λ x. Fresh x m) same f, h)
    | inr b ↦
        rw (b)
          (Fresh-insert k i v m (λ q. ground (arith, e.beq_iff i k, b, q)) f, insert-Unique k v m h)
  ]

  pub erase-Unique : (k : K) (m : List (K × V)) → Unique m → Unique (erase k m)
  unfolding erase
  erase-Unique k [] h = tt
  erase-Unique k ((i, w) ∷ m) (f, h) = elim (Bool-cases (i == k)) [
    | inl b ↦ rw (b) (erase-Unique k m h)
    | inr b ↦ rw (b) (Fresh-erase k i m f, erase-Unique k m h)
  ]

  erase-Fresh : (k : K) (m : List (K × V)) → Fresh k m → erase k m ≡ m
  unfolding erase
  erase-Fresh k [] h = refl
  erase-Fresh k ((i, w) ∷ m) (c, h) = ground (arith, e.beq_iff i k, c, erase-Fresh k m h)

  pub lookup-append_Fresh :
      (k : K) (v : V) (a b : List (K × V)) → Fresh k a → lookup k (a ++ ((k, v) ∷ b)) ≡ some v
  unfolding lookup
  lookup-append_Fresh k v [] b h = ground (arith, e.beq_iff k k)
  lookup-append_Fresh k v ((i, w) ∷ a) b (c, h) =
      ground (arith, e.beq_iff i k, c, lookup-append_Fresh k v a b h)

  pub erase-append_Fresh :
      (k : K) (v : V) (a b : List (K × V))
      → Fresh k a
      → Fresh k b
      → erase k (a ++ ((k, v) ∷ b)) ≡ a ++ b
  unfolding erase
  erase-append_Fresh k v [] b h f = ground (arith, e.beq_iff k k, erase-Fresh k b f)
  erase-append_Fresh k v ((i, w) ∷ a) b (c, h) f =
      ground (arith, e.beq_iff i k, c, erase-append_Fresh k v a b h f)

  module _ {μ} (P : K × V → Type μ) where
    pub All-insert : (k : K) (v : V) (m : List (K × V)) → P (k, v) → All P m → All P (insert k v m)
    unfolding insert
    All-insert k v [] p h = (p, tt)
    All-insert k v ((i, w) ∷ m) p (q, h) = elim (Bool-cases (i == k)) [
      | inl b ↦ rw (b) (p, h)
      | inr b ↦ rw (b) (q, All-insert k v m p h)
    ]

    pub All-erase : (k : K) (m : List (K × V)) → All P m → All P (erase k m)
    unfolding erase
    All-erase k [] h = tt
    All-erase k ((i, w) ∷ m) (q, h) = elim (Bool-cases (i == k)) [
      | inl b ↦ rw (b) (All-erase k m h)
      | inr b ↦ rw (b) (q, All-erase k m h)
    ]
