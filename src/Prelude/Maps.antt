-- ===== src/Prelude/Maps.antt =====
-- A Go map as an association list in which each key stands once. Iteration follows the list; where
-- the program's result could depend on Go's random order, the theorem is stated for any list.
use Prim.Native.Nat.{◌+◌, ◌≤◌, ◌<◌}
use mathlib.Core.Path.{◌≡◌, refl}
use mathlib.Core.Logic.{◌≢◌}
use mathlib.Core.List.{List, [], ◌∷◌}
use mathlib.Core.Option.{Option, none, some}
use native.Mathlib.Omega.{arith}
use package.mc_router.Prelude.Tests.{Eq, ◌==◌, if◌then◌else◌}
use package.mc_router.Prelude.Lists.{length}

module _ {ℓ κ} {K : Type ℓ} {V : Type κ} ⦃e : Eq K⦄ where
  unfoldable pub lookup : K → List (K × V) → Option V
  lookup k [] = none
  lookup k ((j, v) ∷ m) = if j == k then some v else lookup k m

  -- m[k] = v
  unfoldable pub insert : K → V → List (K × V) → List (K × V)
  insert k v [] = (k, v) ∷ []
  insert k v ((j, w) ∷ rest) = if j == k then (k, v) ∷ rest else (j, w) ∷ insert k v rest

  -- delete(m, k)
  unfoldable pub erase : K → List (K × V) → List (K × V)
  erase k [] = []
  erase k ((j, v) ∷ m) = let rest = erase k m in if j == k then rest else (j, v) ∷ rest

  pub lookup-insert :
      (k j : K) (v : V) (m : List (K × V))
      → lookup j (insert k v m) ≡ (if k == j then some v else lookup j m)
  unfolding lookup insert
  lookup-insert key j v [] = refl
  lookup-insert key j v ((i, w) ∷ table) =
      ground (arith, e.beq_iff key j, e.beq_iff i key, e.beq_iff i j, lookup-insert key j v table)

  pub lookup-erase :
      (k j : K) (m : List (K × V)) → lookup j (erase k m) ≡ (if k == j then none else lookup j m)
  unfolding lookup erase
  lookup-erase k j [] = ground arith
  lookup-erase k j ((i, w) ∷ m) =
      ground (arith, e.beq_iff k j, e.beq_iff i k, e.beq_iff i j, lookup-erase k j m)

  pub length-insert : (k : K) (v : V) (m : List (K × V)) → length (insert k v m) ≤ length m + 1
  unfolding insert
  length-insert k v [] = omega arith
  length-insert k v ((i, w) ∷ m) = ground (arith, length-insert k v m)

  -- Overwriting a key that is there keeps the size.
  pub length-insert_known :
      (k : K) (v : V) (m : List (K × V)) → lookup k m ≢ none → length (insert k v m) ≡ length m
  unfolding insert lookup
  length-insert_known k v [] h = absurd (h refl)
  length-insert_known k v ((i, w) ∷ m) h = ground (arith, length-insert_known k v m)

  pub length-erase : (k : K) (m : List (K × V)) → length (erase k m) ≤ length m
  unfolding erase
  length-erase k [] = omega arith
  length-erase k ((i, w) ∷ m) = ground (arith, length-erase k m)

  pub length-erase_known :
      (k : K) (m : List (K × V)) → lookup k m ≢ none → length (erase k m) < length m
  unfolding erase lookup
  length-erase_known k [] h = absurd (h refl)
  length-erase_known k ((i, w) ∷ m) h = ground (arith, length-erase k m, length-erase_known k m)

  pub lookup-erase_same : (k : K) (m : List (K × V)) → lookup k (erase k m) ≡ none
  lookup-erase_same k m = ground (arith, lookup-erase k k m, e.beq_iff k k)

  pub lookup-insert_same : (k : K) (v : V) (m : List (K × V)) → lookup k (insert k v m) ≡ some v
  lookup-insert_same k v m = ground (arith, lookup-insert k k v m, e.beq_iff k k)

-- A key that one map tells from another's is another key.
pub lookup-insert_other {ℓ κ μ} :
    {K : Type ℓ} {V : Type κ} {W : Type μ} ⦃e : Eq K⦄ (k j : K) (v : V) (m : List (K × V))
    (n : List (K × W)) (w : W)
    → lookup k n ≡ none
    → lookup j n ≡ some w
    → lookup j (insert k v m) ≡ lookup j m
lookup-insert_other ⦃e⦄ k j v m n w absent present =
    ground (arith, lookup-insert k j v m, e.beq_iff k j, absent, present)
