-- ===== src/Base/Map.antt =====
-- `std::map`: an association list in the order of its keys. The hash maps of the code, whose order
-- nothing relies on, are the same type.
use Prim.Native.Nat.{ℕ, ◌+◌, compare, Ordering}
use mathlib.Core.Path.{◌≡◌, refl}
use mathlib.Core.Logic.{◌↔◌, ◌≢◌}
use mathlib.Core.Bool.{Bool, true, false}
use mathlib.Core.List.{List, [], ◌∷◌}
use mathlib.Core.Option.{Option, none, some}
use native.Mathlib.Omega.{arith}
use swift_snails.Base.Bools.{if◌then◌else◌, ◌==◌}
use swift_snails.Base.Lists.{length}

-- What a map asks of its keys.
pub record Ordered {ℓ} (K : Type ℓ) : Type ℓ where
  pub cmp : K → K → Ordering
  pub cmp_eq : (a b : K) → (cmp a b ≡ Ordering.eq) ↔ (a ≡ b)

pub compare_eq : (a b : ℕ) → (compare a b ≡ Ordering.eq) ↔ (a ≡ b)
compare_eq a b = ground arith

instance abbrev pub nat_ordered : Ordered ℕ
nat_ordered = record { cmp = compare; cmp_eq = compare_eq }

abbrev pub is_eq : Ordering → Bool
is_eq Ordering.lt = false
is_eq Ordering.eq = true
is_eq Ordering.gt = false

module _ {ℓ κ} {K : Type ℓ} {V : Type κ} ⦃o : Ordered K⦄ where
  unfoldable pub lookup : K → List (K × V) → Option V
  lookup k [] = none
  lookup k ((j, w) ∷ m) = if is_eq (o.cmp k j) then some w else lookup k m

  -- m[k] = v
  unfoldable pub assign : K → V → List (K × V) → List (K × V)
  assign k v [] = (k, v) ∷ []
  assign k v ((j, w) ∷ m) = elim (o.cmp k j) [
    | Ordering.lt ↦ (k, v) ∷ (j, w) ∷ m
    | Ordering.eq ↦ (k, v) ∷ m
    | Ordering.gt ↦ (j, w) ∷ assign k v m
  ]

  unfoldable pub erase : K → List (K × V) → List (K × V)
  erase k [] = []
  erase k ((j, w) ∷ m) = if is_eq (o.cmp k j) then erase k m else (j, w) ∷ erase k m

  pub lookup-assign_self : (k : K) (v : V) (m : List (K × V)) → lookup k (assign k v m) ≡ some v
  unfolding lookup assign
  lookup-assign_self k v [] = ground (arith, o.cmp_eq k k)
  lookup-assign_self k v ((j, w) ∷ m) =
      ground (arith, o.cmp_eq k k, o.cmp_eq k j, lookup-assign_self k v m)

  pub lookup-assign_ne :
      (k j : K) (v : V) (m : List (K × V)) → k ≢ j → lookup j (assign k v m) ≡ lookup j m
  unfolding lookup assign
  lookup-assign_ne k j v [] h = ground (arith, o.cmp_eq j k)
  lookup-assign_ne k j v ((i, w) ∷ m) h =
      ground (arith, o.cmp_eq j k, o.cmp_eq k i, o.cmp_eq j i, lookup-assign_ne k j v m h)

  pub lookup-erase_self : (k : K) (m : List (K × V)) → lookup k (erase k m) ≡ none
  unfolding lookup erase
  lookup-erase_self k [] = refl
  lookup-erase_self k ((j, w) ∷ m) = ground (arith, lookup-erase_self k m)

  pub lookup-erase_ne : (k j : K) (m : List (K × V)) → k ≢ j → lookup j (erase k m) ≡ lookup j m
  unfolding lookup erase
  lookup-erase_ne k j [] h = refl
  lookup-erase_ne k j ((i, w) ∷ m) h =
      ground (arith, o.cmp_eq k i, o.cmp_eq j i, lookup-erase_ne k j m h)

  pub length-assign :
      (k : K) (v : V) (m : List (K × V)) → lookup k m ≡ none → length (assign k v m) ≡ length m + 1
  unfolding lookup assign
  length-assign k v [] h = omega arith
  length-assign k v ((j, w) ∷ m) h = ground (arith, o.cmp_eq k j, length-assign k v m)

-- At number keys, with the test that `ground` reads.
module _ {V : Type 0} where
  pub lookup-assign :
      (k j : ℕ) (v : V) (m : List (ℕ × V))
      → lookup j (assign k v m) ≡ (if j == k then some v else lookup j m)
  lookup-assign k j v m =
      ground (arith, lookup-assign_self k v m, λ (h : k ≢ j). lookup-assign_ne k j v m h)

  pub lookup-erase :
      (k j : ℕ) (m : List (ℕ × V)) → lookup j (erase k m) ≡ (if j == k then none else lookup j m)
  lookup-erase k j m = ground (arith, lookup-erase_self k m, λ (h : k ≢ j). lookup-erase_ne k j m h)
