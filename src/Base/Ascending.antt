-- ===== src/Base/Ascending.antt =====
-- Maps whose keys ascend, as those of std::map do.
use Prim.Native.Nat.{ℕ, ◌<◌, ◌≤◌, compare, Ordering}
use mathlib.Core.Path.{◌≡◌, refl, sym, subst}
use mathlib.Core.Logic.{◌≢◌, ◌⊎◌, inl, inr}
use mathlib.Core.List.{List, [], ◌∷◌}
use mathlib.Core.Option.{none}
use native.Mathlib.Omega.{arith}
use swift_snails.Base.Lists.{All}
use swift_snails.Base.Map.{lookup, assign, nat_ordered}

compare_cases :
    (a b : ℕ)
    → ((compare a b ≡ Ordering.lt) × (a < b))
      ⊎ (((compare a b ≡ Ordering.eq) × (a ≡ b)) ⊎ ((compare a b ≡ Ordering.gt) × (b < a)))
compare_cases a b = ground arith

pub All_imp :
    {A : Type 0} {P Q : A → Type 0} (xs : List A) → ((x : A) → P x → Q x) → All P xs → All Q xs
All_imp [] f _ = tt
All_imp (x ∷ xs) f (p, ps) = (f x p, All_imp xs f ps)

module _ {V : Type 0} where
  -- Each key is larger than k.
  abbrev pub Above : ℕ → List (ℕ × V) → Type 0
  Above k m = All (λ p. k < p.0) m

  abbrev pub Ascending : List (ℕ × V) → Type 0
  Ascending [] = Unit
  Ascending ((k, v) ∷ m) = Above k m × Ascending m

  pub lookup-Above : (j k : ℕ) (m : List (ℕ × V)) → Above k m → j ≤ k → lookup j m ≡ none
  unfolding lookup
  lookup-Above j k [] _ le = refl
  lookup-Above j k ((i, w) ∷ m) (h, hs) le = ground (arith, lookup-Above j k m hs le)

  Above-trans : (j k : ℕ) (m : List (ℕ × V)) → j < k → Above k m → Above j m
  Above-trans j k [] lt _ = tt
  Above-trans j k ((i, w) ∷ m) lt (h, hs) = (omega arith, Above-trans j k m lt hs)

  Above-assign : (i k : ℕ) (v : V) (m : List (ℕ × V)) → i < k → Above i m → Above i (assign k v m)
  unfolding assign
  Above-assign i k v [] lt _ = (lt, tt)
  Above-assign i k v ((j, w) ∷ m) lt (h, hs) = elim (compare_cases k j) [
    | inl (e, _) ↦ rw (assign, e) (lt, (h, hs))
    | inr (inl (e, _)) ↦ rw (assign, e) (lt, hs)
    | inr (inr (e, _)) ↦ rw (assign, e) (h, Above-assign i k v m lt hs)
  ]

  pub assign-Ascending : (k : ℕ) (v : V) (m : List (ℕ × V)) → Ascending m → Ascending (assign k v m)
  unfolding assign
  assign-Ascending k v [] _ = (tt, tt)
  assign-Ascending k v ((j, w) ∷ m) (h, hs) = elim (compare_cases k j) [
    | inl (e, below) ↦ rw (Ascending, assign, e) ((below, Above-trans k j m below h), (h, hs))
    | inr (inl (e, same)) ↦ rw (Ascending, assign, e) (subst (λ i. Above i m) (sym same) h, hs)
    | inr (inr (e, above)) ↦
        rw (Ascending, assign, e) (Above-assign j k v m above h, assign-Ascending k v m hs)
  ]

  pub All-assign :
      (P : ℕ × V → Type 0) (k : ℕ) (v : V) (m : List (ℕ × V))
      → All P m
      → P (k, v)
      → All P (assign k v m)
  unfolding assign
  All-assign P k v [] _ p = (p, tt)
  All-assign P k v ((j, w) ∷ m) (q, qs) p = elim (compare_cases k j) [
    | inl (e, _) ↦ rw (assign, e) (p, (q, qs))
    | inr (inl (e, _)) ↦ rw (assign, e) (p, qs)
    | inr (inr (e, _)) ↦ rw (assign, e) (q, All-assign P k v m qs p)
  ]

  -- Each entry's key is found.
  pub found : (m : List (ℕ × V)) → All (λ p. lookup p.0 m ≢ none) m
  unfolding lookup
  found [] = tt
  found ((k, v) ∷ m) = (ground arith, All_imp m (λ p there. ground arith) (found m))
