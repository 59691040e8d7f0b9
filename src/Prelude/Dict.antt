-- ===== src/Prelude/Dict.antt =====
-- Go maps as association lists. No order of the entries is observed through the laws below: each
-- of them speaks of `lookup`, or of a total over maps whose keys differ.
use Prim.Native.Nat.{ℕ, ◌+◌}
use mathlib.Core.Path.{◌≡◌, refl}
use mathlib.Core.Bool.{Bool}
use mathlib.Core.Option.{Option, none, some}
use mathlib.Core.List.{List, [], ◌∷◌}
use native.Mathlib.Omega.{arith}
use local_ai_proxy.Prelude.Tests.{if◌then◌else◌, Key, ◌==◌, eq_key}

abbrev pub Dict {ℓ κ} : Type ℓ → Type κ → Type (ℓ ⊔ κ)
Dict K V = List (K × V)

abbrev pub keep_if {ℓ} : {V : Type ℓ} → (V → Bool) → Option V → Option V
keep_if p none = none
keep_if p (some v) = if p v then some v else none

module _ {ℓ κ} {K : Type ℓ} {V : Type κ} ⦃e : Key K⦄ where
  unfoldable pub lookup : K → Dict K V → Option V
  lookup k [] = none
  lookup k ((j, v) ∷ m) = if j == k then some v else lookup k m

  unfoldable pub insert : K → V → Dict K V → Dict K V
  insert k new [] = (k, new) ∷ []
  insert k new ((j, old) ∷ m) = if j == k then (k, new) ∷ m else (j, old) ∷ insert k new m

  unfoldable pub delete : K → Dict K V → Dict K V
  delete k [] = []
  delete k ((j, v) ∷ m) = let rest = delete k m in if j == k then rest else (j, v) ∷ rest

  -- `for k, v := range m { if !keep(k, v) { delete(m, k) } }`
  unfoldable pub retain : (K → V → Bool) → Dict K V → Dict K V
  unfolding delete
  retain keep [] = []
  retain keep ((k, v) ∷ m) =
      let rest = retain keep m in if keep k v then (k, v) ∷ rest else delete k rest

  abbrev pub IsUnique : Dict K V → Type κ
  IsUnique [] = Unit
  IsUnique ((k, v) ∷ m) = (lookup k m ≡ none) × IsUnique m

  pub lookup-insert :
      (k j : K) (new : V) (m : Dict K V)
      → lookup j (insert k new m) ≡ (if k == j then some new else lookup j m)
  unfolding insert lookup
  lookup-insert k j new [] = refl
  lookup-insert k j new ((i, old) ∷ m) =
      ground (arith, eq_key i k, eq_key i j, eq_key k j, lookup-insert k j new m)

  pub lookup-delete :
      (k j : K) (m : Dict K V) → lookup j (delete k m) ≡ (if k == j then none else lookup j m)
  unfolding lookup delete
  lookup-delete k j [] = ground arith
  lookup-delete k j ((i, w) ∷ m) =
      ground (arith, lookup-delete k j m, eq_key k j, eq_key i k, eq_key i j)

  pub lookup-retain :
      (keep : K → V → Bool) (j : K) (m : Dict K V)
      → lookup j (retain keep m) ≡ keep_if (keep j) (lookup j m)
  unfolding lookup retain
  lookup-retain keep j [] = refl
  lookup-retain keep j ((i, w) ∷ m) =
      ground (arith, lookup-retain keep j m, lookup-delete i j (retain keep m), eq_key i j)

  pub insert-IsUnique : (k : K) (v : V) (m : Dict K V) → IsUnique m → IsUnique (insert k v m)
  unfolding insert lookup
  insert-IsUnique k v [] u = (refl, tt)
  insert-IsUnique k v ((j, w) ∷ m) u =
      ground (arith, insert-IsUnique k v m u.1, lookup-insert k j v m, eq_key j k, eq_key k j)

  pub delete-IsUnique : (k : K) (m : Dict K V) → IsUnique m → IsUnique (delete k m)
  unfolding delete
  delete-IsUnique k [] u = tt
  delete-IsUnique k ((j, w) ∷ m) u = ground (arith, delete-IsUnique k m u.1, lookup-delete k j m)

  pub delete-none : (k : K) (m : Dict K V) → lookup k m ≡ none → delete k m ≡ m
  unfolding delete lookup
  delete-none k [] e = refl
  delete-none k ((j, w) ∷ m) e = ground (arith, delete-none k m)

abbrev pub held {ℓ} : {K : Type ℓ} ⦃e : Key K⦄ → K → Dict K ℕ → ℕ
held k m = elim (lookup k m) [ none ↦ 0 | some n ↦ n ]

module _ {ℓ} {K : Type ℓ} ⦃e : Key K⦄ where
  unfoldable pub total : Dict K ℕ → ℕ
  total [] = 0
  total ((k, n) ∷ m) = n + total m

  pub total-insert : (k : K) (v : ℕ) (m : Dict K ℕ) → total (insert k v m) + held k m ≡ total m + v
  unfolding total insert lookup
  total-insert k v [] = omega arith
  total-insert k v ((j, w) ∷ m) = ground (arith, total-insert k v m)

  pub total-delete : (k : K) (m : Dict K ℕ) → IsUnique m → total (delete k m) + held k m ≡ total m
  unfolding total delete lookup
  total-delete k [] u = omega arith
  total-delete k ((j, w) ∷ m) u = ground (arith, total-delete k m u.1, delete-none k m, eq_key j k)
