-- ===== src/Prelude/Rows.antt =====
-- Database tables as maps from their primary key: what an UPDATE or a DELETE does to a sum over
-- the rows.
use mathlib.Core.Path.{◌≡◌, refl}
use Prim.Native.Nat.{ℕ, ◌+◌}
use mathlib.Core.Bool.{Bool, true, false}
use mathlib.Core.Option.{Option, none, some}
use mathlib.Core.List.{[], ◌∷◌}
use native.Mathlib.Omega.{arith}
use local_ai_proxy.Prelude.Tests.{if◌then◌else◌, Key, ◌==◌, eq_key, Bool-cases}
use mathlib.Core.Logic.{inl, inr}
use local_ai_proxy.Prelude.Int.{ℤ, pos, ◌+ℤ◌, ◌-ℤ◌, int_laws}
use local_ai_proxy.Prelude.Dict.{Dict, lookup, insert, keep_if, IsUnique}

abbrev pub weight_of {ℓ} : {V : Type ℓ} → (V → ℤ) → Option V → ℤ
weight_of w none = pos 0
weight_of w (some v) = w v

module _ {ℓ κ} {K : Type ℓ} {V : Type κ} where
  -- The sum of a column over the rows.
  unfoldable pub weigh : (V → ℤ) → Dict K V → ℤ
  weigh w [] = pos 0
  weigh w ((k, v) ∷ m) = w v +ℤ weigh w m

  -- `DELETE FROM … WHERE NOT keep`
  unfoldable pub keep_rows : (V → Bool) → Dict K V → Dict K V
  keep_rows keep [] = []
  keep_rows keep ((k, v) ∷ m) =
      let rest = keep_rows keep m in if keep v then (k, v) ∷ rest else rest

  pub weigh-keep_rows :
      (w : V → ℤ) (keep : V → Bool) (m : Dict K V)
      → ((v : V) → keep v ≡ false → w v ≡ pos 0)
      → weigh w (keep_rows keep m) ≡ weigh w m
  unfolding weigh keep_rows
  weigh-keep_rows w keep [] h = refl
  weigh-keep_rows w keep ((k, v) ∷ m) h = elim (Bool-cases (keep v)) [
    | inl e ↦ rw (e, weigh-keep_rows w keep m h)
    | inr e ↦ rw (e, weigh-keep_rows w keep m h, h v e) (omega int_laws)
  ]

module _ {ℓ κ} {K : Type ℓ} {V : Type κ} ⦃e : Key K⦄ where
  pub weigh-insert :
      (w : V → ℤ) (k : K) (v : V) (m : Dict K V)
      → weigh w (insert k v m) ≡ weigh w m -ℤ weight_of w (lookup k m) +ℤ w v
  unfolding weigh insert lookup
  weigh-insert w k v [] = omega int_laws
  weigh-insert w k v ((j, x) ∷ m) = elim (Bool-cases (j == k)) [
    | inl same ↦ rw same (omega int_laws)
    | inr other ↦ rw (other, weigh-insert w k v m) (omega int_laws)
  ]

  pub lookup-keep_rows :
      (keep : V → Bool) (k : K) (m : Dict K V)
      → IsUnique m
      → lookup k (keep_rows keep m) ≡ keep_if keep (lookup k m)
  unfolding keep_rows lookup
  lookup-keep_rows keep k [] u = refl
  lookup-keep_rows keep k ((j, x) ∷ m) u = ground (arith, lookup-keep_rows keep k m u.1, eq_key j k)

  pub keep_rows-IsUnique :
      (keep : V → Bool) (m : Dict K V) → IsUnique m → IsUnique (keep_rows keep m)
  unfolding keep_rows
  keep_rows-IsUnique keep [] u = tt
  keep_rows-IsUnique keep ((j, x) ∷ m) u =
      ground (arith, lookup-keep_rows keep j m u.1, keep_rows-IsUnique keep m u.1)

-- Queries on a table: the first row of a kind, and how many there are.
module _ {ℓ κ} {K : Type ℓ} {V : Type κ} where
  unfoldable pub find_row : (V → Bool) → Dict K V → Option (K × V)
  find_row p [] = none
  find_row p ((k, v) ∷ m) = if p v then some (k, v) else find_row p m

  -- What the first row of a kind reads.
  unfoldable pub find_as {μ} : {C : Type μ} → (V → Bool) → (V → C) → Dict K V → Option C
  find_as p c [] = none
  find_as p c ((k, v) ∷ m) = if p v then some (c v) else find_as p c m

  pub find_as-find_row {μ} :
      {C : Type μ} (p : V → Bool) (c : V → C) (m : Dict K V) (k : K) (v : V)
      → find_row p m ≡ some (k, v)
      → find_as p c m ≡ some (c v)
  unfolding find_as find_row
  find_as-find_row p c [] k v h = absurd (cc h)
  find_as-find_row p c ((j, x) ∷ m) k v h = ground (arith, find_as-find_row p c m k v, h)

  pub find_as-none {μ} :
      {C : Type μ} (p : V → Bool) (c : V → C) (m : Dict K V)
      → find_row p m ≡ none
      → find_as p c m ≡ none
  unfolding find_as find_row
  find_as-none p c [] h = refl
  find_as-none p c ((j, x) ∷ m) h = ground (arith, find_as-none p c m, h)

  unfoldable pub count_rows : (V → Bool) → Dict K V → ℕ
  count_rows p [] = 0
  count_rows p ((k, v) ∷ m) = (if p v then 1 else 0) + count_rows p m

  pub find_row-keep_rows :
      (p keep : V → Bool) (m : Dict K V)
      → ((v : V) → keep v ≡ true → p v ≡ false)
      → find_row p (keep_rows keep m) ≡ none
  unfolding find_row keep_rows
  find_row-keep_rows p keep [] h = refl
  find_row-keep_rows p keep ((k, v) ∷ m) h = elim (Bool-cases (keep v)) [
    | inl e ↦ rw (e, h v e) (find_row-keep_rows p keep m h)
    | inr e ↦ rw e (find_row-keep_rows p keep m h)
  ]

  first_row :
      (p : V → Bool) (j k : K) (x v : V)
      → p x ≡ true
      → ◌≡◌ {A = Option (K × V)} (some (j, x)) (some (k, v))
      → p v ≡ true
  first_row p j k x v e h = cc

  pub find_row-holds :
      (p : V → Bool) (m : Dict K V) (k : K) (v : V) → find_row p m ≡ some (k, v) → p v ≡ true
  unfolding find_row
  find_row-holds p [] k v h = cc
  find_row-holds p ((j, x) ∷ m) k v h = elim (Bool-cases (p x)) [
    | inl e ↦ let a = h in first_row p j k x v e (rw e at a)
    | inr e ↦ let a = h in find_row-holds p m k v (rw e at a)
  ]

  pub kept_row :
      (p keep : V → Bool) (m : Dict K V) (k : K) (v : V)
      → find_row p (keep_rows keep m) ≡ some (k, v)
      → keep v ≡ true
  unfolding find_row keep_rows
  kept_row p keep [] k v h = cc
  kept_row p keep ((j, x) ∷ m) k v h = elim (Bool-cases (keep x)) [
    | inr d ↦ let a = h in kept_row p keep m k v (rw d at a)
    | inl d ↦ elim (Bool-cases (p x)) [
      | inl c ↦ let a = h in first_row keep j k x v d (rw (d, c) at a)
      | inr c ↦ let a = h in kept_row p keep m k v (rw (d, c) at a)
    ]
  ]

abbrev pub counts {ℓ} : {V : Type ℓ} → (V → Bool) → Option V → ℕ
counts p none = 0
counts p (some v) = if p v then 1 else 0

module _ {ℓ κ} {K : Type ℓ} {V : Type κ} ⦃e : Key K⦄ where
  pub find_row-insert_new :
      (p : V → Bool) (k : K) (v : V) (m : Dict K V)
      → find_row p m ≡ none
      → lookup k m ≡ none
      → p v ≡ true
      → find_row p (insert k v m) ≡ some (k, v)
  unfolding find_row insert lookup
  find_row-insert_new p k v [] h n y = rw y refl
  find_row-insert_new p k v ((j, x) ∷ m) h n y =
      ground (arith, find_row-insert_new p k v m, h, n, y)

  -- In a table whose ids differ, a row that is found is the row of its id.
  pub find_row-lookup :
      (p : V → Bool) (m : Dict K V) (k : K) (v : V)
      → IsUnique m
      → find_row p m ≡ some (k, v)
      → lookup k m ≡ some v
  unfolding find_row lookup
  find_row-lookup p [] k v u h = cc
  find_row-lookup p ((j, x) ∷ m) k v u h =
      ground (arith, find_row-lookup p m k v u.1, h, u, eq_key j k)

  pub count_rows-insert :
      (p : V → Bool) (k : K) (v : V) (m : Dict K V)
      → count_rows p (insert k v m) + counts p (lookup k m)
        ≡ count_rows p m + (if p v then 1 else 0)
  unfolding count_rows insert lookup
  count_rows-insert p k v [] = omega arith
  count_rows-insert p k v ((j, x) ∷ m) = ground (arith, count_rows-insert p k v m)

  -- A row that is appended comes after the row that is found.
  pub find_as-insert_end {μ} :
      {C : Type μ} (p : V → Bool) (c : V → C) (k : K) (v : V) (m : Dict K V) (y : C)
      → lookup k m ≡ none
      → find_as p c m ≡ some y
      → find_as p c (insert k v m) ≡ some y
  unfolding find_as insert lookup
  find_as-insert_end p c k v [] y n h = absurd (cc h)
  find_as-insert_end p c k v ((j, x) ∷ m) y n h =
      ground (arith, find_as-insert_end p c k v m y, h, n)

  -- A row that is replaced by one that reads the same.
  pub find_as-insert_same {μ} :
      {C : Type μ} (p : V → Bool) (c : V → C) (k : K) (old new : V) (m : Dict K V)
      → lookup k m ≡ some old
      → p new ≡ p old
      → c new ≡ c old
      → find_as p c (insert k new m) ≡ find_as p c m
  unfolding find_as insert lookup
  find_as-insert_same p c k old new [] e same alike = absurd (cc e)
  find_as-insert_same p c k old new ((i, z) ∷ m) e same alike =
      ground (arith, find_as-insert_same p c k old new m, e, same, alike)
