-- ===== src/Store/Amounts.antt =====
-- internal/store: the float64 amounts of credits.go and the DECIMAL(15,6) columns that they meet. A
-- column is an integer, in units of its last decimal. PostgreSQL computes with an amount exactly, and
-- rounds what it assigns to a column, a half away from zero; Go compares it in float64.
use local_ai_proxy.Prelude.{
  ℕ, ◌+◌, ◌≤◌, ◌≡◌, refl, Bool, true, false, not, ◌&&◌, arith, ◌⊎◌, if◌then◌else◌, Bool-cases, inl,
  inr,
}
use local_ai_proxy.Prelude.Int.{ℤ, pos, pos_part, neg_part, ◌+ℤ◌, ◌-ℤ◌, ◌≤ℤ◌, ltb_ℤ, int_laws}

-- What an amount has beyond its whole units: nothing, less than half a unit, half, or more.
pub data Rest : Type 0 where
  exact below_half half above_half : Rest

-- `whole` is rounded down. `exceeds balance reserved` is `balance - reserved < amount` in float64, a
-- parameter of the amount.
pub record Amount : Type 0 where
  pub whole : ℤ
  pub rest : Rest
  pub exceeds : ℤ → ℤ → Bool

-- Whole units that are compared exactly, for the tests and for 0.
abbrev pub whole_units : ℤ → Amount
whole_units n = record { whole = n; rest = exact; exceeds = λ b r. ltb_ℤ (b -ℤ r) n }

abbrev pub no_amount : Amount
no_amount = whole_units (pos 0)

abbrev pub is_exact : Rest → Bool
is_exact exact = true
is_exact below_half = false
is_exact half = false
is_exact above_half = false

-- `amount > 0`
abbrev pub is_positive : Amount → Bool
is_positive a =
    if ltb_ℤ (pos 0) a.whole then true else not (ltb_ℤ a.whole (pos 0)) && not (is_exact a.rest)

-- n units and a half, rounded.
unfoldable pub half_away : ℤ → ℤ
half_away n = if ltb_ℤ n (pos 0) then n else n +ℤ pos 1

-- n units and a rest, rounded.
abbrev pub rounded : ℤ → Rest → ℤ
rounded n exact = n
rounded n below_half = n
rounded n half = half_away n
rounded n above_half = n +ℤ pos 1

-- n units less a rest, rounded.
abbrev pub rounded_less : ℤ → Rest → ℤ
rounded_less n exact = n
rounded_less n below_half = rounded (n -ℤ pos 1) above_half
rounded_less n half = rounded (n -ℤ pos 1) half
rounded_less n above_half = rounded (n -ℤ pos 1) below_half

-- `$1` in a column, `column + $1` and `column - $1`
unfoldable pub column : Amount → ℤ
column a = rounded a.whole a.rest

unfoldable pub plus : ℤ → Amount → ℤ
plus b a = rounded (b +ℤ a.whole) a.rest

unfoldable pub minus : ℤ → Amount → ℤ
minus b a = rounded_less (b -ℤ a.whole) a.rest

-- How far apart the rounding of a sum and the rounding of its amount can be.
abbrev pub slack_of : Rest → ℕ
slack_of exact = 0
slack_of below_half = 0
slack_of half = 1
slack_of above_half = 0

abbrev pub slack : Amount → ℕ
slack a = slack_of a.rest

abbrev pub IsWithin : ℕ → ℤ → ℤ → Type 0
IsWithin n x y = (x ≤ℤ (y +ℤ pos n)) × (y ≤ℤ (x +ℤ pos n))

half_cases :
    (n : ℤ)
    → ((n +ℤ pos 1 ≤ℤ pos 0) × (half_away n ≡ n)) ⊎ ((pos 0 ≤ℤ n) × (half_away n ≡ n +ℤ pos 1))
unfolding half_away
half_cases n = elim (Bool-cases (ltb_ℤ n (pos 0))) [
  | inl e ↦ inl (below n e, rw e refl)
  | inr e ↦ inr (ground arith, rw e refl)
]
  where
    below : (n : ℤ) → ltb_ℤ n (pos 0) ≡ true → n +ℤ pos 1 ≤ℤ pos 0
    below n e = let l : pos_part n + 1 ≤ neg_part n = ground arith in omega int_laws

rounded_lem : (n : ℤ) (r : Rest) → pos 0 ≤ℤ n → pos 0 ≤ℤ rounded n r
rounded_lem n exact h = h
rounded_lem n below_half h = h
rounded_lem n half h = elim (half_cases n) [
  | inl (l, e) ↦ rw e h
  | inr (l, e) ↦ rw e (omega int_laws)
]
rounded_lem n above_half h = omega int_laws

sum_lem : (b n : ℤ) (r : Rest) → pos 0 ≤ℤ b → pos 0 ≤ℤ n → rounded (b +ℤ n) r ≡ b +ℤ rounded n r
sum_lem b n exact p q = refl
sum_lem b n below_half p q = refl
sum_lem b n half p q = elim (half_cases (b +ℤ n)) [
  | inl (l, e) ↦ omega int_laws
  | inr (l, e) ↦ elim (half_cases n) [
    | inl (k, f) ↦ omega int_laws
    | inr (k, f) ↦ rw (e, f) (omega int_laws)
  ]
]
sum_lem b n above_half p q = omega int_laws

sum-IsWithin : (b n : ℤ) (r : Rest) → IsWithin (slack_of r) (rounded (b +ℤ n) r) (b +ℤ rounded n r)
sum-IsWithin b n exact = (omega int_laws, omega int_laws)
sum-IsWithin b n below_half = (omega int_laws, omega int_laws)
sum-IsWithin b n half = elim (half_cases (b +ℤ n)) [
  | inl (l, e) ↦ elim (half_cases n) [
    | inl (k, f) ↦ rw (e, f) (omega int_laws, omega int_laws)
    | inr (k, f) ↦ rw (e, f) (omega int_laws, omega int_laws)
  ]
  | inr (l, e) ↦ elim (half_cases n) [
    | inl (k, f) ↦ rw (e, f) (omega int_laws, omega int_laws)
    | inr (k, f) ↦ rw (e, f) (omega int_laws, omega int_laws)
  ]
]
sum-IsWithin b n above_half = (omega int_laws, omega int_laws)

rounded_less-IsWithin :
    (b n : ℤ) (r : Rest)
    → IsWithin (slack_of r) (rounded_less (b -ℤ n) r) (b +ℤ rounded_less (pos 0 -ℤ n) r)
rounded_less-IsWithin b n exact = (omega int_laws, omega int_laws)
rounded_less-IsWithin b n below_half = (omega int_laws, omega int_laws)
rounded_less-IsWithin b n half = elim (half_cases (b -ℤ n -ℤ pos 1)) [
  | inl (l, e) ↦ elim (half_cases (pos 0 -ℤ n -ℤ pos 1)) [
    | inl (k, f) ↦ rw (e, f) (omega int_laws, omega int_laws)
    | inr (k, f) ↦ rw (e, f) (omega int_laws, omega int_laws)
  ]
  | inr (l, e) ↦ elim (half_cases (pos 0 -ℤ n -ℤ pos 1)) [
    | inl (k, f) ↦ rw (e, f) (omega int_laws, omega int_laws)
    | inr (k, f) ↦ rw (e, f) (omega int_laws, omega int_laws)
  ]
]
rounded_less-IsWithin b n above_half = (omega int_laws, omega int_laws)

-- An amount that is not negative
abbrev pub IsNatural : Amount → Type 0
IsNatural a = pos 0 ≤ℤ a.whole

pub column-IsNatural : (a : Amount) → IsNatural a → pos 0 ≤ℤ column a
unfolding column
column-IsNatural a h = rounded_lem a.whole a.rest h

pub plus-column : (b : ℤ) (a : Amount) → pos 0 ≤ℤ b → IsNatural a → plus b a ≡ b +ℤ column a
unfolding plus column
plus-column b a p q = sum_lem b a.whole a.rest p q

pub plus-IsWithin : (b : ℤ) (a : Amount) → IsWithin (slack a) (plus b a) (b +ℤ column a)
unfolding plus column
plus-IsWithin b a = sum-IsWithin b a.whole a.rest

pub minus-IsWithin : (b : ℤ) (a : Amount) → IsWithin (slack a) (minus b a) (b +ℤ minus (pos 0) a)
unfolding minus
minus-IsWithin b a = rounded_less-IsWithin b a.whole a.rest

pub minus_none : (b : ℤ) → minus b no_amount ≡ b
unfolding minus
minus_none b = omega int_laws
