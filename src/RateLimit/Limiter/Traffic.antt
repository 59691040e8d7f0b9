-- ===== src/RateLimit/Limiter/Traffic.antt =====
-- internal/ratelimit/ratelimit.go over time: any sequence of requests, refunds and prunes.
use local_ai_proxy.Prelude.{
  ℕ, ◌+◌, ◌-◌, ◌*◌, ◌≤◌, ◌≡◌, refl, ap, inl, inr, Bool, true, false, Option, none, some, List, [],
  ◌∷◌, arith, if◌then◌else◌, ◌==◌, ℕ_key, eq_key, Bool-cases, Option-cases,
}
use mathlib.Core.Option
use local_ai_proxy.Prelude.Int.{ℤ, pos}
use local_ai_proxy.Prelude.Dict.{lookup, lookup-insert, lookup-retain, keep_if}
use local_ai_proxy.RateLimit.Tokens.{token_unit}
use local_ai_proxy.RateLimit.Limiter.{Bucket, Limiter, allow, give_back, refund, is_live, prune}
use local_ai_proxy.RateLimit.Limiter.Levels.{
  OptionFilled, spendable, cost, admit-Pays, give_back_lem-spendable, is_live-spendable,
  spendable-later, sub_split,
}

-- `asks id limit t` is `Allow(id, limit)` at t, `prunes t` a tick of the background goroutine.
pub data Event : Type 0 where
  asks : ℕ → ℤ → ℕ → Event
  refunds : ℕ → Event
  prunes : ℕ → Event

unfoldable pub step : Event → Limiter → Limiter
step (asks id limit t) l = (allow id limit t l).1
step (refunds id) l = refund id l
step (prunes t) l = prune t l

-- The clock after an event.
abbrev pub clock : ℕ → Event → ℕ
clock now (asks id limit t) = t
clock now (refunds id) = now
clock now (prunes t) = t

abbrev pub final_clock : ℕ → List Event → ℕ
final_clock now [] = now
final_clock now (e ∷ es) = final_clock (clock now e) es

abbrev pub IsUnder : ℕ → ℕ → Event → Type 0
IsUnder k n (asks id limit t) = id ≡ k → limit ≡ pos n
IsUnder k n (refunds id) = Unit
IsUnder k n (prunes t) = Unit

-- The clock never goes back, and every request of k is made under the limit n.
abbrev pub IsTraffic : ℕ → ℕ → ℕ → List Event → Type 0
IsTraffic k n now [] = Unit
IsTraffic k n now (e ∷ es) = (now ≤ clock now e) × IsUnder k n e × IsTraffic k n (clock now e) es

-- How many requests of k are let through, and how many tokens are given back to it.
abbrev pub spent_by : ℕ → Event → Limiter → ℕ
spent_by k (asks id limit t) l = if id == k then cost (allow id limit t l).0 else 0
spent_by k (refunds id) l = 0
spent_by k (prunes t) l = 0

abbrev pub given_by : ℕ → Event → ℕ
given_by k (refunds id) = if id == k then token_unit else 0
given_by k (asks id limit t) = 0
given_by k (prunes t) = 0

-- In parts of a token, over a run.
pub spent : ℕ → List Event → Limiter → ℕ
spent k [] l = 0
spent k (e ∷ es) l = spent_by k e l + spent k es (step e l)

pub given : ℕ → List Event → ℕ
given k [] = 0
given k (e ∷ es) = given_by k e + given k es

-- One event: what k spends, and what is left to it, is paid by the time and by refunds.
abbrev Pays : ℕ → ℕ → ℕ → Event → Limiter → Type 0
Pays k n now e l =
    (spent_by k e l + spendable n (clock now e) (lookup k (step e l))
      ≤ spendable n now (lookup k l) + (clock now e - now) * n + given_by k e)
    × OptionFilled n (clock now e) (lookup k (step e l))

asks-Pays :
    (k n now id t : ℕ) (limit : ℤ) (l : Limiter) (own : Bool)
    → (id == k) ≡ own
    → 1 ≤ n
    → now ≤ t
    → IsUnder k n (asks id limit t)
    → OptionFilled n now (lookup k l)
    → Pays k n now (asks id limit t) l
unfolding step allow
asks-Pays k n now id t limit l true e h p u f =
    let same = (eq_key id k).0 e in
    rw (e, lookup-insert, e, same, u same)
      (let later = spendable-later n now t (lookup k l) p f in
        let paid = admit-Pays n t (lookup k l) h later.1 in
        (omega (arith, paid.0, later.0), paid.1))
asks-Pays k n now id t limit l false e h p u f =
    rw (e, lookup-insert, e)
      (let later = spendable-later n now t (lookup k l) p f in (omega (arith, later.0), later.1))

pub lookup-refund :
    (id k : ℕ) (l : Limiter)
    → lookup k (refund id l) ≡ (if id == k then Option.map give_back (lookup k l) else lookup k l)
unfolding refund
lookup-refund id k l = elim (Option-cases (lookup id l)) [
  | inl e ↦ rw (e, refund) (ground (arith, eq_key id k))
  | inr (b, e) ↦ rw (e, refund) (rw lookup-insert (ground (arith, eq_key id k)))
]

given_back :
    (n now : ℕ) (o : Option Bucket)
    → OptionFilled n now o
    → (spendable n now (Option.map give_back o) ≤ spendable n now o + token_unit)
      × OptionFilled n now (Option.map give_back o)
given_back n now none f = (omega arith, tt)
given_back n now (some b) f = give_back_lem-spendable n now b f

pub kept :
    (n t : ℕ) (o : Option Bucket)
    → 1 ≤ n
    → OptionFilled n t o
    → (spendable n t (keep_if (is_live t) o) ≤ spendable n t o)
      × OptionFilled n t (keep_if (is_live t) o)
kept n t none h f = (omega arith, tt)
kept n t (some b) h f = elim (Bool-cases (is_live t b)) [
  | inl e ↦ rw e (omega arith, f)
  | inr e ↦ rw e (omega (arith, is_live-spendable n t b h f e), tt)
]

refunds-Pays :
    (k n now id : ℕ) (l : Limiter) (own : Bool)
    → (id == k) ≡ own
    → OptionFilled n now (lookup k l)
    → Pays k n now (refunds id) l
unfolding step
refunds-Pays k n now id l true e f =
    rw (lookup-refund, e)
      (let back = given_back n now (lookup k l) f in (omega (arith, back.0), back.1))
refunds-Pays k n now id l false e f = rw (lookup-refund, e) (omega arith, f)

prunes-Pays :
    (k n now t : ℕ) (l : Limiter)
    → 1 ≤ n
    → now ≤ t
    → OptionFilled n now (lookup k l)
    → Pays k n now (prunes t) l
unfolding step prune
prunes-Pays k n now t l h p f = rw lookup-retain (
    let later = spendable-later n now t (lookup k l) p f in
    let stays = kept n t (lookup k l) h later.1 in (omega (arith, stays.0, later.0), stays.1))

step-Pays :
    (k n now : ℕ) (e : Event) (l : Limiter)
    → 1 ≤ n
    → now ≤ clock now e
    → IsUnder k n e
    → OptionFilled n now (lookup k l)
    → Pays k n now e l
step-Pays k n now (asks id limit t) l h p u f =
    asks-Pays k n now id t limit l (id == k) refl h p u f
step-Pays k n now (refunds id) l h p u f = refunds-Pays k n now id l (id == k) refl f
step-Pays k n now (prunes t) l h p u f = prunes-Pays k n now t l h p f

final_clock-le : (k n now : ℕ) (es : List Event) → IsTraffic k n now es → now ≤ final_clock now es
final_clock-le k n now [] t = omega arith
final_clock-le k n now (e ∷ es) t = omega (arith, t.0, final_clock-le k n (clock now e) es t.2)

-- For a limit n of at least one per minute, which is the limit of k in every call, and a bucket of k
-- that, if there is one, is filled for n: over any stretch of time, whatever else happens to the
-- limiter, refunds and prunes included, the tokens spent by k are at most what k held at its start
-- (a full bucket if there is none), what n earns in that time, and what was given back. Tokens are
-- counted exactly, where the code rounds float64.
pub spent-le :
    (k n now : ℕ) (es : List Event) (l : Limiter)
    → 1 ≤ n
    → OptionFilled n now (lookup k l)
    → IsTraffic k n now es
    → spent k es l ≤ spendable n now (lookup k l) + (final_clock now es - now) * n + given k es
unfolding spent given
spent-le k n now [] l h f t = omega arith
spent-le k n now (e ∷ es) l h f t =
    let paid = step-Pays k n now e l h t.0 t.1 f in
    omega (
      arith,
      paid.0,
      spent-le k n (clock now e) es (step e l) h paid.1 t.2,
      ap (λ (d : ℕ). d * n)
          (sub_split now (clock now e) (final_clock now (e ∷ es)) t.0
            (final_clock-le k n (clock now e) es t.2)),
    )
