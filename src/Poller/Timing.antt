-- ===== src/Poller/Timing.antt =====
-- internal/poller/poller.go: the loop neither spins nor sleeps past a probe.
use native.Mathlib.Nat.{mul-le-mul_left}
use local_ai_proxy.Prelude.{
  ℕ, ◌+◌, ◌-◌, ◌*◌, ◌/◌, ◌%◌, ◌≤◌, ◌<◌, ◌≡◌, refl, Bool, Option, none, some, List, [], ◌∷◌, arith,
  ltb, if◌then◌else◌, eq_self, ℕ_key, max, All, Bool-cases, inl, inr,
}
use local_ai_proxy.Prelude.Dict.{lookup, lookup-insert}
use local_ai_proxy.Poller.{NodeSpec, NodeRuntime, Poller, Outcome, found, failed, advance, apply}
use local_ai_proxy.Poller.Schedule.{
  min_wait, interval_for, due_after, next_due, earlier, next_wake, wait_of,
}

-- A node's interval is within a fifth of the base interval, rounded down.
abbrev pub IsNear : ℕ → ℕ → Type 0
IsNear base t = (4 * base < 5 * (t + 1)) × (5 * t ≤ 6 * base)

scaled-IsNear :
    (interval n : ℕ) → n ≤ 2047 → IsNear interval (interval * (4 * 2047 + 2 * n) / (5 * 2047))
scaled-IsNear interval n h =
    let most : interval * n ≤ interval * 2047 = mul-le-mul_left interval h in
    (omega (arith, most), omega (arith, most))

interval_for-IsNear :
    (hash : ℕ → ℕ) (interval id : ℕ) → IsNear interval (interval_for hash interval id)
unfolding interval_for
interval_for-IsNear hash interval id = scaled-IsNear interval (hash id % 2048) (omega arith)

abbrev pub time_or_zero : Option ℕ → ℕ
time_or_zero none = 0
time_or_zero (some t) = t

-- A wait of at least min_wait and at most the base interval, that ends, but for min_wait, no later
-- than the time at which the next node is due.
abbrev pub IsTimely : (ℕ → ℕ) → ℕ → Poller → ℕ → ℕ → List NodeSpec → Type 0
IsTimely hash interval p later wait specs =
    (min_wait ≤ wait)
    × (wait ≤ max min_wait interval)
    × All
        (λ s. later + wait ≤ max (time_or_zero (next_due hash interval s.id p)) (later + min_wait))
        specs

module _ (hash : ℕ → ℕ) (interval : ℕ) where
  earlier-le :
      (d : Option ℕ) (next : ℕ)
      → (earlier hash interval d next ≤ next) × (earlier hash interval d next ≤ time_or_zero d)
  earlier-le none next = (omega arith, omega arith)
  earlier-le (some d) next = (ground arith, ground arith)

  next_wake-le :
      (p : Poller) (specs : List NodeSpec) (next : ℕ) → next_wake hash interval p specs next ≤ next
  unfolding next_wake
  next_wake-le p [] next = omega arith
  next_wake-le p (s ∷ specs) next = omega (
    arith,
    next_wake-le p specs (earlier hash interval (next_due hash interval s.id p) next),
    (earlier-le (next_due hash interval s.id p) next).0,
  )

  next_wake-All :
      (p : Poller) (specs : List NodeSpec) (next bound : ℕ)
      → next_wake hash interval p specs next ≡ bound
      → All (λ s. bound ≤ time_or_zero (next_due hash interval s.id p)) specs
  unfolding next_wake
  next_wake-All p [] next bound e = tt
  next_wake-All p (s ∷ specs) next bound e = (
    omega (
      arith,
      e,
      next_wake-le p specs (earlier hash interval (next_due hash interval s.id p) next),
      (earlier-le (next_due hash interval s.id p) next).1,
    ),
    next_wake-All p specs (earlier hash interval (next_due hash interval s.id p) next) bound e,
  )

  All-timely :
      (p : Poller) (specs : List NodeSpec) (bound later wait : ℕ)
      → later + wait ≤ max bound (later + min_wait)
      → All (λ s. bound ≤ time_or_zero (next_due hash interval s.id p)) specs
      → All
          (λ s.
            later + wait ≤ max (time_or_zero (next_due hash interval s.id p)) (later + min_wait))
          specs
  All-timely p [] bound later wait h a = tt
  All-timely p (s ∷ specs) bound later wait h a =
      (omega (arith, h, a.0), All-timely p specs bound later wait h a.1)

  wait-bounds :
      (next now later wait : ℕ)
      → now ≤ later
      → next ≤ now + interval
      → wait ≡ (if ltb (next - later) min_wait then min_wait else next - later)
      → (min_wait ≤ wait)
        × (wait ≤ max min_wait interval)
        × (later + wait ≤ max next (later + min_wait))
  wait-bounds next now later wait le h e = elim (Bool-cases (ltb (next - later) min_wait)) [
    | inl b ↦
        let w : wait ≡ min_wait = rw b at e in
        (omega (arith, w), omega (arith, w), omega (arith, w))
    | inr b ↦
        let w : wait ≡ next - later = rw b at e in
        let long : min_wait ≤ next - later = ground (arith, b) in
        (omega (arith, w, long), omega (arith, w, long), omega (arith, w, long))
  ]

  -- The wait of a cycle is at least min_wait and at most the base interval, and it ends no later
  -- than the next node is due, or with min_wait.
  pub wait_of-IsTimely :
      (p : Poller) (specs : List NodeSpec) (now later : ℕ)
      → now ≤ later
      → IsTimely hash interval p later (wait_of hash interval p specs now later) specs
  unfolding wait_of
  wait_of-IsTimely p specs now later h =
      let next = next_wake hash interval p specs (now + interval) in
      let b =
        wait-bounds next now later (wait_of hash interval p specs now later) h
          (next_wake-le p specs (now + interval)) refl in
      (
        b.0,
        b.1,
        All-timely p specs next later (wait_of hash interval p specs now later) b.2
            (next_wake-All p specs (now + interval) next refl),
      )

-- A node that has been probed is due again after its interval.
pub apply-due :
    (hash : ℕ → ℕ) (interval id : ℕ) (o : Outcome) (sweep : Bool) (now : ℕ) (p : Poller)
    (st : NodeRuntime)
    → lookup id p.state ≡ some st
    → (t : ℕ) × (next_due hash interval id (apply id o sweep now p) ≡ some (now + t))
      × IsNear interval t
unfolding apply advance
apply-due hash interval id o sweep now p st e = (
  interval_for hash interval id,
  rw (next_due, apply, e, lookup-insert, eq_self id) (due o),
  interval_for-IsNear hash interval id,
)
  where
    due :
        (r : Outcome)
        → due_after hash interval id (advance sweep now r st).last_probe
          ≡ some (now + interval_for hash interval id)
    due (found models) = refl
    due (failed text) = refl
