-- ===== src/AuthLimit/Bcrypt.antt =====
-- internal/authlimit/authlimit.go: the cap on bcrypt operations that run at once.
use local_ai_proxy.Prelude.{
  ℕ, zero, suc, ◌≤◌, ◌≡◌, refl, sym, subst, Bool, true, false, Option, some, List, [], ◌∷◌, arith,
  ltb, inl, inr, Bool-cases,
}
use local_ai_proxy.AuthLimit.{Guard, try_send, try_receive, try_acquire_bcrypt, release_bcrypt}

-- An operation asks for a slot, or one that has a slot ends.
pub data Turn : Type 0 where
  asks ends : Turn

abbrev pub counted : ℕ → Bool × Option Guard → Option Guard × ℕ
counted running (true, g) = (g, suc running)
counted running (false, g) = (g, running)

-- The guard and the number of operations that run.
unfoldable pub turn : Turn → Option Guard × ℕ → Option Guard × ℕ
turn asks (g, running) = counted running (try_acquire_bcrypt g)
turn ends (g, zero) = (g, zero)
turn ends (g, suc running) = (release_bcrypt g, running)

unfoldable pub turns : List Turn → Option Guard × ℕ → Option Guard × ℕ
turns [] s = s
turns (t ∷ ts) s = turns ts (turn t s)

abbrev pub guard_with : Guard → ℕ → ℕ → Option Guard
guard_with g size taken =
    some (record g { bcrypt_sem = some (record { size = size; taken = taken }) })

-- The semaphore counts what runs, and no more than its size runs.
abbrev pub IsCapped : Guard → ℕ → Option Guard × ℕ → Type 0
IsCapped g size (s, running) = (s ≡ guard_with g size running) × (running ≤ size)

turn-IsCapped :
    (g : Guard) (size running : ℕ) (t : Turn)
    → running ≤ size
    → IsCapped g size (turn t (guard_with g size running, running))
unfolding turn try_acquire_bcrypt release_bcrypt try_send try_receive
turn-IsCapped g size running asks h = elim (Bool-cases (ltb running size)) [
  | inl e ↦ rw (turn, try_acquire_bcrypt, try_send, e) (refl, ground arith)
  | inr e ↦ rw (turn, try_acquire_bcrypt, try_send, e) (refl, h)
]
turn-IsCapped g size zero ends h = (refl, h)
turn-IsCapped g size (suc running) ends h = (refl, omega (arith, h))

-- Whatever operations ask and end: the semaphore of a guard with `size` slots counts exactly the
-- operations that run, and never more than `size` of them run at once.
pub turns-IsCapped :
    (g : Guard) (size running : ℕ) (ts : List Turn)
    → running ≤ size
    → IsCapped g size (turns ts (guard_with g size running, running))
unfolding turns
turns-IsCapped g size running [] h = (refl, h)
turns-IsCapped g size running (t ∷ ts) h =
    let (same, within) = turn-IsCapped g size running t h in
    let s = turn t (guard_with g size running, running) in
    subst (λ (d : Option Guard). IsCapped g size (turns ts (d, s.1))) (sym same)
      (turns-IsCapped g size s.1 ts within)
