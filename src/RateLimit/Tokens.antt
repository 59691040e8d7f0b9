-- ===== src/RateLimit/Tokens.antt =====
-- The arithmetic of the token buckets (internal/ratelimit, internal/authlimit and
-- internal/admin/session_limiter.go share it). The source counts tokens in float64; here one token
-- is `token_unit` = 60 * 10^9 parts, so that a limit of n per minute refills n parts in each
-- nanosecond, and the arithmetic is exact.
use local_ai_proxy.Prelude.{ℕ, ◌+◌, ◌-◌, ◌*◌, ◌≤◌, ◌≡◌, min, arith}
use local_ai_proxy.Prelude.Int.{ℤ, pos, sub_ℕ, ◌+ℤ◌, ◌*ℤ◌, min_ℤ}

abbrev pub token_unit : ℕ
token_unit = 60 * 1000000000

-- Nanoseconds, as in time.Duration.
abbrev pub second : ℕ
second = 1000000000

-- The exact quotient of two numbers; a zero divisor is the float's infinity.
pub record Seconds : Type 0 where
  pub num : ℤ
  pub den : ℤ

-- The answer of a limiter: `(true, 0)`, or `(false, retryAfter)`.
pub data Verdict : Type 0 where
  allowed : Verdict
  denied : Seconds → Verdict

-- `math.Min(capacity, tokens + elapsed * refillRate)`
unfoldable pub refilled : ℤ → ℤ → ℤ → ℕ → ℕ → ℤ
refilled capacity rate tokens last now = min_ℤ capacity (tokens +ℤ sub_ℕ now last *ℤ rate)

-- `(1 - tokens) / refillRate`, in seconds
abbrev pub retry_after : ℤ → ℤ → Seconds
retry_after missing rate = record { num = missing; den = rate *ℤ pos second }

-- On a bucket that owes nothing, read by a clock that does not go back, the sum is that of numbers.
pub refilled_lem :
    (c r t last now : ℕ)
    → last ≤ now
    → refilled (pos c) (pos r) (pos t) last now ≡ pos (min c (t + (now - last) * r))
unfolding refilled ◌+ℤ◌ ◌*ℤ◌
refilled_lem c r t last now h = ground arith
