-- ===== src/RateLimit/Limiter/Retry.antt =====
-- The Retry-After of internal/ratelimit: what `Allow` returns, and what `writeRateLimited` of
-- internal/ratelimit/middleware.go sends.
use local_ai_proxy.Prelude.{ℕ, zero, suc, ◌+◌, ◌-◌, ◌/◌, ◌≤◌, arith, ℕ_key, if◌then◌else◌, ltb}
use local_ai_proxy.Prelude.Int.{ℤ, pos, negsuc}
use local_ai_proxy.RateLimit.Tokens.{Seconds}

-- `if secs < 1 { secs = 1 }; if secs > 3600 { secs = 3600 }`
abbrev pub clamp : ℕ → ℕ
clamp secs = if ltb secs 1 then 1 else if ltb 3600 secs then 3600 else secs

abbrev pub ceil_div : ℕ → ℕ → ℕ
ceil_div a b = (a + (b - 1)) / b

-- `math.Ceil` and the two clamps: a zero divisor is +Inf, NaN at 0 / 0, or -Inf.
unfoldable pub header_seconds : ℤ → ℤ → ℕ
header_seconds (pos zero) (pos zero) = 1
header_seconds (pos (suc a)) (pos zero) = 3600
header_seconds (pos a) (pos (suc b)) = clamp (ceil_div a (suc b))
header_seconds (negsuc a) (pos b) = 1
header_seconds (pos a) (negsuc b) = 1
header_seconds (negsuc a) (negsuc b) = clamp (ceil_div (suc a) (suc b))

unfoldable pub retry_header : Seconds → ℕ
retry_header r = header_seconds r.num r.den

-- The header is never 0, and never more than an hour.
pub retry_header_bounds : (r : Seconds) → (1 ≤ retry_header r) × (retry_header r ≤ 3600)
unfolding retry_header header_seconds
retry_header_bounds r = bounds r.num r.den
  where
    bounds : (a b : ℤ) → (1 ≤ header_seconds a b) × (header_seconds a b ≤ 3600)
    bounds (pos zero) (pos zero) = omega arith
    bounds (pos (suc a)) (pos zero) = omega arith
    bounds (pos zero) (pos (suc b)) = ground arith
    bounds (pos (suc a)) (pos (suc b)) = ground arith
    bounds (negsuc a) (pos b) = omega arith
    bounds (pos zero) (negsuc b) = omega arith
    bounds (pos (suc a)) (negsuc b) = omega arith
    bounds (negsuc a) (negsuc b) = ground arith
