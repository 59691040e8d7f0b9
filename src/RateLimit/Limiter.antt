-- ===== src/RateLimit/Limiter.antt =====
-- internal/ratelimit/ratelimit.go. The clock's reading is an argument of each operation; the mutex
-- makes each operation one step. `New` also starts a goroutine that calls `prune` every minute:
-- it is the `prunes` event of Limiter/Traffic.
pub mod Levels
pub mod Traffic
pub mod Idle
pub mod Retry
use local_ai_proxy.Prelude.{
  ℕ, ◌+◌, ◌*◌, Bool, not, Option, none, some, [], ltb, if◌then◌else◌, ℕ_key,
}
use local_ai_proxy.Prelude.Int.{ℤ, pos, ◌-ℤ◌, ◌+ℤ◌, ◌*ℤ◌, min_ℤ, leb_ℤ}
use local_ai_proxy.Prelude.Dict.{Dict, lookup, insert, retain}
use local_ai_proxy.RateLimit.Tokens.{
  token_unit, second, Verdict, allowed, denied, refilled, retry_after,
}

abbrev pub idle_cutoff : ℕ
idle_cutoff = 10 * 60 * second

-- `refill_rate` is in parts of a token for each nanosecond, which is the limit per minute.
pub record Bucket : Type 0 where
  pub tokens : ℤ
  pub capacity : ℤ
  pub refill_rate : ℤ
  pub last_refill : ℕ
  pub last_access : ℕ

abbrev pub Limiter : Type 0
Limiter = Dict ℕ Bucket

abbrev pub new : Limiter
new = []

abbrev pub parts : ℤ → ℤ
parts limit = limit *ℤ pos token_unit

-- The bucket that the first request of an ID leaves: one token is consumed.
unfoldable pub fresh : ℤ → ℕ → Bucket
fresh limit now = record {
  tokens = parts limit -ℤ pos token_unit;
  capacity = parts limit;
  refill_rate = limit;
  last_refill = now;
  last_access = now;
}

-- The limit is written anew on every call, and the elapsed time is paid in.
unfoldable pub refill : ℤ → ℕ → Bucket → Bucket
refill limit now b = record {
  tokens = refilled (parts limit) limit b.tokens b.last_refill now;
  capacity = parts limit;
  refill_rate = limit;
  last_refill = now;
  last_access = now;
}

unfoldable pub consume : Bucket → Verdict × Bucket
consume b =
    if leb_ℤ (pos token_unit) b.tokens
    then (allowed, record b { tokens = b.tokens -ℤ pos token_unit })
    else (denied (retry_after (pos token_unit -ℤ b.tokens) b.refill_rate), b)

unfoldable pub admit : ℤ → ℕ → Option Bucket → Verdict × Bucket
admit limit now none = (allowed, fresh limit now)
admit limit now (some b) = consume (refill limit now b)

-- `Allow`: every branch writes the bucket of the ID that asks.
unfoldable pub allow : ℕ → ℤ → ℕ → Limiter → Verdict × Limiter
allow id limit now l = let (v, b) = admit limit now (lookup id l) in (v, insert id b l)

unfoldable pub give_back : Bucket → Bucket
give_back b = record b { tokens = min_ℤ b.capacity (b.tokens +ℤ pos token_unit) }

-- `Return`: nothing happens for an unknown ID.
unfoldable pub refund : ℕ → Limiter → Limiter
refund id l = elim (lookup id l) [ none ↦ l | some b ↦ insert id (give_back b) l ]

-- `!lastAccess.Before(now - idleCutoff)`
unfoldable pub is_live : ℕ → Bucket → Bool
is_live now b = not (ltb (b.last_access + idle_cutoff) now)

unfoldable pub prune : ℕ → Limiter → Limiter
prune now l = retain (λ id b. is_live now b) l
