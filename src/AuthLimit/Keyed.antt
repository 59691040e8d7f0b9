-- ===== src/AuthLimit/Keyed.antt =====
-- internal/authlimit/authlimit.go: keyedLimiter. Tokens as in RateLimit.Tokens.
use local_ai_proxy.Prelude.{
  ℕ, ◌+◌, ◌≡◌, refl, Bool, not, Option, none, some, String, [], arith, ltb, if◌then◌else◌,
  String_key,
}
use mathlib.Core.Option
use local_ai_proxy.Prelude.Int.{ℤ, pos, leb_ℤ, ◌-ℤ◌}
use local_ai_proxy.Prelude.Dict.{Dict, lookup, insert, retain}
use local_ai_proxy.RateLimit.Tokens.{token_unit, Verdict, allowed, denied, refilled, retry_after}
use local_ai_proxy.RateLimit.Limiter.{Bucket, parts, fresh, refill, consume, admit, idle_cutoff}

pub record KeyBucket : Type 0 where
  pub tokens : ℤ
  pub last_refill : ℕ
  pub last_access : ℕ

-- The capacity is in tokens, the rate per minute; the source keeps both as float64.
pub record KeyedLimiter : Type 0 where
  pub buckets : Dict String KeyBucket
  pub capacity : ℤ
  pub refill_rate : ℤ

abbrev pub new_keyed_limiter : ℤ → KeyedLimiter
new_keyed_limiter per_minute = record {
  buckets = [];
  capacity = per_minute;
  refill_rate = per_minute;
}

abbrev pub first_bucket : ℤ → ℕ → KeyBucket
first_bucket capacity now = record {
  tokens = parts capacity -ℤ pos token_unit;
  last_refill = now;
  last_access = now;
}

abbrev pub top_up : ℤ → ℤ → ℕ → KeyBucket → KeyBucket
top_up capacity rate now b = record {
  tokens = refilled (parts capacity) rate b.tokens b.last_refill now;
  last_refill = now;
  last_access = now;
}

unfoldable pub take_token : ℤ → KeyBucket → Verdict × KeyBucket
take_token rate b =
    if leb_ℤ (pos token_unit) b.tokens
    then (allowed, record b { tokens = b.tokens -ℤ pos token_unit })
    else (denied (retry_after (pos token_unit -ℤ b.tokens) rate), b)

unfoldable pub charge : ℤ → ℤ → ℕ → Option KeyBucket → Verdict × KeyBucket
charge capacity rate now none = (allowed, first_bucket capacity now)
charge capacity rate now (some b) = take_token rate (top_up capacity rate now b)

-- `allow`; a capacity of 0 or less disables the limiter.
unfoldable pub allow_key : String → ℕ → Option KeyedLimiter → Verdict × Option KeyedLimiter
allow_key key now none = (allowed, none)
allow_key key now (some l) =
    if leb_ℤ l.capacity (pos 0)
    then (allowed, some l)
    else let (v, b) = charge l.capacity l.refill_rate now (lookup key l.buckets) in
      (v, some (record l { buckets = insert key b l.buckets }))

abbrev pub is_recent : ℕ → KeyBucket → Bool
is_recent now b = not (ltb (b.last_access + idle_cutoff) now)

-- `prune(idleCutoff)`
unfoldable pub prune_keys : ℕ → Option KeyedLimiter → Option KeyedLimiter
prune_keys now none = none
prune_keys now (some l) = some (record l { buckets = retain (λ key b. is_recent now b) l.buckets })

-- The same bucket with the limit that the limiter of internal/ratelimit writes into each of its own.
abbrev pub with_limit : ℤ → KeyBucket → Bucket
with_limit limit b = record {
  tokens = b.tokens;
  capacity = parts limit;
  refill_rate = limit;
  last_refill = b.last_refill;
  last_access = b.last_access;
}

abbrev pub limited : ℤ → Verdict × KeyBucket → Verdict × Bucket
limited limit (v, b) = (v, with_limit limit b)

take_token-consume :
    (limit : ℤ) (b : KeyBucket) → consume (with_limit limit b) ≡ limited limit (take_token limit b)
unfolding consume take_token
take_token-consume limit b = ground arith

-- The limiter of the public endpoints and the limiter of API keys and accounts decide alike: on
-- the same bucket under the same limit they answer the same and leave the same bucket.
pub charge-admit :
    (limit : ℤ) (now : ℕ) (o : Option KeyBucket)
    → admit limit now (Option.map (with_limit limit) o) ≡ limited limit (charge limit limit now o)
unfolding admit charge fresh refill
charge-admit limit now none = refl
charge-admit limit now (some b) = take_token-consume limit (top_up limit limit now b)
