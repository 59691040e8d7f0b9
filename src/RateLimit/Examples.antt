-- ===== src/RateLimit/Examples.antt =====
-- Tests of internal/ratelimit, and its theorems at concrete requests.
use local_ai_proxy.Prelude.{
  ◌+◌, ◌-◌, ◌*◌, ◌≤◌, ◌≡◌, refl, true, false, none, some, [], ◌∷◌, arith, ℕ_key,
}
use local_ai_proxy.Prelude.Int.{pos, ◌+ℤ◌, ◌-ℤ◌, ◌*ℤ◌}
use local_ai_proxy.Prelude.Dict.{lookup, insert}
use local_ai_proxy.Entities.{ApiKey, Resolution}
use local_ai_proxy.RateLimit.Tokens.{token_unit, second, denied, refilled}
use local_ai_proxy.RateLimit.Limiter.{Limiter, new, fresh, refill, consume, admit, allow, prune}
use local_ai_proxy.RateLimit.Limiter.Levels.{bucket_at, bucket_at-IsFilled, spendable}
use local_ai_proxy.RateLimit.Limiter.Traffic.{asks, refunds, prunes, spent, given, spent-le}
use local_ai_proxy.RateLimit.Limiter.Retry.{retry_header, header_seconds}
use local_ai_proxy.RateLimit.Limiter.Idle.{allow-prune}
use local_ai_proxy.RateLimit.Concurrency.{new_concurrency, take_slot, try_acquire}
use local_ai_proxy.RateLimit.Concurrency.Flights.{
  System, enters, Reach, start, next, IsCounted, Reach-IsCounted,
}
use local_ai_proxy.RateLimit.Middleware.{Limits, Gate, enter}
use local_ai_proxy.RateLimit.Middleware.Fairness.{enter-other_account}

-- An empty bucket of two per minute, and a full one.
abbrev drained : Limiter
drained = insert 7 (bucket_at 2 0 0) []

abbrev limits : Limits
limits = record {
  end_user_per_min = pos 2;
  service_per_min = pos 60;
  end_user_max_concurrent = pos 1;
  service_max_concurrent = pos 4;
}

abbrev key : ApiKey
key = record {
  id = 3;
  rate_limit = pos 1;
  account_id = some 7;
  session_token_limit = none;
  trust_user_headers = true;
  account_rate_limit_per_min = none;
  account_allowance_managed = true;
}

abbrev user : Resolution
user = record { account_id = 7; allowance_managed = true; rate_limit_per_min = none }

abbrev idle : Gate
idle = record { keys = new; accounts = new; conc = some new_concurrency }

-- The third request within a second is refused, and told to wait for half a minute.
third_refused :
    (allow 7 (pos 2) 0 (allow 7 (pos 2) 0 (allow 7 (pos 2) 0 new).1).1).0
    ≡ denied (record { num = pos token_unit; den = pos (2 * second) })
unfolding allow admit fresh refill consume refilled lookup insert ◌-ℤ◌ ◌+ℤ◌ ◌*ℤ◌
third_refused = refl

header_of_a_minute : retry_header (record { num = pos token_unit; den = pos second }) ≡ 60
unfolding retry_header header_seconds
header_of_a_minute = refl

header_of_zero_limit : retry_header (record { num = pos token_unit; den = pos 0 }) ≡ 3600
unfolding retry_header header_seconds
header_of_zero_limit = refl

spent-le_example :
    spent 7 (asks 7 (pos 2) second ∷ refunds 7 ∷ prunes (700 * second) ∷ []) drained
    ≤ spendable 2 0 (lookup 7 drained)
      + (700 * second - 0) * 2
      + given 7 (asks 7 (pos 2) second ∷ refunds 7 ∷ prunes (700 * second) ∷ [])
unfolding insert lookup
spent-le_example =
    spent-le 7 2 0 (asks 7 (pos 2) second ∷ refunds 7 ∷ prunes (700 * second) ∷ []) drained
      (omega arith) (bucket_at-IsFilled 2 0 0 0 (omega arith) (omega arith))
      (omega arith, (λ e. refl), (omega arith, tt, (omega arith, tt, tt)))

allow-prune_example :
    ((allow 7 (pos 5) (800 * second) (prune (700 * second) drained)).0
      ≡ (allow 7 (pos 5) (800 * second) drained).0)
    × (lookup 7 (allow 7 (pos 5) (800 * second) (prune (700 * second) drained)).1
        ≡ lookup 7 (allow 7 (pos 5) (800 * second) drained).1)
unfolding insert lookup
allow-prune_example =
    allow-prune 5 2 (700 * second) (800 * second) 7 drained (omega arith) (omega arith)
      (bucket_at-IsFilled 2 (700 * second) 0 0 (omega arith) (omega arith))

abbrev empty_system : System
empty_system = record { slots = some new_concurrency; running = [] }

-- One request of account 7, under a cap of one.
abbrev busy : System
busy = record { slots = some ((7, 1) ∷ []); running = 7 ∷ [] }

busy-Reach : Reach (λ id. pos 1) busy
unfolding try_acquire take_slot insert lookup
busy-Reach = next empty_system busy (start empty_system refl) (enters 7 refl refl)

Reach-IsCounted_example : IsCounted (λ id. pos 1) busy
Reach-IsCounted_example = Reach-IsCounted (λ id. omega arith) busy busy-Reach

abbrev throttled : Gate
throttled = record idle { accounts = drained }

-- The key's own bucket is empty.
abbrev worn_key : Gate
worn_key = record idle { keys = insert 3 (bucket_at 1 0 0) [] }

abbrev full_house : Gate
full_house = record idle { conc = busy.slots }

enter-other_account_example :
    lookup 8 (enter limits (some key) (some user) false 0 0 worn_key).1.accounts
    ≡ lookup 8 worn_key.accounts
enter-other_account_example =
    enter-other_account limits key (some user) false 0 0 8 worn_key (omega arith)
