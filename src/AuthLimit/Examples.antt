-- ===== src/AuthLimit/Examples.antt =====
-- Tests of internal/authlimit, and its theorems at concrete requests.
use local_ai_proxy.Prelude.{◌+◌, ◌-◌, ◌*◌, ◌≤◌, ◌≡◌, refl, true, some, [], ◌∷◌, arith, String_key}
use local_ai_proxy.Prelude.Int.{pos, ◌-ℤ◌, ◌*ℤ◌, ◌+ℤ◌}
use local_ai_proxy.Prelude.Dict.{lookup, insert}
use local_ai_proxy.RateLimit.Tokens.{second, allowed, denied, refilled}
use local_ai_proxy.RateLimit.Limiter.Levels.{spendable}
use local_ai_proxy.AuthLimit.{
  Config, new_guard, Request, admit_request, allow_login_ip, allow_register_ip,
}
use local_ai_proxy.AuthLimit.Keyed.{KeyBucket, charge, take_token, allow_key}
use local_ai_proxy.AuthLimit.Attempts.{tries, ticks, spent, limiter_of, bucket_of, attempts-le}
use local_ai_proxy.AuthLimit.Bcrypt.{asks, ends, turns, guard_with, IsCapped, turns-IsCapped}

abbrev config : Config
config = record {
  login_per_min_ip = pos 1;
  login_per_min_email = pos 5;
  register_per_min_ip = pos 0;
  general_per_min_ip = pos 60;
  bcrypt_concurrency = pos 2;
}

abbrev login : Request
login = record { is_post = true; path = "/api/auth/login"; client_ip = "10.0.0.1" }

abbrev registration : Request
registration = record { is_post = true; path = "/api/auth/register"; client_ip = "10.0.0.1" }

-- The second login within half a minute waits for the other half.
too_early :
    (admit_request login (30 * second) (admit_request login 0 (some (new_guard config))).1).0
    ≡ denied (record { num = pos (30 * second); den = pos second })
unfolding admit_request allow_login_ip new_guard allow_key charge take_token refilled lookup insert
    ◌-ℤ◌ ◌+ℤ◌ ◌*ℤ◌
too_early = refl

-- A rate of 0 switches a limiter off.
registration_unlimited :
    (admit_request registration 0 (admit_request registration 0 (some (new_guard config))).1).0
    ≡ allowed
unfolding admit_request allow_register_ip new_guard allow_key
registration_unlimited = refl

abbrev half : KeyBucket
half = record { tokens = pos 5; last_refill = 0; last_access = 0 }

attempts-le_example :
    spent "10.0.0.1"
      (tries "10.0.0.1" 0 ∷ tries "10.0.0.1" second ∷ ticks (2 * second) ∷ [])
      (limiter_of 1 [])
    ≤ spendable 1 0 (bucket_of 1 "10.0.0.1" []) + (2 * second - 0) * 1
unfolding lookup
attempts-le_example =
    attempts-le 1 0 "10.0.0.1"
      (tries "10.0.0.1" 0 ∷ tries "10.0.0.1" second ∷ ticks (2 * second) ∷ []) [] (omega arith) tt
      (omega arith, (omega arith, (omega arith, tt)))

turns-IsCapped_example :
    IsCapped
      (new_guard config)
      2
      (turns (asks ∷ asks ∷ asks ∷ ends ∷ []) (guard_with (new_guard config) 2 0, 0))
turns-IsCapped_example =
    turns-IsCapped (new_guard config) 2 0 (asks ∷ asks ∷ asks ∷ ends ∷ []) (omega arith)
