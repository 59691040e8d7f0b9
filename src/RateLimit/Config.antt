-- ===== src/RateLimit/Config.antt =====
-- internal/ratelimit/validate.go
use local_ai_proxy.Prelude.{Option, none, some, arith, if◌then◌else◌}
use local_ai_proxy.Prelude.Int.{ℤ, pos, ◌≤ℤ◌, leb_ℤ, ltb_ℤ}

abbrev pub max_config_per_minute : ℤ
max_config_per_minute = pos 10000

abbrev pub default_config_per_minute : ℤ
default_config_per_minute = pos 60

-- `none` is ErrConfigTooHigh.
unfoldable pub apply_config_defaults_and_cap : ℤ → Option ℤ
apply_config_defaults_and_cap n =
    if leb_ℤ n (pos 0)
    then some default_config_per_minute
    else if ltb_ℤ max_config_per_minute n
    then none
    else some n

abbrev pub IsAnswer : ℤ → Option ℤ → Type 0
IsAnswer n none = pos 10001 ≤ℤ n
IsAnswer n (some m) = (pos 1 ≤ℤ m) × (m ≤ℤ max_config_per_minute) × (n ≤ℤ max_config_per_minute)

-- Whatever a caller sends, a limit that is accepted lies between 1 and the maximum, and what is
-- refused lies above the maximum, which nothing accepted did.
pub apply_config_bounds : (n : ℤ) → IsAnswer n (apply_config_defaults_and_cap n)
unfolding apply_config_defaults_and_cap
apply_config_bounds n = ground arith
