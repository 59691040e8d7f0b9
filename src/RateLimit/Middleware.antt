-- ===== src/RateLimit/Middleware.antt =====
-- internal/ratelimit/middleware.go. A request is two steps: `enter` up to the call of the next
-- handler, and `leave`, the deferred release, once that handler has returned. Metrics and logs are
-- left out; the messages of the errors are the constructors of `Rejection`.
pub mod Fairness
use local_ai_proxy.Prelude.{ℕ, Bool, true, false, not, Option, none, some, if◌then◌else◌}
use local_ai_proxy.Prelude.Int.{ℤ}
use local_ai_proxy.Entities.{ApiKey, Resolution}
use local_ai_proxy.RateLimit.Tokens.{Verdict, allowed, denied}
use local_ai_proxy.RateLimit.Limiter.{Limiter, allow, refund}
use local_ai_proxy.RateLimit.Limiter.Retry.{retry_header}
use local_ai_proxy.RateLimit.Concurrency.{Slots, try_acquire, release}

pub record Limits : Type 0 where
  pub end_user_per_min : ℤ
  pub service_per_min : ℤ
  pub end_user_max_concurrent : ℤ
  pub service_max_concurrent : ℤ

unfoldable pub max_concurrent : Limits → Bool → ℤ
max_concurrent limits managed =
    if managed then limits.end_user_max_concurrent else limits.service_max_concurrent

unfoldable pub effective_limit : Option ℤ → Bool → Limits → ℤ
effective_limit (some n) managed limits = n
effective_limit none managed limits =
    if managed then limits.end_user_per_min else limits.service_per_min

-- The 429 answers, with the seconds of their Retry-After header and the limit that they name.
pub data Rejection : Type 0 where
  account_rate : ℕ → ℤ → Rejection
  key_rate : ℕ → ℤ → Rejection
  too_many : ℕ → ℤ → Rejection

-- `serves true` calls the next handler under a concurrency slot.
pub data Outcome : Type 0 where
  serves : Bool → Outcome
  rejects : Rejection → Outcome

pub record Gate : Type 0 where
  pub keys : Limiter
  pub accounts : Limiter
  pub conc : Option Slots

-- The limit that a resolved account is held to.
abbrev pub limit_of : Limits → Resolution → ℤ
limit_of limits res = effective_limit res.rate_limit_per_min res.allowance_managed limits

abbrev pub refund_to : Option Resolution → Limiter → Limiter
refund_to none l = l
refund_to (some res) l = refund res.account_id l

unfoldable pub slot_gate : Limits → Option Resolution → Bool → Gate → Outcome × Gate
slot_gate limits none is_get g = (serves false, g)
slot_gate limits (some res) is_get g =
    if is_get
    then (serves false, g)
    else let max = max_concurrent limits res.allowance_managed in
      let (got, conc) = try_acquire res.account_id max g.conc in
      if got
      then (serves true, record g { conc = conc })
      else (rejects (too_many 5 max), record g { conc = conc })

unfoldable pub key_gate : Limits → ApiKey → Option Resolution → Bool → ℕ → Gate → Outcome × Gate
key_gate limits key res is_get now g =
    let (v, keys) = allow key.id key.rate_limit now g.keys in
    elim v [
      | allowed ↦ slot_gate limits res is_get (record g { keys = keys })
      | denied r ↦ (
        rejects (key_rate (retry_header r) key.rate_limit),
        record g { keys = keys; accounts = refund_to res g.accounts },
      )
    ]

unfoldable pub account_gate :
    Limits → ApiKey → Option Resolution → Bool → ℕ → ℕ → Gate → Outcome × Gate
account_gate limits key none is_get now later g = key_gate limits key none is_get later g
account_gate limits key (some res) is_get now later g =
    let limit = limit_of limits res in
    let (v, accounts) = allow res.account_id limit now g.accounts in
    elim v [
      | allowed ↦ key_gate limits key (some res) is_get later (record g { accounts = accounts })
      | denied r ↦ (rejects (account_rate (retry_header r) limit), record g { accounts = accounts })
    ]

-- The handler up to `next.ServeHTTP`; `now` and `later` are the two readings of the clock.
unfoldable pub enter :
    Limits → Option ApiKey → Option Resolution → Bool → ℕ → ℕ → Gate → Outcome × Gate
enter limits none res is_get now later g = (serves false, g)
enter limits (some key) res is_get now later g = account_gate limits key res is_get now later g

-- The deferred function: a slot that was taken is released.
unfoldable pub leave : Outcome → Option Resolution → Gate → Gate
leave (serves true) (some res) g = record g { conc = release res.account_id g.conc }
leave (serves true) none g = g
leave (serves false) res g = g
leave (rejects why) res g = g
