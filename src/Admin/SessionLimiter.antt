-- ===== src/Admin/SessionLimiter.antt =====
-- internal/admin/session_limiter.go. The keys are the hashes of the sessions' tokens; tokens as in
-- RateLimit.Tokens.
use local_ai_proxy.Prelude.{
  ℕ, ◌+◌, ◌*◌, ◌≡◌, refl, Bool, true, false, not, Option, none, some, String, arith, ltb,
  if◌then◌else◌, String_key,
}
use mathlib.Core.Option
use local_ai_proxy.Prelude.Int.{ℤ, pos, leb_ℤ, ◌-ℤ◌}
use local_ai_proxy.Prelude.Dict.{Dict, lookup, insert, retain}
use local_ai_proxy.RateLimit.Tokens.{token_unit, second, Verdict, allowed, denied, refilled}
use local_ai_proxy.RateLimit.Limiter.{parts}
use local_ai_proxy.AuthLimit.Keyed.{KeyBucket, charge, take_token}

abbrev pub per_session_rate_limit : ℤ
per_session_rate_limit = pos 300

abbrev pub session_idle_cutoff : ℕ
session_idle_cutoff = 10 * 60 * second

pub record SessionBucket : Type 0 where
  pub tokens : ℤ
  pub last_refill : ℕ
  pub last_access : ℕ

abbrev pub first_session : ℕ → SessionBucket
first_session now = record {
  tokens = parts per_session_rate_limit -ℤ pos token_unit;
  last_refill = now;
  last_access = now;
}

abbrev pub refilled_session : ℕ → SessionBucket → SessionBucket
refilled_session now b = record {
  tokens =
      refilled (parts per_session_rate_limit) per_session_rate_limit b.tokens b.last_refill now;
  last_refill = now;
  last_access = now;
}

unfoldable pub take_session : SessionBucket → Bool × SessionBucket
take_session b =
    if leb_ℤ (pos token_unit) b.tokens
    then (true, record b { tokens = b.tokens -ℤ pos token_unit })
    else (false, b)

unfoldable pub charge_session : ℕ → Option SessionBucket → Bool × SessionBucket
charge_session now none = (true, first_session now)
charge_session now (some b) = take_session (refilled_session now b)

-- `Allow`
unfoldable pub allow_session :
    String → ℕ → Dict String SessionBucket → Bool × Dict String SessionBucket
allow_session hash now l = let (ok, b) = charge_session now (lookup hash l) in (ok, insert hash b l)

-- `prune`
unfoldable pub prune_sessions : ℕ → Dict String SessionBucket → Dict String SessionBucket
prune_sessions now l = retain (λ hash b. not (ltb (b.last_access + session_idle_cutoff) now)) l

abbrev pub as_key_bucket : SessionBucket → KeyBucket
as_key_bucket b = record {
  tokens = b.tokens;
  last_refill = b.last_refill;
  last_access = b.last_access;
}

-- A verdict without its retry time.
abbrev pub is_allowed : Verdict → Bool
is_allowed allowed = true
is_allowed (denied r) = false

abbrev pub plain : Verdict × KeyBucket → Bool × KeyBucket
plain (v, b) = (is_allowed v, b)

abbrev pub keyed : Bool × SessionBucket → Bool × KeyBucket
keyed (ok, b) = (ok, as_key_bucket b)

take_session-take_token :
    (b : SessionBucket)
    → plain (take_token per_session_rate_limit (as_key_bucket b)) ≡ keyed (take_session b)
unfolding take_session take_token
take_session-take_token b = ground arith

-- An admin session is limited as a key of the public endpoints would be at 300 requests a minute:
-- on the same bucket both decide alike and leave the same bucket.
pub charge_session-charge :
    (now : ℕ) (o : Option SessionBucket)
    → plain (charge per_session_rate_limit per_session_rate_limit now (Option.map as_key_bucket o))
      ≡ keyed (charge_session now o)
unfolding charge charge_session
charge_session-charge now none = refl
charge_session-charge now (some b) = take_session-take_token (refilled_session now b)
