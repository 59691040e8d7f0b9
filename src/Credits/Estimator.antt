-- ===== src/Credits/Estimator.antt =====
-- internal/credits/estimator.go. A rate is a number of millionths of a credit per million tokens,
-- which are the decimals that the database keeps; a cost is then a number of 10^-12 credits, and
-- the division by a million is exact.
use local_ai_proxy.Prelude.{
  ℕ, ◌+◌, ◌*◌, ◌/◌, ◌≤◌, ◌<◌, ◌≡◌, ◌↔◌, ◌&&◌, Option, none, some, arith, ltb, if◌then◌else◌, max,
}
use local_ai_proxy.Prelude.Int.{ℤ, pos, ltb_ℤ, leb_ℤ, ◌*ℤ◌, ◌+ℤ◌, ◌≤ℤ◌, pos-*ℤ}

-- The fields that the estimates read.
pub record CreditPricing : Type 0 where
  pub prompt_rate_per_mtok : ℕ
  pub completion_rate_per_mtok : ℕ
  pub typical_completion : ℤ

pub record AccountUsageStats : Type 0 where
  pub avg_completion_tokens : ℤ
  pub request_count : ℤ

abbrev pub global_default_completion : ℤ
global_default_completion = pos 500

unfoldable pub estimate_prompt_tokens : ℕ → ℕ
estimate_prompt_tokens body_len = let tokens = body_len / 4 in if ltb tokens 1 then 1 else tokens

-- The model's own default, or the global one.
abbrev pub from_pricing : Option CreditPricing → ℤ
from_pricing none = global_default_completion
from_pricing (some p) =
    if ltb_ℤ (pos 0) p.typical_completion then p.typical_completion else global_default_completion

abbrev pub from_stats : Option AccountUsageStats → Option CreditPricing → ℤ
from_stats none pricing = from_pricing pricing
from_stats (some s) pricing =
    if leb_ℤ (pos 10) s.request_count then s.avg_completion_tokens else from_pricing pricing

unfoldable pub estimate_completion_tokens :
    Option ℤ → Option AccountUsageStats → Option CreditPricing → ℤ
estimate_completion_tokens none stats pricing = from_stats stats pricing
estimate_completion_tokens (some n) stats pricing =
    if ltb_ℤ (pos 0) n then n else from_stats stats pricing

unfoldable pub estimate_cost : Option CreditPricing → ℤ → ℤ → ℤ
estimate_cost none prompt completion = pos 0
estimate_cost (some p) prompt completion =
    prompt *ℤ pos p.prompt_rate_per_mtok +ℤ completion *ℤ pos p.completion_rate_per_mtok

unfoldable pub estimate_from_response_bytes : ℕ → ℕ
estimate_from_response_bytes bytes =
    let tokens = bytes / 4 in if ltb tokens 1 && ltb 0 bytes then 1 else tokens

-- The estimate of a prompt is at least one token, never more than a token for each byte of a body
-- that is not empty, and what it leaves out is less than one token of four bytes.
pub estimate_prompt_bounds :
    (len : ℕ)
    → (1 ≤ estimate_prompt_tokens len)
      × (estimate_prompt_tokens len ≤ max 1 len)
      × (len < 4 * estimate_prompt_tokens len + 4)
unfolding estimate_prompt_tokens
estimate_prompt_bounds len = ground arith

-- A response costs no token exactly if it has no byte, and four bytes make a token.
pub estimate_response_bounds :
    (bytes : ℕ)
    → (4 * estimate_from_response_bytes bytes ≤ max 4 bytes)
      × (bytes ≤ 4 * estimate_from_response_bytes bytes + 3)
      × ((estimate_from_response_bytes bytes ≡ 0) ↔ (bytes ≡ 0))
unfolding estimate_from_response_bytes
estimate_response_bounds bytes = ground arith

pos-+ℤ : (m n : ℕ) → pos m +ℤ pos n ≡ pos (m + n)
unfolding ◌+ℤ◌
pos-+ℤ m n = ground arith

estimate_cost-pos :
    (p : CreditPricing) (a c : ℕ)
    → estimate_cost (some p) (pos a) (pos c)
      ≡ pos (a * p.prompt_rate_per_mtok + c * p.completion_rate_per_mtok)
unfolding estimate_cost
estimate_cost-pos p a c =
    rw (pos-*ℤ a p.prompt_rate_per_mtok, pos-*ℤ c p.completion_rate_per_mtok)
      (pos-+ℤ (a * p.prompt_rate_per_mtok) (c * p.completion_rate_per_mtok))

-- More tokens never cost less.
pub estimate_cost-mono :
    (pricing : Option CreditPricing) (a b c d : ℕ)
    → a ≤ b
    → c ≤ d
    → estimate_cost pricing (pos a) (pos c) ≤ℤ estimate_cost pricing (pos b) (pos d)
unfolding estimate_cost
estimate_cost-mono none a b c d h k = omega arith
estimate_cost-mono (some p) a b c d h k =
    rw (estimate_cost-pos p a c, estimate_cost-pos p b d)
      (omega (arith, times a b p.prompt_rate_per_mtok h, times c d p.completion_rate_per_mtok k))
  where
    times : (x y r : ℕ) → x ≤ y → x * r ≤ y * r
    times x y r e = grind arith
