-- ===== src/Proxy.antt =====
-- internal/proxy/proxy.go: how a chat request that has reserved credits ends. The upstream exchange
-- is a value that says how it went; the HTTP calls, the usage log and the usage statistics are left
-- out. Token counts and costs are those of Credits/Estimator, and `charge_of` is the
-- float64 that the code computes for a cost.
pub mod Settlement
pub mod Admission
pub mod Models
mod Examples
use local_ai_proxy.Prelude.{
  ℕ, Bool, true, false, not, ◌&&◌, Option, none, some, ltb, nat_eq, if◌then◌else◌,
}
use local_ai_proxy.Prelude.Int.{ℤ, pos, negsuc}
use local_ai_proxy.Credits.Estimator.{CreditPricing, estimate_cost, estimate_from_response_bytes}
use local_ai_proxy.Store.Amounts.{Amount, no_amount}
use local_ai_proxy.Store.Sql.{Result, ok, err, World}
use local_ai_proxy.Store.Ledger.{settle_hold, release_hold}

pub record Usage : Type 0 where
  pub prompt_tokens : ℤ
  pub completion_tokens : ℤ
  pub total_tokens : ℤ

pub data StreamStatus : Type 0 where
  completed partial failed : StreamStatus

-- How the exchange with the node went: no answer that can be relayed (the request could not be
-- built or sent, or its body could not be read), an answer other than 200, a whole answer with its
-- length, or a stream with the bytes written to the client.
pub data Exchange : Type 0 where
  unanswered refused : Exchange
  answered : Usage → ℕ → Exchange
  streamed : Usage → ℕ → StreamStatus → Exchange

abbrev pub is_zero : ℤ → Bool
is_zero (pos n) = nat_eq n 0
is_zero (negsuc n) = false

-- The fallback where the node has reported no usage.
abbrev pub cost_of : Option CreditPricing → Usage → ℕ → ℤ
cost_of pricing usage bytes =
    if is_zero usage.total_tokens && ltb 0 bytes
    then estimate_cost pricing (pos 0) (pos (estimate_from_response_bytes bytes))
    else estimate_cost pricing usage.prompt_tokens usage.completion_tokens

-- `charged`, which is 0 beside an error.
abbrev pub charged_or_zero : Result Amount × World → Amount × World
charged_or_zero (ok c, w) = (c, w)
charged_or_zero (err e, w) = (no_amount, w)

-- The caller ignores the error of ReleaseHold.
abbrev pub uncharged : Result (Unit {0}) × World → Amount × World
uncharged (r, w) = (no_amount, w)

module _ (charge_of : ℤ → Amount) (pricing : Option CreditPricing) (hold_id : ℕ) where
  unfoldable pub settle_credits : Usage → ℕ → World → Amount × World
  settle_credits usage bytes w =
      charged_or_zero (settle_hold hold_id (charge_of (cost_of pricing usage bytes)) w)

  unfoldable pub settle_stream_credits : Usage → ℕ → StreamStatus → World → Amount × World
  unfolding settle_credits
  settle_stream_credits usage bytes completed w = settle_credits usage bytes w
  settle_stream_credits usage bytes partial w = settle_credits usage bytes w
  settle_stream_credits usage bytes failed w =
      if nat_eq bytes 0 then uncharged (release_hold hold_id w) else settle_credits usage bytes w

  -- The credits of the request, on every way out of handleNonStreaming and handleStreaming.
  unfoldable pub conclude : Exchange → World → Amount × World
  unfolding settle_credits settle_stream_credits
  conclude unanswered w = uncharged (release_hold hold_id w)
  conclude refused w = uncharged (release_hold hold_id w)
  conclude (answered usage bytes) w = settle_credits usage bytes w
  conclude (streamed usage bytes status) w = settle_stream_credits usage bytes status w
