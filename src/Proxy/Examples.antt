-- ===== src/Proxy/Examples.antt =====
-- Tests of internal/proxy/proxy.go, and its theorem at a concrete request.
use local_ai_proxy.Store.Directory.{no_directory}
use local_ai_proxy.Prelude.{
  arith, true, false, ◌≡◌, refl, none, some, [], ◌∷◌, ℕ_key, String_key, String_key,
}
use local_ai_proxy.Prelude.Int.{pos, ◌+ℤ◌, ◌-ℤ◌, ◌*ℤ◌}
use local_ai_proxy.Prelude.Dict.{lookup, insert}
use local_ai_proxy.Credits.Estimator.{CreditPricing, estimate_cost, estimate_from_response_bytes}
use local_ai_proxy.Store.Amounts.{whole_units}
use local_ai_proxy.Store.Sql.{
  ok, Balance, Db, transaction, rollback, statement, answer, ◌>>=◌, pure, require, clock,
}
use local_ai_proxy.Store.Ledger.{reserve_credits, select_balance, insert_hold, update_balance}
use local_ai_proxy.Proxy.{Usage, completed, streamed, conclude, cost_of}
use local_ai_proxy.Entities.{ApiKey}
use local_ai_proxy.Registry.{Node, Registry, resolve, pick, new}
use local_ai_proxy.Credits.Estimator.{estimate_prompt_tokens, estimate_completion_tokens}
use local_ai_proxy.Proxy.Admission.{
  ChatRequest, Readings, forwards, refuses, unavailable_model, admit_chat, check_credits,
  check_pricing, priced, dispatch,
}
use local_ai_proxy.Proxy.Settlement.{calm, IsConcluded, request-IsConcluded}

abbrev funds : Balance
funds = record { balance = pos 100; reserved = pos 0; allowance_period = none }

abbrev opened : Db
opened = record {
  accounts = [];
  balances = (7, funds) ∷ [];
  holds = [];
  transactions = [];
  hold_seq = 4;
  nodes = [];
  node_seq = 0;
  requests = [];
  request_seq = 0;
  directory = no_directory;
}

abbrev prices : CreditPricing
prices = record {
  prompt_rate_per_mtok = 1;
  completion_rate_per_mtok = 2;
  typical_completion = pos 0;
}

abbrev usage : Usage
usage = record { prompt_tokens = pos 3; completion_tokens = pos 5; total_tokens = pos 8 }

reported_cost : cost_of (some prices) usage 40 ≡ pos 13
unfolding estimate_cost ◌+ℤ◌ ◌*ℤ◌
reported_cost = refl

-- Forty bytes without a usage report count as ten tokens.
fallback_cost :
    cost_of
      (some prices)
      (record { prompt_tokens = pos 0; completion_tokens = pos 0; total_tokens = pos 0 })
      40
    ≡ pos 20
unfolding estimate_cost estimate_from_response_bytes ◌+ℤ◌ ◌*ℤ◌
fallback_cost = refl

request-IsConcluded_example :
    IsConcluded 7 funds 5
      (conclude whole_units
        (some prices)
        5
        (streamed usage 40 completed)
        (calm (reserve_credits 7 (whole_units (pos 60)) (calm opened 1)).1.db 2)).0
      (conclude whole_units
        (some prices)
        5
        (streamed usage 40 completed)
        (calm (reserve_credits 7 (whole_units (pos 60)) (calm opened 1)).1.db 2)).1.db
unfolding reserve_credits transaction rollback statement answer ◌>>=◌ pure require clock
    select_balance insert_hold update_balance lookup insert ◌-ℤ◌
request-IsConcluded_example =
    request-IsConcluded 7 2 5 (whole_units (pos 60)) (calm opened 1) funds whole_units (some prices)
      (streamed usage 40 completed) refl (omega arith) (omega arith) refl

abbrev gpu : Node
gpu = record { id = 1; name = "gpu"; base_url = some "http://a"; auth_header = ""; timeout = 0 }

abbrev serving_gpu : Registry
serving_gpu = record {
  entries = [];
  counters = [];
  snap = record { nodes = []; models = ("llama", gpu ∷ []) ∷ [] };
}

abbrev chat : ChatRequest
chat = record {
  too_large = false;
  readable = true;
  is_json = true;
  model = "llama";
  is_blank = false;
  max_tokens = some (pos 10);
  max_completion_tokens = none;
  body_len = 8;
}

abbrev readings : Readings
readings = record {
  pricing = ok (some prices);
  session_stats = none;
  stats = none;
  consumed = ok (pos 0);
}

abbrev payer : ApiKey
payer = record {
  id = 3;
  rate_limit = pos 1;
  account_id = some 7;
  session_token_limit = some (pos 1000);
  trust_user_headers = false;
  account_rate_limit_per_min = none;
  account_allowance_managed = false;
}

forwarded_with_hold :
    (admit_chat whole_units chat readings true (some payer) none (calm opened 1) serving_gpu).0
    ≡ forwards gpu (some 5)
unfolding admit_chat check_credits check_pricing priced dispatch resolve pick reserve_credits
    transaction rollback statement answer ◌>>=◌ pure require clock select_balance insert_hold
    update_balance lookup insert estimate_cost estimate_prompt_tokens estimate_completion_tokens
    ◌-ℤ◌ ◌+ℤ◌ ◌*ℤ◌
forwarded_with_hold = refl

-- Without a node nothing is reserved.
no_hold_in_an_outage :
    admit_chat whole_units chat readings true (some payer) none (calm opened 1) new
    ≡ (refuses unavailable_model, calm opened 1, new)
unfolding admit_chat check_credits check_pricing priced dispatch resolve pick lookup
    estimate_prompt_tokens estimate_completion_tokens ◌+ℤ◌
no_hold_in_an_outage = refl
