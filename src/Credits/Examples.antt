-- ===== src/Credits/Examples.antt =====
-- Tests of internal/credits, and its theorems at concrete requests.
use local_ai_proxy.Store.Directory.{no_directory}
use local_ai_proxy.Prelude.{◌≡◌, refl, true, false, none, some, [], ◌∷◌, ℕ_key}
use local_ai_proxy.Prelude.Int.{pos, ◌-ℤ◌}
use local_ai_proxy.Prelude.Dict.{lookup}
use local_ai_proxy.Entities.{ApiKey, Resolution}
use local_ai_proxy.Store.Sql.{Balance, World, statement, answer}
use local_ai_proxy.Store.Ledger.{get_account_credit_status}
use local_ai_proxy.Credits.Estimator.{CreditPricing, estimate_completion_tokens}
use local_ai_proxy.Credits.Gate.{monthly_limit_reached, judge, credit_gate}

abbrev prices : CreditPricing
prices = record {
  prompt_rate_per_mtok = 1;
  completion_rate_per_mtok = 2;
  typical_completion = pos 0;
}

-- Nine requests are too few for the average to count.
new_account :
    estimate_completion_tokens
      (some (pos 0))
      (some (record { avg_completion_tokens = pos 30; request_count = pos 9 }))
      (some prices)
    ≡ pos 500
unfolding estimate_completion_tokens
new_account = refl

abbrev key : ApiKey
key = record {
  id = 3;
  rate_limit = pos 1;
  account_id = some 1;
  session_token_limit = none;
  trust_user_headers = true;
  account_rate_limit_per_min = none;
  account_allowance_managed = false;
}

abbrev user : Resolution
user = record { account_id = 7; allowance_managed = true; rate_limit_per_min = none }

abbrev account_with : Balance → World
account_with b = record {
  db = record {
    accounts =
        (
          7,
          record {
            is_active = true;
            allowance_managed = true;
            monthly_grant = none;
            rate_limit_per_min = none;
          },
        )
        ∷ [];
    balances = (7, b) ∷ [];
    holds = [];
    transactions = [];
    hold_seq = 0;
    nodes = [];
    node_seq = 0;
    requests = [];
    request_seq = 0;
    directory = no_directory;
  };
  now = 0;
  faults = [];
}

abbrev used_up : World
used_up = account_with (record { balance = pos 5; reserved = pos 5; allowance_period = none })

capped : (credit_gate (some key) (some user) used_up).0 ≡ monthly_limit_reached 7
unfolding credit_gate judge get_account_credit_status statement answer lookup ◌-ℤ◌
capped = refl
