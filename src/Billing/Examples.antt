-- ===== src/Billing/Examples.antt =====
-- The theorems of internal/billing at concrete requests.
use local_ai_proxy.Prelude.{ℕ, ◌/◌, ◌≡◌, refl, true, false, none, some, [], ◌∷◌, ℕ_key, String_key}
use local_ai_proxy.Prelude.Int.{pos}
use local_ai_proxy.Prelude.Dict.{lookup, insert}
use local_ai_proxy.Prelude.Rows.{find_row}
use local_ai_proxy.Entities.{ApiKey, Resolution}
use local_ai_proxy.Store.Directory.{no_directory}
use local_ai_proxy.Store.Sql.{World, answer, statement, transaction, rollback, ◌>>=◌, pure, require}
use local_ai_proxy.Store.Ledger.{insert_transaction}
use local_ai_proxy.Store.Registration.{insert_account, insert_balance, insert_event}
use local_ai_proxy.Store.Federated.{
  FederatedIdentity, select_account, reset_balance, record_allowance, grant_allowance, allowance_if,
  apply_monthly_allowance, resolve_end_user_account, lookup_federated_account, refresh_identity,
  found_or_provision, provision_federated_account, provision_rows, insert_identity,
  provision_inserted, provisioned_or_adopt, set_monthly_grant, set_account, update_account,
}
use local_ai_proxy.Store.Federated.Calls.{sets_grant, resolves, Moment, run, perform}
use local_ai_proxy.Billing.{Identity, bill}
use local_ai_proxy.Billing.Isolation.{bill_again}

abbrev trusted_key : ApiKey
trusted_key = record {
  id = 3;
  rate_limit = pos 1;
  account_id = some 9;
  session_token_limit = none;
  trust_user_headers = true;
  account_rate_limit_per_min = none;
  account_allowance_managed = false;
}

abbrev ann : Identity
ann = record { external_id = "ann"; email = "a"; display_name = "" }

abbrev bob : FederatedIdentity
bob = record { source = "openwebui"; external_id = "bob"; email = ""; display_name = "" }

abbrev empty_store : World
empty_store = record {
  db = record {
    accounts = [];
    balances = [];
    holds = [];
    transactions = [];
    hold_seq = 0;
    nodes = [];
    node_seq = 0;
    requests = [];
    request_seq = 0;
    directory = no_directory;
  };
  now = 5;
  faults = [];
}

abbrev at : ℕ → Moment
at t = record { at = t; faults = [] }

abbrev own_account : Resolution
own_account = record { account_id = 1; allowance_managed = true; rate_limit_per_min = none }

-- The second request has another email, and is on another key.
bill_again_example :
    (own_account.account_id ≡ own_account.account_id) × (own_account.allowance_managed ≡ true)
unfolding bill resolve_end_user_account lookup_federated_account refresh_identity found_or_provision
    provision_federated_account provision_rows insert_account insert_balance insert_identity
    provision_inserted insert_event provisioned_or_adopt apply_monthly_allowance select_account
    allowance_if grant_allowance reset_balance record_allowance insert_transaction transaction
    rollback statement answer ◌>>=◌ pure lookup insert find_row run perform set_monthly_grant
    set_account update_account require
bill_again_example =
    bill_again (λ t. t / 10) (pos 9) trusted_key (record trusted_key { id = 4 }) ann
      (record ann { email = "b" }) own_account own_account
      ((at 37, resolves bob (pos 9)) ∷ (at 36, sets_grant 1 (some (pos 50))) ∷ []) empty_store
      (at 38) tt refl refl refl refl refl refl
