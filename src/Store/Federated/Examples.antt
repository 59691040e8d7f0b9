-- ===== src/Store/Federated/Examples.antt =====
-- Tests of the resolution of end users and the monthly allowance of internal/store/federated.go.
use local_ai_proxy.Prelude.{
  ℕ, ◌/◌, ◌≢◌, ◌≡◌, refl, true, false, none, some, [], ◌∷◌, arith, ℕ_key, String_key,
}
use local_ai_proxy.Prelude.Int.{pos}
use local_ai_proxy.Prelude.Dict.{lookup, insert}
use local_ai_proxy.Store.Directory.{no_directory}
use local_ai_proxy.Store.Amounts.{whole_units}
use local_ai_proxy.Store.Sql.{
  ok, World, answer, statement, transaction, rollback, ◌>>=◌, pure, require,
}
use local_ai_proxy.Store.Ledger.{insert_transaction}
use local_ai_proxy.Store.Federated.{
  FederatedIdentity, EndUserResolution, select_account, reset_balance, record_allowance,
  grant_allowance, allowance_if, apply_monthly_allowance, resolve_end_user_account,
  lookup_federated_account, refresh_identity, found_or_provision, provision_federated_account,
  provision_rows, insert_identity, provision_inserted, provisioned_or_adopt, set_monthly_grant,
  set_account, update_account,
}
use local_ai_proxy.Store.Registration.{insert_account, insert_balance, insert_event}
use local_ai_proxy.Prelude.Rows.{find_row}
use local_ai_proxy.Store.Federated.Calls.{adds, sets_grant, resolves, Moment, run, perform}
use local_ai_proxy.Store.Federated.Once.{apply_once}
use local_ai_proxy.Store.Federated.Stable.{resolve_again}

abbrev end_user : World
end_user = record {
  db = record {
    accounts =
        (
          1,
          record {
            is_active = true;
            allowance_managed = true;
            monthly_grant = none;
            rate_limit_per_min = none;
          },
        )
        ∷ [];
    balances = (1, record { balance = pos 0; reserved = pos 0; allowance_period = none }) ∷ [];
    holds = [];
    transactions = [];
    hold_seq = 0;
    nodes = [];
    node_seq = 0;
    requests = [];
    request_seq = 0;
    directory = record no_directory { account_seq = 1 };
  };
  now = 5;
  faults = [];
}

abbrev calm_at : ℕ → Moment
calm_at t = record { at = t; faults = [] }

apply_once_example :
    (apply_monthly_allowance 1
      (pos 9)
      3
      (record (run
        (λ t. t / 10)
        ((calm_at 37, adds 1 (whole_units (pos 2)))
          ∷ (calm_at 36, sets_grant 1 (some (pos 50)))
          ∷ [])
        (apply_monthly_allowance 1 (pos 9) 3 end_user).1) { now = 38; faults = [] })).0
    ≢ ok (true, none)
unfolding apply_monthly_allowance select_account allowance_if grant_allowance reset_balance
    record_allowance insert_transaction transaction rollback statement answer ◌>>=◌ pure lookup
    insert
apply_once_example =
    apply_once (λ t. t / 10) 1 3 3 (pos 9) (pos 9) none none
      ((calm_at 37, adds 1 (whole_units (pos 2))) ∷ (calm_at 36, sets_grant 1 (some (pos 50))) ∷ [])
      end_user (calm_at 38) refl (omega arith)

abbrev someone : FederatedIdentity
someone = record { source = "ui"; external_id = "7"; email = "a"; display_name = "b" }

abbrev elsewhere : FederatedIdentity
elsewhere = record { source = "ui"; external_id = "8"; email = "a"; display_name = "b" }

abbrev empty_store : World
empty_store = record {
  db = record end_user.db { accounts = []; balances = []; directory = no_directory };
  now = 5;
  faults = [];
}

abbrev first_login : EndUserResolution
first_login = record {
  account_id = 1;
  provisioned = true;
  allowance_granted = true;
  rate_limit_per_min = none;
}

abbrev second_login : EndUserResolution
second_login = record {
  account_id = 1;
  provisioned = false;
  allowance_granted = false;
  rate_limit_per_min = none;
}

resolve_again_example :
    (second_login.account_id ≡ first_login.account_id) × (second_login.provisioned ≡ false)
unfolding resolve_end_user_account lookup_federated_account refresh_identity found_or_provision
    provision_federated_account provision_rows insert_account insert_balance insert_identity
    provision_inserted insert_event provisioned_or_adopt apply_monthly_allowance select_account
    allowance_if grant_allowance reset_balance record_allowance insert_transaction transaction
    rollback statement answer ◌>>=◌ pure lookup insert find_row run perform set_monthly_grant
    set_account update_account require
resolve_again_example =
    resolve_again (λ t. t / 10) someone (pos 9) (pos 9) 35 first_login second_login
      ((calm_at 37, resolves elsewhere (pos 9)) ∷ (calm_at 36, sets_grant 1 (some (pos 50))) ∷ [])
      empty_store (calm_at 38) tt refl refl
