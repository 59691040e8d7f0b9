-- ===== src/Store/Federated.antt =====
-- internal/store/federated.go: the accounts of the end users that a trusted key speaks for, and
-- their monthly allowance. `month_of` is the UTC month of a time, as a count of months. An account
-- id of 0, which no row has, is `none`.
pub mod Calls
pub mod Steps
pub mod Periods
pub mod Histories
pub mod Once
pub mod Bound
pub mod Binds
pub mod Stable
mod Examples
use local_ai_proxy.Prelude.{
  ℕ, ◌+◌, Bool, true, false, not, ◌&&◌, ◌||◌, Option, none, some, String, ltb, if◌then◌else◌, ◌==◌,
  ℕ_key, String_key,
}
use local_ai_proxy.Prelude.Int.{ℤ, pos}
use local_ai_proxy.Prelude.Dict.{Dict, lookup, insert}
use local_ai_proxy.Prelude.Rows.{find_row}
use local_ai_proxy.Store.Directory.{IdentityRow, RegistrationEvent, Directory}
use local_ai_proxy.Store.Sql.{
  Error, no_rows, violation, vanished, account_not_found, Result, ok, err, Account, Balance,
  monthly_allowance, Db, World, Sql, ◌>>=◌, ◌>>◌, pure, require, statement, Ending, commits,
  abandons, transaction,
}
use local_ai_proxy.Store.Ledger.{insert_transaction}
use local_ai_proxy.Store.Users.{is_some}
use local_ai_proxy.Store.Registration.{new_account, insert_account, insert_balance, insert_event}

pub record FederatedIdentity : Type 0 where
  pub source : String
  pub external_id : String
  pub email : String
  pub display_name : String

pub record EndUserResolution : Type 0 where
  pub account_id : ℕ
  pub provisioned : Bool
  pub allowance_granted : Bool
  pub rate_limit_per_min : Option ℤ

abbrev pub with_identities : Dict ℕ IdentityRow → Db → Db
with_identities rows db = record db { directory = record db.directory { identities = rows } }

abbrev pub is_identity : FederatedIdentity → IdentityRow → Bool
is_identity f i = i.source == f.source && i.external_id == f.external_id

-- `UPDATE federated_identities SET email = …, display_name = … WHERE … RETURNING account_id`
unfoldable pub refresh_identity : FederatedIdentity → Db → Result (Option ℕ) × Db
refresh_identity f db = elim (find_row (is_identity f) db.directory.identities) [
  | none ↦ (ok none, db)
  | some (k, i) ↦ (
    ok (some i.account_id),
    with_identities
        (insert k (record i { email = f.email; display_name = f.display_name })
          db.directory.identities)
        db,
  )
]

-- `INSERT INTO federated_identities … ON CONFLICT (source, external_id) DO NOTHING RETURNING id`
unfoldable pub insert_identity : FederatedIdentity → ℕ → Db → Result Bool × Db
insert_identity f account db =
    let id = db.directory.identity_seq + 1 in
    let counted = record db { directory = record db.directory { identity_seq = id } } in
    if is_some (find_row (is_identity f) db.directory.identities)
    then (ok false, counted)
    else if is_some (lookup id db.directory.identities)
    then (err violation, counted)
    else (
      ok true,
      with_identities
          (insert id
            (record {
              source = f.source;
              external_id = f.external_id;
              account_id = account;
              email = f.email;
              display_name = f.display_name;
            })
            db.directory.identities)
          counted,
    )

-- lookupFederatedAccount
unfoldable pub lookup_federated_account : FederatedIdentity → Sql (Option ℕ)
lookup_federated_account f = statement (refresh_identity f)

-- `none` ends the transaction for a conflict.
unfoldable pub provision_inserted : ℕ → Bool → Sql (Ending (Option ℕ))
provision_inserted account false = pure (abandons none)
provision_inserted account true = do
  statement (
      insert_event (record {
        kind = "user";
        account_id = some account;
        user_id = none;
        token_id = none;
        source = "trusted_header";
      }))
  pure (commits (some account))

unfoldable pub provision_rows : FederatedIdentity → Sql (Option ℕ)
provision_rows f = transaction do
  account ← statement (insert_account (new_account true))
  statement (insert_balance account)
  inserted ← statement (insert_identity f account)
  provision_inserted account inserted

-- The explicit Rollback may fail; the tables are those from before in either case.
unfoldable pub rolled_back : Db → Result (Unit {0}) × Db
rolled_back db = (ok tt, db)

unfoldable pub adopt_winner : Option ℕ → Sql (ℕ × Bool)
adopt_winner none w = (err vanished, w)
adopt_winner (some winner) w = (ok (winner, false), w)

unfoldable pub provisioned_or_adopt : FederatedIdentity → Option ℕ → Sql (ℕ × Bool)
provisioned_or_adopt f (some account) = pure (account, true)
provisioned_or_adopt f none = do
  statement rolled_back
  winner ← lookup_federated_account f
  adopt_winner winner

-- provisionFederatedAccount: the account, and whether this call has created it.
unfoldable pub provision_federated_account : FederatedIdentity → Sql (ℕ × Bool)
provision_federated_account f = do made ← provision_rows f; provisioned_or_adopt f made

-- `SELECT allowance_managed, monthly_grant, rate_limit_per_min FROM accounts WHERE id = $1`
unfoldable pub select_account : ℕ → Db → Result Account × Db
select_account account db = elim (lookup account db.accounts) [
  | none ↦ (err no_rows, db)
  | some a ↦ (ok a, db)
]

abbrev pub is_allowance_due : ℕ → Option ℕ → Bool
is_allowance_due month none = true
is_allowance_due month (some period) = ltb period month

-- The grant is written here as its column rounds it, which is how the audit trail rounds it too.
-- `UPDATE credit_balances SET balance = …, allowance_period = … WHERE account_id = $1 AND
-- (allowance_period IS NULL OR allowance_period < $3)`, with whether there was a row.
unfoldable pub reset_balance : ℕ → ℤ → ℕ → Db → Result Bool × Db
reset_balance account grant month db = elim (lookup account db.balances) [
  | none ↦ (ok false, db)
  | some b ↦
      if is_allowance_due month b.allowance_period
      then (
        ok true,
        record db {
          balances =
              insert account (record b { balance = grant; allowance_period = some month })
                db.balances;
        },
      )
      else (ok false, db)
]

unfoldable pub record_allowance : ℕ → ℤ → Bool → Sql (Ending Bool)
record_allowance account grant false = pure (abandons false)
record_allowance account grant true = do
  statement (
      insert_transaction (record {
        account_id = account;
        amount = grant;
        balance_after = grant;
        kind = monthly_allowance;
        reference_id = none;
      }))
  pure (commits true)

unfoldable pub grant_allowance : ℕ → ℤ → ℕ → Sql Bool
grant_allowance account grant month = transaction do
  affected ← statement (reset_balance account grant month)
  record_allowance account grant affected

abbrev pub grant_or : Option ℤ → ℤ → ℤ
grant_or none default_grant = default_grant
grant_or (some grant) default_grant = grant

unfoldable pub allowance_if : Bool → ℕ → ℤ → ℕ → Sql Bool
allowance_if false account grant month = pure false
allowance_if true account grant month = grant_allowance account grant month

-- applyMonthlyAllowance
unfoldable pub apply_monthly_allowance : ℕ → ℤ → ℕ → Sql (Bool × Option ℤ)
apply_monthly_allowance account default_grant month = do
  a ← statement (select_account account)
  granted ← allowance_if a.allowance_managed account (grant_or a.monthly_grant default_grant) month
  pure (granted, a.rate_limit_per_min)

unfoldable pub found_or_provision : FederatedIdentity → Option ℕ → Sql (ℕ × Bool)
found_or_provision f (some account) = pure (account, false)
found_or_provision f none = provision_federated_account f

-- ResolveEndUserAccount
unfoldable pub resolve_end_user_account :
    (ℕ → ℕ) → FederatedIdentity → ℤ → ℕ → Sql EndUserResolution
resolve_end_user_account month_of f default_grant now = do
  known ← lookup_federated_account f
  (account, provisioned) ← found_or_provision f known
  (granted, rate_limit) ← apply_monthly_allowance account default_grant (month_of now)
  pure (record {
    account_id = account;
    provisioned = provisioned;
    allowance_granted = granted;
    rate_limit_per_min = rate_limit;
  })

-- `UPDATE accounts SET … WHERE id = $1`, with whether there was a row.
unfoldable pub update_account : ℕ → (Account → Account) → Db → Result Bool × Db
update_account id f db = elim (lookup id db.accounts) [
  | none ↦ (ok false, db)
  | some a ↦ (ok true, record db { accounts = insert id (f a) db.accounts })
]

unfoldable pub set_account : ℕ → (Account → Account) → Sql (Unit {0})
set_account id f = do affected ← statement (update_account id f); require affected account_not_found

-- SetMonthlyGrant
unfoldable pub set_monthly_grant : ℕ → Option ℤ → Sql (Unit {0})
set_monthly_grant id grant = set_account id (λ a. record a { monthly_grant = grant })

-- SetAccountRateLimit
unfoldable pub set_account_rate_limit : ℕ → Option ℤ → Sql (Unit {0})
set_account_rate_limit id per_min = set_account id (λ a. record a { rate_limit_per_min = per_min })

-- SetAccountActive, of store.go
unfoldable pub set_account_active : ℕ → Bool → Sql (Unit {0})
set_account_active id active = set_account id (λ a. record a { is_active = active })

-- CreateAccount, of store.go
unfoldable pub create_account : Sql ℕ
create_account = statement (insert_account (new_account false))

-- GetAccountByID, of store.go; no row is no error.
unfoldable pub get_account_by_id : ℕ → Sql (Option Account)
get_account_by_id id = statement (λ db. (ok (lookup id db.accounts), db))
