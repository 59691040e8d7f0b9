-- ===== src/Store/Registration.antt =====
-- internal/store: the transactions that open accounts. RegisterUser and CreateAdminBootstrap of
-- store.go, and the registration tokens with RegisterServiceAccount of credits.go.
pub mod Tokens
pub mod Uses
pub mod Calls
mod Examples
use local_ai_proxy.Prelude.{
  ℕ, ◌+◌, Bool, true, false, not, ◌&&◌, ◌||◌, Option, none, some, String, List, ◌∷◌, ltb,
  if◌then◌else◌, ◌==◌, ℕ_key, String_key,
}
use local_ai_proxy.Prelude.Int.{ℤ, pos, ◌+ℤ◌, ltb_ℤ}
use local_ai_proxy.Prelude.Dict.{Dict, lookup, insert}
use local_ai_proxy.Prelude.Rows.{find_row}
use local_ai_proxy.Store.Directory.{User, KeyRow, RegistrationToken, RegistrationEvent, Directory}
use local_ai_proxy.Store.Sql.{
  Error, unavailable, violation, email_exists, bad_token, token_not_found, Result, ok, err, Account,
  Balance, grant, Db, World, Sql, ◌>>=◌, ◌>>◌, pure, require, clock, statement, Ending, commits,
  transaction,
}
use local_ai_proxy.Store.Ledger.{update_balance, insert_transaction}
use local_ai_proxy.Store.Users.{is_some, only_if, insert_user}
use local_ai_proxy.Store.Keys.{insert_key}

-- The columns that an INSERT leaves out have their defaults.
abbrev pub new_account : Bool → Account
new_account managed = record {
  is_active = true;
  allowance_managed = managed;
  monthly_grant = none;
  rate_limit_per_min = none;
}

abbrev pub zero_balance : Balance
zero_balance = record { balance = pos 0; reserved = pos 0; allowance_period = none }

-- `INSERT INTO accounts … RETURNING id`
unfoldable pub insert_account : Account → Db → Result ℕ × Db
insert_account a db =
    let id = db.directory.account_seq + 1 in
    let counted = record db { directory = record db.directory { account_seq = id } } in
    if is_some (lookup id db.accounts)
    then (err violation, counted)
    else (ok id, record counted { accounts = insert id a db.accounts })

-- `INSERT INTO credit_balances (account_id) VALUES ($1)`
unfoldable pub insert_balance : ℕ → Db → Result (Unit {0}) × Db
insert_balance account db =
    if is_some (lookup account db.balances)
    then (err violation, db)
    else (ok tt, record db { balances = insert account zero_balance db.balances })

-- The same with `ON CONFLICT DO NOTHING`
unfoldable pub insert_balance_if_missing : ℕ → Db → Result (Unit {0}) × Db
insert_balance_if_missing account db = (ok tt, (insert_balance account db).1)

-- `INSERT INTO registration_events …`
unfoldable pub insert_event : RegistrationEvent → Db → Result (Unit {0}) × Db
insert_event e db =
    (ok tt, record db { directory = record db.directory { events = e ∷ db.directory.events } })

-- The steps that RegisterUser and CreateAdminBootstrap share after the account.
unfoldable pub finish_user : String → ℕ → ℕ → Sql (Unit {0})
finish_user source account user = do
  statement (insert_balance_if_missing account)
  statement (
      insert_event (record {
        kind = "user";
        account_id = some account;
        user_id = some user;
        token_id = none;
        source = source;
      }))

-- RegisterUser
unfoldable pub register_user : String → String → Sql (ℕ × ℕ)
register_user email password_hash = transaction do
  account ← statement (insert_account (new_account false))
  user ← statement (
      insert_user (record {
        email = email;
        password_hash = password_hash;
        role = "user";
        is_active = true;
        account_id = some account;
      }))
  finish_user "public_signup" account user
  pure (commits (account, user))

-- `if isUniqueViolation(err) { return 0, ErrEmailExists }`
abbrev pub conflict_of : Error → Error
conflict_of violation = email_exists
conflict_of e = e

abbrev pub relabel : {A : Type 0} → (Error → Error) → Result A × World → Result A × World
relabel f (ok a, w) = (ok a, w)
relabel f (err e, w) = (err (f e), w)

unfoldable pub or_email_exists : {A : Type 0} → Sql A → Sql A
or_email_exists m w = relabel conflict_of (m w)

-- CreateAdminBootstrap
unfoldable pub create_admin_bootstrap : String → String → Sql ℕ
create_admin_bootstrap email password_hash = transaction do
  account ← statement (insert_account (new_account false))
  user ← or_email_exists (
      statement (
        insert_user (record {
          email = email;
          password_hash = password_hash;
          role = "admin";
          is_active = true;
          account_id = some account;
        })))
  finish_user "admin_bootstrap" account user
  pure (commits user)

abbrev pub with_tokens : Dict ℕ RegistrationToken → Db → Db
with_tokens rows db = record db { directory = record db.directory { tokens = rows } }

abbrev pub has_token_hash : String → RegistrationToken → Bool
has_token_hash hash t = t.token_hash == hash

-- `INSERT INTO registration_tokens … RETURNING id`
unfoldable pub insert_token : RegistrationToken → Db → Result ℕ × Db
insert_token t db =
    let id = db.directory.token_seq + 1 in
    let counted = record db { directory = record db.directory { token_seq = id } } in
    if is_some (lookup id db.directory.tokens)
      || is_some (find_row (has_token_hash t.token_hash) db.directory.tokens)
    then (err violation, counted)
    else (ok id, with_tokens (insert id t db.directory.tokens) counted)

-- CreateRegistrationToken
unfoldable pub create_registration_token : String → ℤ → ℤ → Option ℕ → Sql ℕ
create_registration_token token_hash credit_grant max_uses expires_at = statement (
    insert_token (record {
      token_hash = token_hash;
      credit_grant = credit_grant;
      max_uses = max_uses;
      uses = pos 0;
      expires_at = expires_at;
      revoked = false;
    }))

-- `UPDATE registration_tokens SET revoked = TRUE WHERE id = $1`, with whether there was a row.
unfoldable pub revoke_token : ℕ → Db → Result Bool × Db
revoke_token id db = elim (lookup id db.directory.tokens) [
  | none ↦ (ok false, db)
  | some t ↦ (ok true, with_tokens (insert id (record t { revoked = true }) db.directory.tokens) db)
]

-- RevokeRegistrationToken
unfoldable pub revoke_registration_token : ℕ → Sql (Unit {0})
revoke_registration_token id = do
  affected ← statement (revoke_token id)
  require affected token_not_found

abbrev pub is_unexpired : ℕ → Option ℕ → Bool
is_unexpired now none = true
is_unexpired now (some expiry) = ltb now expiry

abbrev pub may_consume : String → ℕ → RegistrationToken → Bool
may_consume hash now t =
    has_token_hash hash t
    && not t.revoked
    && ltb_ℤ t.uses t.max_uses
    && is_unexpired now t.expires_at

-- `UPDATE registration_tokens SET uses = uses + 1 WHERE … RETURNING id, credit_grant`
unfoldable pub consume_token : String → ℕ → Db → Result (ℕ × ℤ) × Db
consume_token hash now db = elim (find_row (may_consume hash now) db.directory.tokens) [
  | none ↦ (err bad_token, db)
  | some (id, t) ↦ (
    ok (id, t.credit_grant),
    with_tokens (insert id (record t { uses = t.uses +ℤ pos 1 }) db.directory.tokens) db,
  )
]

-- `if creditGrant > 0 { … }`
unfoldable pub grant_credits : ℕ → ℤ → Sql (Unit {0})
grant_credits account credit_grant = do
  statement (update_balance account (λ b. record b { balance = credit_grant }))
  statement (
      insert_transaction (record {
        account_id = account;
        amount = credit_grant;
        balance_after = credit_grant;
        kind = grant;
        reference_id = none;
      }))

-- RegisterServiceAccount
unfoldable pub register_service_account : String → String → ℤ → Sql (ℕ × ℕ × ℤ)
register_service_account token_hash key_hash rate_limit = transaction do
  now ← clock
  (token, credit_grant) ← statement (consume_token token_hash now)
  account ← statement (insert_account (new_account false))
  statement (insert_balance account)
  only_if (ltb_ℤ (pos 0) credit_grant) (grant_credits account credit_grant)
  key ← statement (insert_key key_hash rate_limit none (some account))
  statement (
      insert_event (record {
        kind = "service";
        account_id = some account;
        user_id = none;
        token_id = some token;
        source = "registration_token";
      }))
  pure (commits (account, key, credit_grant))
