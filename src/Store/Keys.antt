-- ===== src/Store/Keys.antt =====
-- internal/store/store.go: the API keys. Usage, and with it the time of a key's last use, is not
-- among the tables.
pub mod Calls
use local_ai_proxy.Prelude.{
  ℕ, ◌+◌, Bool, true, false, not, ◌&&◌, ◌||◌, Option, none, some, String, if◌then◌else◌, ◌==◌,
  ℕ_key, String_key,
}
use local_ai_proxy.Prelude.Int.{ℤ}
use local_ai_proxy.Prelude.Dict.{Dict, lookup, insert}
use local_ai_proxy.Prelude.Rows.{find_row, keep_rows}
use local_ai_proxy.Entities.{ApiKey}
use local_ai_proxy.Store.Directory.{KeyRow}
use local_ai_proxy.Store.Sql.{
  violation, key_not_found, Result, ok, err, Account, Db, Sql, ◌>>=◌, require, statement,
}
use local_ai_proxy.Store.Users.{is_some}

abbrev pub with_keys : Dict ℕ KeyRow → Db → Db
with_keys rows db = record db { directory = record db.directory { keys = rows } }

abbrev pub has_key_hash : String → KeyRow → Bool
has_key_hash hash k = k.key_hash == hash

abbrev pub refers_to {ℓ} : {V : Type ℓ} → Option ℕ → Dict ℕ V → Bool
refers_to none rows = true
refers_to (some id) rows = is_some (lookup id rows)

-- `INSERT INTO api_keys … RETURNING id`; the id and the hash are unique, the owners exist.
unfoldable pub insert_key : String → ℤ → Option ℕ → Option ℕ → Db → Result ℕ × Db
insert_key key_hash rate_limit user account db =
    let id = db.directory.key_seq + 1 in
    let counted = record db { directory = record db.directory { key_seq = id } } in
    if is_some (lookup id db.directory.keys)
      || is_some (find_row (has_key_hash key_hash) db.directory.keys)
      || not (refers_to user db.directory.users)
      || not (refers_to account db.accounts)
    then (err violation, counted)
    else (
      ok id,
      with_keys
          (insert id
            (record {
              key_hash = key_hash;
              rate_limit = rate_limit;
              revoked = false;
              user_id = user;
              account_id = account;
              session_token_limit = none;
              trust_user_headers = false;
            })
            db.directory.keys)
          counted,
    )

-- CreateKey
unfoldable pub create_key : String → ℤ → Sql ℕ
create_key key_hash rate_limit = statement (insert_key key_hash rate_limit none none)

-- CreateKeyForUser
unfoldable pub create_key_for_user : ℕ → String → ℤ → Sql ℕ
create_key_for_user user key_hash rate_limit =
    statement (insert_key key_hash rate_limit (some user) none)

-- CreateKeyForAccount
unfoldable pub create_key_for_account : ℕ → ℕ → String → ℤ → Sql ℕ
create_key_for_account user account key_hash rate_limit =
    statement (insert_key key_hash rate_limit (some user) (some account))

-- CreateKeyForAccountOnly
unfoldable pub create_key_for_account_only : ℕ → String → ℤ → Sql ℕ
create_key_for_account_only account key_hash rate_limit =
    statement (insert_key key_hash rate_limit none (some account))

abbrev pub account_of : Option ℕ → Dict ℕ Account → Option Account
account_of none rows = none
account_of (some id) rows = lookup id rows

abbrev pub override_of : Option Account → Option ℤ
override_of none = none
override_of (some a) = a.rate_limit_per_min

-- `COALESCE(a.allowance_managed, FALSE)`
abbrev pub managed_of : Option Account → Bool
managed_of none = false
managed_of (some a) = a.allowance_managed

abbrev pub key_of : Db → ℕ × KeyRow → ApiKey
key_of db (id, k) = record {
  id = id;
  rate_limit = k.rate_limit;
  account_id = k.account_id;
  session_token_limit = k.session_token_limit;
  trust_user_headers = k.trust_user_headers;
  account_rate_limit_per_min = override_of (account_of k.account_id db.accounts);
  account_allowance_managed = managed_of (account_of k.account_id db.accounts);
}

abbrev pub is_live_key : String → KeyRow → Bool
is_live_key hash k = has_key_hash hash k && not k.revoked

-- `SELECT … FROM api_keys k LEFT JOIN accounts a … WHERE k.key_hash = $1 AND k.revoked = FALSE`
unfoldable pub select_live_key : String → Db → Result (Option ApiKey) × Db
select_live_key hash db = elim (find_row (is_live_key hash) db.directory.keys) [
  | none ↦ (ok none, db)
  | some row ↦ (ok (some (key_of db row)), db)
]

-- GetKeyByHash; no row is no error.
unfoldable pub get_key_by_hash : String → Sql (Option ApiKey)
get_key_by_hash hash = statement (select_live_key hash)

-- GetKeyByID
unfoldable pub get_key_by_id : ℕ → Sql (Option KeyRow)
get_key_by_id id = statement (λ db. (ok (lookup id db.directory.keys), db))

abbrev pub belongs_to : ℕ → KeyRow → Bool
belongs_to user k = elim k.user_id [ none ↦ false | some u ↦ u == user ]

-- ListKeysByUser
unfoldable pub list_keys_by_user : ℕ → Sql (Dict ℕ KeyRow)
list_keys_by_user user = statement (λ db. (ok (keep_rows (belongs_to user) db.directory.keys), db))

-- `UPDATE api_keys SET … WHERE id = $1`, with whether there was a row.
unfoldable pub update_key : ℕ → (KeyRow → KeyRow) → Db → Result Bool × Db
update_key id f db = elim (lookup id db.directory.keys) [
  | none ↦ (ok false, db)
  | some k ↦ (ok true, with_keys (insert id (f k) db.directory.keys) db)
]

unfoldable pub set_key : ℕ → (KeyRow → KeyRow) → Sql (Unit {0})
set_key id f = do affected ← statement (update_key id f); require affected key_not_found

-- UpdateKeyRateLimit
unfoldable pub update_key_rate_limit : ℕ → ℤ → Sql (Unit {0})
update_key_rate_limit id rate_limit = set_key id (λ k. record k { rate_limit = rate_limit })

-- RevokeKey
unfoldable pub revoke_key : ℕ → Sql (Unit {0})
revoke_key id = set_key id (λ k. record k { revoked = true })

-- SetSessionTokenLimit
unfoldable pub set_session_token_limit : ℕ → Option ℤ → Sql (Unit {0})
set_session_token_limit id limit = set_key id (λ k. record k { session_token_limit = limit })

-- SetTrustUserHeaders
unfoldable pub set_trust_user_headers : ℕ → Bool → Sql (Unit {0})
set_trust_user_headers id trust = set_key id (λ k. record k { trust_user_headers = trust })
