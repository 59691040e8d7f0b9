-- ===== src/UserApi/Keys.antt =====
-- internal/user/handler.go: the keys of a user, the accounts of services, and the credits of a user.
-- `raw` is what crypto/rand gives, with "sk-" before it.
use local_ai_proxy.Prelude.{
  ℕ, Bool, true, false, ◌||◌, ◌&&◌, Option, none, some, String, if◌then◌else◌, ◌==◌, ℕ_key,
  String_key,
}
use local_ai_proxy.Prelude.Int.{ℤ, pos, ◌-ℤ◌, leb_ℤ, ltb_ℤ}
use local_ai_proxy.Prelude.Dict.{Dict, lookup}
use local_ai_proxy.RateLimit.Config.{apply_config_defaults_and_cap}
use local_ai_proxy.Store.Directory.{User, KeyRow}
use local_ai_proxy.Store.Sql.{Result, ok, err, Balance, Sql, ◌>>=◌, pure}
use local_ai_proxy.Store.Balances.{get_credit_balance}
use local_ai_proxy.Store.Keys.{
  create_key_for_account, create_key_for_user, list_keys_by_user, revoke_key,
}
use local_ai_proxy.Store.Registration.{register_service_account}
use local_ai_proxy.Store.Users.{is_some}
use local_ai_proxy.UserApi.Replies.{Reply, failure, replies}
use local_ai_proxy.UserApi.Sessions.{caught}

unfoldable pub or_internal_error : {A : Type 0} → ℕ → Result A → Reply A
or_internal_error status (err e) = failure 500 "internal_error"
or_internal_error status (ok x) = replies status x

-- `if user.AccountID != nil { … }`
unfoldable pub create_owned_key : ℕ → Option ℕ → String → ℤ → Sql ℕ
create_owned_key user (some account) key_hash rate_limit =
    create_key_for_account user account key_hash rate_limit
create_owned_key user none key_hash rate_limit = create_key_for_user user key_hash rate_limit

unfoldable pub key_generated :
    (String → String) → ℕ → User → Option ℤ → Option String → Sql (Reply ℕ)
key_generated digest id u none raw = pure (failure 400 "rate_limit_too_high")
key_generated digest id u (some rate_limit) none = pure (failure 500 "internal_error")
key_generated digest id u (some rate_limit) (some raw) = do
  created ← caught (create_owned_key id u.account_id (digest raw) rate_limit)
  pure (or_internal_error 201 created)

-- createKey
unfoldable pub create_user_key :
    (String → String) → ℕ → User → String → ℤ → Option String → Sql (Reply ℕ)
create_user_key digest id u name rate_limit raw =
    if name == ""
    then pure (failure 400 "missing_name")
    else key_generated digest id u (apply_config_defaults_and_cap rate_limit) raw

-- listKeys
unfoldable pub list_user_keys : ℕ → Sql (Reply (Dict ℕ KeyRow))
list_user_keys id = do keys ← caught (list_keys_by_user id); pure (or_internal_error 200 keys)

unfoldable pub revoke_if_found : Bool → ℕ → Sql (Reply (Unit {0}))
revoke_if_found false key = pure (failure 404 "not_found")
revoke_if_found true key = do
  revoked ← caught (revoke_key key)
  pure (or_internal_error 200 revoked)

unfoldable pub revoke_listed : ℕ → Result (Dict ℕ KeyRow) → Sql (Reply (Unit {0}))
revoke_listed key (err e) = pure (failure 500 "internal_error")
revoke_listed key (ok keys) = revoke_if_found (is_some (lookup key keys)) key

-- revokeKey; `none` is an ID that is no number.
unfoldable pub revoke_user_key : ℕ → Option ℕ → Sql (Reply (Unit {0}))
revoke_user_key id none = pure (failure 400 "invalid_id")
revoke_user_key id (some key) = do keys ← caught (list_keys_by_user id); revoke_listed key keys

unfoldable pub balance_reply : Result (Option Balance) → Reply (ℤ × ℤ × ℤ)
balance_reply (err e) = failure 500 "internal_error"
balance_reply (ok none) = failure 404 "no_balance"
balance_reply (ok (some b)) = replies 200 (b.balance, b.reserved, b.balance -ℤ b.reserved)

unfoldable pub credits_of : Option ℕ → Sql (Reply (ℤ × ℤ × ℤ))
credits_of none = pure (failure 404 "no_account")
credits_of (some account) = do
  balance ← caught (get_credit_balance account)
  pure (balance_reply balance)

-- getCredits: the balance, what is reserved and what is available.
unfoldable pub get_credits : User → Sql (Reply (ℤ × ℤ × ℤ))
get_credits u = credits_of u.account_id

-- The limit and the offset of getCreditTransactions; `none` is no number, or nothing given.
unfoldable pub page_limit : Option ℤ → ℤ
page_limit none = pos 20
page_limit (some l) = if ltb_ℤ (pos 0) l && leb_ℤ l (pos 100) then l else pos 20

unfoldable pub page_offset : Option ℤ → ℤ
page_offset none = pos 0
page_offset (some o) = if leb_ℤ (pos 0) o then o else pos 0

unfoldable pub or_registration_failed : Result (ℕ × ℕ × ℤ) → Reply (ℕ × ℕ × ℤ)
or_registration_failed (err e) = failure 400 "registration_failed"
or_registration_failed (ok x) = replies 201 x

unfoldable pub service_key_generated :
    (String → String) → String → Option ℤ → Option String → Sql (Reply (ℕ × ℕ × ℤ))
service_key_generated digest token none raw = pure (failure 400 "rate_limit_too_high")
service_key_generated digest token (some rate_limit) none = pure (failure 500 "internal_error")
service_key_generated digest token (some rate_limit) (some raw) = do
  made ← caught (register_service_account (digest token) (digest raw) rate_limit)
  pure (or_registration_failed made)

-- registerServiceAccount
unfoldable pub register_service :
    (String → String) → String → String → ℤ → Option String → Sql (Reply (ℕ × ℕ × ℤ))
register_service digest token name rate_limit raw =
    if token == "" || name == ""
    then pure (failure 400 "missing_fields")
    else service_key_generated digest token (apply_config_defaults_and_cap rate_limit) raw
