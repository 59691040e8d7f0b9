-- ===== src/UserApi/Account.antt =====
-- internal/user/handler.go: registration, the profile, the password and the end of a session. The
-- user and the session are those that the middleware has put into the request's context, which
-- always has them: the tests for nil are left out.
use local_ai_proxy.Prelude.{
  ℕ, Bool, true, false, ◌||◌, Option, none, some, String, ltb, if◌then◌else◌, ◌==◌, String_key,
}
use local_ai_proxy.Prelude.Text.{chars, byte_size}
use local_ai_proxy.Store.Amounts.{Amount, is_positive}
use local_ai_proxy.AuthLimit.{Guard, try_acquire_bcrypt, release_bcrypt}
use local_ai_proxy.Store.Directory.{User, Session}
use local_ai_proxy.Store.Sql.{Result, ok, err, World}
use local_ai_proxy.Store.Ledger.{add_credits}
use local_ai_proxy.Store.Registration.{register_user}
use local_ai_proxy.Store.Users.{
  delete_session, update_user_profile, update_user_password_and_revoke_sessions,
}
use local_ai_proxy.UserApi.Replies.{Reply, failure, throttled, replies, busy, Portal, Crypto}
use local_ai_proxy.UserApi.Login.{at_portal}

abbrev pub is_weak : String → Bool
is_weak password = ltb (byte_size (chars password)) 8

-- `if h.defaultCreditGrant > 0 { … }`, whose error is logged only
unfoldable pub default_credits : Bool → ℕ → Amount → World → World
default_credits true account credit_grant w = (add_credits account credit_grant w).1
default_credits false account credit_grant w = w

unfoldable pub user_registered :
    Amount → Option Guard → Result (ℕ × ℕ) × World → Reply (ℕ × ℕ) × Portal
user_registered credit_grant g (err e, w) = (failure 409 "email_exists", at_portal w g)
user_registered credit_grant g (ok (account, user), w) = (
  replies 201 (account, user),
  at_portal (default_credits (is_positive credit_grant) account credit_grant w) g,
)

unfoldable pub register_hashed :
    String → Amount → Option Guard → World → Option String → Reply (ℕ × ℕ) × Portal
register_hashed email credit_grant g w none = (failure 500 "internal_error", at_portal w g)
register_hashed email credit_grant g w (some hash) =
    user_registered credit_grant g (register_user email hash w)

unfoldable pub ended : Option Guard → Result (Unit {0}) × World → Reply (Unit {0}) × Portal
ended g (err e, w) = (failure 500 "internal_error", at_portal w g)
ended g (ok t, w) = (replies 200 tt, at_portal w g)

-- logout
unfoldable pub logout : Session → Portal → Reply (Unit {0}) × Portal
logout s p = ended p.guard (delete_session s.token_hash p.world)

-- `if email == "" { email = user.Email }`
abbrev pub email_or : String → String → String
email_or email current = if email == "" then current else email

-- updateProfile
unfoldable pub update_profile : ℕ → User → String → Portal → Reply (Unit {0}) × Portal
update_profile id u email p =
    ended p.guard (update_user_profile id (email_or email u.email) p.world)

unfoldable pub password_hashed :
    ℕ → Session → Option Guard → World → Option String → Reply (Unit {0}) × Portal
password_hashed id s g w none = (failure 500 "internal_error", at_portal w g)
password_hashed id s g w (some hash) =
    ended g (update_user_password_and_revoke_sessions id hash s.token_hash w)

module _ (lib : Crypto) where
  unfoldable pub register_slot :
      String → String → Amount → Bool × Option Guard → World → Reply (ℕ × ℕ) × Portal
  register_slot email password credit_grant (false, g) w = (throttled busy, at_portal w g)
  register_slot email password credit_grant (true, g) w =
      register_hashed email credit_grant (release_bcrypt g) w (lib.generate password)

  -- register
  unfoldable pub register : String → String → String → Amount → Portal → Reply (ℕ × ℕ) × Portal
  register email password name credit_grant p =
      if email == "" || password == "" || name == ""
      then (failure 400 "missing_fields", p)
      else if is_weak password
      then (failure 400 "weak_password", p)
      else register_slot email password credit_grant (try_acquire_bcrypt p.guard) p.world

  unfoldable pub password_compared :
      Bool → ℕ → Session → String → Option Guard → World → Reply (Unit {0}) × Portal
  password_compared false id s new_password g w = (failure 401 "wrong_password", at_portal w g)
  password_compared true id s new_password g w =
      password_hashed id s g w (lib.generate new_password)

  -- One slot covers both uses of bcrypt.
  unfoldable pub password_slot :
      ℕ → User → Session → String → String → Bool × Option Guard → World → Reply (Unit {0}) × Portal
  password_slot id u s old_password new_password (false, g) w = (throttled busy, at_portal w g)
  password_slot id u s old_password new_password (true, g) w =
      password_compared (lib.compare_password u.password_hash old_password) id s new_password
        (release_bcrypt g) w

  -- changePassword
  unfoldable pub change_password :
      ℕ → User → Session → String → String → Portal → Reply (Unit {0}) × Portal
  change_password id u s old_password new_password p =
      if old_password == "" || new_password == ""
      then (failure 400 "missing_fields", p)
      else if is_weak new_password
      then (failure 400 "weak_password", p)
      else password_slot id u s old_password new_password (try_acquire_bcrypt p.guard) p.world
