-- ===== src/UserApi/Login.antt =====
-- internal/user/handler.go: login.
use local_ai_proxy.Prelude.{
  ℕ, ◌+◌, ◌/◌, Bool, true, false, ◌||◌, Option, none, some, String, if◌then◌else◌, ◌==◌, String_key,
}
use local_ai_proxy.RateLimit.Tokens.{Verdict, allowed, denied, second}
use local_ai_proxy.AuthLimit.{Guard, allow_login_email, try_acquire_bcrypt, release_bcrypt}
use local_ai_proxy.Store.Directory.{User}
use local_ai_proxy.Store.Sql.{Result, ok, err, World}
use local_ai_proxy.Store.Users.{get_user_by_email, create_session}
use local_ai_proxy.UserApi.Replies.{Reply, failure, throttled, replies, busy, Portal, Crypto}
use local_ai_proxy.UserApi.Sessions.{session_duration_for}

pub record LoginResponse : Type 0 where
  pub token : String
  pub expires_in : ℕ
  pub user_id : ℕ
  pub role : String

abbrev pub at_portal : World → Option Guard → Portal
at_portal w g = record { world = w; guard = g }

-- After CreateSession
unfoldable pub session_created :
    String → ℕ → User → Option Guard → Result (Unit {0}) × World → Reply LoginResponse × Portal
session_created raw id u g (err e, w) = (failure 500 "internal_error", at_portal w g)
session_created raw id u g (ok t, w) = (
  replies 200 (record {
    token = raw;
    expires_in = session_duration_for u.role / second;
    user_id = id;
    role = u.role;
  }),
  at_portal w g,
)

module _ (lib : Crypto) where
  -- `token` is what crypto/rand gives, in hexadecimal.
  unfoldable pub start_session :
      Option String → ℕ → User → Option Guard → World → Reply LoginResponse × Portal
  start_session none id u g w = (failure 500 "internal_error", at_portal w g)
  start_session (some raw) id u g w =
      session_created raw id u g
        (create_session id (lib.digest raw) (w.now + session_duration_for u.role) w)

  unfoldable pub login_compared :
      Bool → Option String → ℕ → User → Option Guard → World → Reply LoginResponse × Portal
  login_compared false token id u g w = (failure 401 "invalid_credentials", at_portal w g)
  login_compared true token id u g w = start_session token id u g w

  unfoldable pub login_active :
      Bool → Option String → String → ℕ → User → Option Guard → World → Reply LoginResponse × Portal
  login_active false token password id u g w = (failure 403 "account_disabled", at_portal w g)
  login_active true token password id u g w =
      login_compared (lib.compare_password u.password_hash password) token id u g w

  -- An unknown email costs a comparison too, whose result is discarded.
  unfoldable pub login_user :
      Option String
      → String
      → Option (ℕ × User)
      → Option Guard
      → World
      → Reply LoginResponse × Portal
  login_user token password none g w = (failure 401 "invalid_credentials", at_portal w g)
  login_user token password (some (id, u)) g w = login_active u.is_active token password id u g w

  -- The slot of bcrypt is given back on every path, and nothing reads the guard in between.
  unfoldable pub login_slot :
      Option String
      → String
      → Option (ℕ × User)
      → Bool × Option Guard
      → World
      → Reply LoginResponse × Portal
  login_slot token password found (false, g) w = (throttled busy, at_portal w g)
  login_slot token password found (true, g) w = login_user token password found (release_bcrypt g) w

  unfoldable pub login_found :
      Option String
      → String
      → Option Guard
      → Result (Option (ℕ × User)) × World
      → Reply LoginResponse × Portal
  login_found token password g (err e, w) = (failure 500 "internal_error", at_portal w g)
  login_found token password g (ok found, w) =
      login_slot token password found (try_acquire_bcrypt g) w

  unfoldable pub login_allowed :
      Option String
      → String
      → String
      → Verdict × Option Guard
      → World
      → Reply LoginResponse × Portal
  login_allowed token email password (denied retry_after, g) w =
      (throttled retry_after, at_portal w g)
  login_allowed token email password (allowed, g) w =
      login_found token password g (get_user_by_email email w)

  unfoldable pub login : Option String → String → String → Portal → Reply LoginResponse × Portal
  login token email password p =
      if email == "" || password == ""
      then (failure 400 "missing_fields", p)
      else login_allowed token email password
          (allow_login_email lib.email_digest email p.world.now p.guard) p.world
