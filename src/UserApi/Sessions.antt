-- ===== src/UserApi/Sessions.antt =====
-- internal/user/middleware.go and internal/auth/auth.go: whose session a request carries, and which
-- API key. `digest` is HashKey, the hexadecimal SHA-256 of a token. A header that is not set is "".
use local_ai_proxy.Prelude.{
  ℕ, ◌*◌, Bool, true, false, Option, none, some, String, ltb, if◌then◌else◌, ◌==◌, String_key,
}
use local_ai_proxy.Prelude.Text.{chars, text, strip_prefix}
use local_ai_proxy.Entities.{ApiKey}
use local_ai_proxy.RateLimit.Tokens.{second}
use local_ai_proxy.Store.Directory.{User, Session}
use local_ai_proxy.Store.Sql.{Result, ok, err, Sql, ◌>>=◌, pure, clock}
use local_ai_proxy.Store.Users.{get_session_by_token_hash, delete_session, get_user_by_id}
use local_ai_proxy.Store.Keys.{get_key_by_hash}

-- `if err := m(); err != nil { … }`: the error is a value.
unfoldable pub caught : {A : Type 0} → Sql A → Sql (Result A)
caught m w = (ok (m w).0, (m w).1)

abbrev pub hour : ℕ
hour = 3600 * second

-- SessionDurationFor, in nanoseconds
unfoldable pub session_duration_for : String → ℕ
session_duration_for role = if role == "admin" then 6 * hour else 7 * (24 * hour)

abbrev pub bearer : String → Option String
bearer authorization = elim (strip_prefix (chars "Bearer ") (chars authorization)) [
  | none ↦ none
  | some rest ↦ some (text rest)
]

-- The headers Authorization and X-Session-Token
unfoldable pub extract_session_token : String → String → String
extract_session_token authorization session_header = elim (bearer authorization) [
  | none ↦ session_header
  | some token ↦ token
]

-- What the middleware does: it writes an error, or calls the next handler with the user and the
-- session in the context.
pub data SessionGate : Type 0 where
  refused : ℕ → String → SessionGate
  admitted : ℕ → User → Session → SessionGate

unfoldable pub admit_if : Bool → Session → User → SessionGate
admit_if true s u = admitted s.user_id u s
admit_if false s u = refused 403 "account_disabled"

unfoldable pub gate_of : Session → Result (Option User) → SessionGate
gate_of s (err e) = refused 401 "user_not_found"
gate_of s (ok none) = refused 401 "user_not_found"
gate_of s (ok (some u)) = admit_if u.is_active s u

unfoldable pub expire_session : String → Sql SessionGate
expire_session hash = do
  deleted ← caught (delete_session hash)
  pure (refused 401 "session_expired")

unfoldable pub load_user : Session → Sql SessionGate
load_user s = do user ← caught (get_user_by_id s.user_id); pure (gate_of s user)

-- `if time.Now().After(session.ExpiresAt)`
unfoldable pub check_expiry : Bool → String → Session → Sql SessionGate
check_expiry true hash s = expire_session hash
check_expiry false hash s = load_user s

unfoldable pub check_session : String → Result (Option (ℕ × Session)) → Sql SessionGate
check_session hash (err e) = pure (refused 500 "internal_error")
check_session hash (ok none) = pure (refused 401 "invalid_session")
check_session hash (ok (some (id, s))) = do now ← clock; check_expiry (ltb s.expires_at now) hash s

unfoldable pub session_with_hash : String → Sql SessionGate
session_with_hash hash = do
  session ← caught (get_session_by_token_hash hash)
  check_session hash session

unfoldable pub extract_bearer : String → String
extract_bearer authorization = elim (bearer authorization) [ none ↦ "" | some token ↦ token ]

unfoldable pub key_or_none : Result (Option ApiKey) → Option ApiKey
key_or_none (err e) = none
key_or_none (ok found) = found

module _ (digest : String → String) where
  -- SessionMiddleware
  unfoldable pub session_middleware : String → String → Sql SessionGate
  session_middleware authorization session_header =
      let token = extract_session_token authorization session_header in
      if token == "" then pure (refused 401 "missing_session") else session_with_hash (digest token)

  -- `auth.Middleware`, whose errors differ in their message only; `none` is 401.
  unfoldable pub auth_middleware : String → Sql (Option ApiKey)
  auth_middleware authorization =
      let token = extract_bearer authorization in
      if token == ""
      then pure none
      else do found ← caught (get_key_by_hash (digest token)); pure (key_or_none found)
