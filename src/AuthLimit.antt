-- ===== src/AuthLimit.antt =====
-- internal/authlimit: the guard of the public endpoints. A nil guard and a nil limiter are `none`;
-- both allow everything. `digest` is the bucket key of an email, the hexadecimal SHA-256 of its
-- lower case. The address that ClientIP derives is an argument.
pub mod Keyed
pub mod Attempts
pub mod Bcrypt
mod Examples
use local_ai_proxy.Prelude.{
  ℕ, zero, suc, Bool, true, false, ◌&&◌, ◌||◌, Option, none, some, String, ltb, if◌then◌else◌, ◌==◌,
  String_key,
}
use local_ai_proxy.Prelude.Int.{ℤ, pos, negsuc}
use local_ai_proxy.RateLimit.Tokens.{Verdict, allowed, denied, Seconds}
use local_ai_proxy.AuthLimit.Keyed.{KeyedLimiter, new_keyed_limiter, allow_key, prune_keys}

pub record Config : Type 0 where
  pub login_per_min_ip : ℤ
  pub login_per_min_email : ℤ
  pub register_per_min_ip : ℤ
  pub general_per_min_ip : ℤ
  pub bcrypt_concurrency : ℤ

-- A channel of empty structs: its capacity and how many it holds.
pub record Semaphore : Type 0 where
  pub size : ℕ
  pub taken : ℕ

pub record Guard : Type 0 where
  pub login_ip : Option KeyedLimiter
  pub login_email : Option KeyedLimiter
  pub register_ip : Option KeyedLimiter
  pub general_ip : Option KeyedLimiter
  pub bcrypt_sem : Option Semaphore

abbrev pub new_semaphore : ℤ → Option Semaphore
new_semaphore (pos zero) = none
new_semaphore (pos (suc n)) = some (record { size = suc n; taken = 0 })
new_semaphore (negsuc n) = none

unfoldable pub new_guard : Config → Guard
new_guard cfg = record {
  login_ip = some (new_keyed_limiter cfg.login_per_min_ip);
  login_email = some (new_keyed_limiter cfg.login_per_min_email);
  register_ip = some (new_keyed_limiter cfg.register_per_min_ip);
  general_ip = some (new_keyed_limiter cfg.general_per_min_ip);
  bcrypt_sem = new_semaphore cfg.bcrypt_concurrency;
}

-- A tick of the background goroutine.
unfoldable pub prune_guard : ℕ → Guard → Guard
prune_guard now g = record {
  login_ip = prune_keys now g.login_ip;
  login_email = prune_keys now g.login_email;
  register_ip = prune_keys now g.register_ip;
  general_ip = prune_keys now g.general_ip;
  bcrypt_sem = g.bcrypt_sem;
}

unfoldable pub allow_login_ip : String → ℕ → Option Guard → Verdict × Option Guard
allow_login_ip ip now none = (allowed, none)
allow_login_ip ip now (some g) =
    let (v, l) = allow_key ip now g.login_ip in (v, some (record g { login_ip = l }))

unfoldable pub allow_login_email :
    (String → String) → String → ℕ → Option Guard → Verdict × Option Guard
allow_login_email digest email now none = (allowed, none)
allow_login_email digest email now (some g) =
    let (v, l) = allow_key (digest email) now g.login_email in
    (v, some (record g { login_email = l }))

unfoldable pub allow_register_ip : String → ℕ → Option Guard → Verdict × Option Guard
allow_register_ip ip now none = (allowed, none)
allow_register_ip ip now (some g) =
    let (v, l) = allow_key ip now g.register_ip in (v, some (record g { register_ip = l }))

unfoldable pub allow_general_ip : String → ℕ → Option Guard → Verdict × Option Guard
allow_general_ip ip now none = (allowed, none)
allow_general_ip ip now (some g) =
    let (v, l) = allow_key ip now g.general_ip in (v, some (record g { general_ip = l }))

-- A send that does not block, and a receive that does not.
unfoldable pub try_send : Semaphore → Bool × Semaphore
try_send s = if ltb s.taken s.size then (true, record s { taken = suc s.taken }) else (false, s)

abbrev pub one_less : ℕ → ℕ
one_less zero = zero
one_less (suc n) = n

unfoldable pub try_receive : Semaphore → Semaphore
try_receive s = record s { taken = one_less s.taken }

unfoldable pub try_acquire_bcrypt : Option Guard → Bool × Option Guard
try_acquire_bcrypt none = (true, none)
try_acquire_bcrypt (some g) = elim g.bcrypt_sem [
  | none ↦ (true, some g)
  | some s ↦ let (got, t) = try_send s in (got, some (record g { bcrypt_sem = some t }))
]

unfoldable pub release_bcrypt : Option Guard → Option Guard
release_bcrypt none = none
release_bcrypt (some g) = elim g.bcrypt_sem [
  | none ↦ some g
  | some s ↦ some (record g { bcrypt_sem = some (try_receive s) })
]

pub record Request : Type 0 where
  pub is_post : Bool
  pub path : String
  pub client_ip : String

abbrev pub is_login : Request → Bool
is_login req = req.is_post && req.path == "/api/auth/login"

abbrev pub is_registration : Request → Bool
is_registration req =
    req.is_post && (req.path == "/api/auth/register" || req.path == "/api/accounts/register")

-- The verdict of the middleware: `allowed` calls the next handler.
unfoldable pub admit_request : Request → ℕ → Option Guard → Verdict × Option Guard
admit_request req now g =
    if is_login req
    then allow_login_ip req.client_ip now g
    else if is_registration req
    then allow_register_ip req.client_ip now g
    else allow_general_ip req.client_ip now g
