-- ===== src/UserApi/Replies.antt =====
-- internal/user/handler.go: what a handler writes, the state of the process and of the database, and
-- the libraries. Decoding the body of a request has taken place; a display name is not kept.
use local_ai_proxy.Prelude.{ℕ, Bool, Option, String}
use local_ai_proxy.Prelude.Int.{pos}
use local_ai_proxy.RateLimit.Tokens.{Seconds}
use local_ai_proxy.AuthLimit.{Guard}
use local_ai_proxy.Store.Sql.{World}

-- An error with its status and code, a 429 with its Retry-After, or a status with a body.
pub data Reply (A : Type 0) : Type 0 where
  failure : ℕ → String → Reply A
  throttled : Seconds → Reply A
  replies : ℕ → A → Reply A

abbrev pub busy : Seconds
busy = record { num = pos 1; den = pos 1 }

pub record Portal : Type 0 where
  pub world : World
  pub guard : Option Guard

-- bcrypt, with whether a comparison succeeds and `none` for an error, and SHA-256: HashKey, and the
-- key of an email in the guard.
pub record Crypto : Type 0 where
  pub compare_password : String → String → Bool
  pub generate : String → Option String
  pub digest : String → String
  pub email_digest : String → String
