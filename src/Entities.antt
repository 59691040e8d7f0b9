-- ===== src/Entities.antt =====
-- Records that several packages pass around: the API key of internal/store/store.go, as `auth` puts
-- it into the request's context, and the billing resolution of internal/billing/billing.go.
use local_ai_proxy.Prelude.{ℕ, Bool, Option}
use local_ai_proxy.Prelude.Int.{ℤ}

-- The fields that the request path reads; name, hash, prefix and dates serve the admin listings.
pub record ApiKey : Type 0 where
  pub id : ℕ
  pub rate_limit : ℤ
  pub account_id : Option ℕ
  pub session_token_limit : Option ℤ
  pub trust_user_headers : Bool
  pub account_rate_limit_per_min : Option ℤ
  pub account_allowance_managed : Bool

pub record Resolution : Type 0 where
  pub account_id : ℕ
  pub allowance_managed : Bool
  pub rate_limit_per_min : Option ℤ
