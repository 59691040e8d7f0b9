-- ===== src/Billing.antt =====
-- internal/billing/billing.go: Middleware, up to the call of the next handler, with
-- ResolveEndUserAccount of internal/store/federated.go.
use local_ai_proxy.Prelude.{
  ℕ, ◌≡◌, refl, Bool, true, false, ◌&&◌, not, Option, none, some, String, String_key, ◌==◌,
  if◌then◌else◌, Bool-cases, inl, inr,
}
use local_ai_proxy.Prelude.Int.{ℤ}
use local_ai_proxy.Entities.{ApiKey, Resolution}
use local_ai_proxy.Store.Sql.{Result, ok, err, World}
use local_ai_proxy.Store.Federated.{FederatedIdentity, EndUserResolution, resolve_end_user_account}
pub mod Isolation
mod Examples

-- The identity headers, trimmed.
pub record Identity : Type 0 where
  pub external_id : String
  pub email : String
  pub display_name : String

-- What ResolveEndUserAccount is asked for, with SourceOpenWebUI.
abbrev pub federated : Identity → FederatedIdentity
federated who = record {
  source = "openwebui";
  external_id = who.external_id;
  email = who.email;
  display_name = who.display_name;
}

-- The next handler is called with a resolution or without one, or the request fails.
pub data Billed : Type 0 where
  continues : Option Resolution → Billed
  resolution_failed : Billed

abbrev pub of_user : Result EndUserResolution × World → Billed × World
of_user (err e, w) = (resolution_failed, w)
of_user (ok u, w) = (
  continues (
      some (record {
        account_id = u.account_id;
        allowance_managed = true;
        rate_limit_per_min = u.rate_limit_per_min;
      })),
  w,
)

abbrev pub of_key : ApiKey → Option ℕ → Option Resolution
of_key key none = none
of_key key (some account) = some (record {
  account_id = account;
  allowance_managed = key.account_allowance_managed;
  rate_limit_per_min = key.account_rate_limit_per_min;
})

abbrev pub names_user : ApiKey → Identity → Bool
names_user key who = key.trust_user_headers && not (who.external_id == "")

-- `has_db` says that the store is not nil; `month_of` is the UTC month of a time.
unfoldable pub bill : (ℕ → ℕ) → ℤ → Bool → Option ApiKey → Identity → World → Billed × World
bill month_of default_grant has_db none who w = (continues none, w)
bill month_of default_grant has_db (some key) who w =
    if has_db
    then (if names_user key who
        then of_user (resolve_end_user_account month_of (federated who) default_grant w.now w)
        else (continues (of_key key key.account_id), w))
    else (continues none, w)
