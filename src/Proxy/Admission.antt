-- ===== src/Proxy/Admission.antt =====
-- internal/proxy/proxy.go: handleChatCompletions up to the call of the node. The JSON decoder's
-- results are fields of the request; what the queries GetPricingByModel, GetAccountUsageStats and
-- GetSessionTokenUsage answered are the readings; the usage statistics are read twice.
use local_ai_proxy.Prelude.{
  ℕ, ◌≡◌, Bool, false, not, ◌&&◌, Option, none, some, String, if◌then◌else◌, ℕ_key,
}
use local_ai_proxy.Prelude.Int.{ℤ, pos, ◌+ℤ◌, ltb_ℤ}
use local_ai_proxy.Prelude.Dict.{lookup}
use local_ai_proxy.Entities.{ApiKey, Resolution}
use local_ai_proxy.Credits.Estimator.{
  CreditPricing, AccountUsageStats, estimate_prompt_tokens, estimate_completion_tokens,
  estimate_cost,
}
use local_ai_proxy.Store.Sql.{Result, ok, err, Db, World}
use local_ai_proxy.Store.Ledger.{reserve_credits}
use local_ai_proxy.Store.Amounts.{Amount}
use local_ai_proxy.Store.Ledger.Outcomes.{IsUnchanged, new_hold}
use local_ai_proxy.Credits.Gate.{billing_account, is_managed}
use local_ai_proxy.Registry.{
  Node, Registry, resolve, Answer, routed, model_unavailable, index_panic,
}

pub record ChatRequest : Type 0 where
  pub too_large : Bool
  pub readable : Bool
  pub is_json : Bool
  pub model : String
  pub is_blank : Bool
  pub max_tokens : Option ℤ
  pub max_completion_tokens : Option ℤ
  pub body_len : ℕ

pub record Readings : Type 0 where
  pub pricing : Result (Option CreditPricing)
  pub session_stats : Option AccountUsageStats
  pub stats : Option AccountUsageStats
  pub consumed : Result ℤ

pub data Refusal : Type 0 where
  request_too_large invalid_request internal_error unknown_model : Refusal
  session_limit_exceeded unavailable_model insufficient_credits : Refusal
  monthly_limit_reached : ℕ → Refusal

-- A request is forwarded to a node, with its hold if it pays with credits. An index out of range in
-- the registry would be a panic.
pub data Admission : Type 0 where
  refuses : Refusal → Admission
  forwards : Node → Option ℕ → Admission
  panics : Admission

-- The account that pays; `none` if the credits are disabled for the request.
abbrev pub paying_account : Bool → Option ApiKey → Option Resolution → Option ℕ
paying_account has_db none res = none
paying_account has_db (some key) res = if has_db then billing_account key res else none

abbrev pub token_limit : ChatRequest → Option ℤ
token_limit req = elim req.max_tokens [ none ↦ req.max_completion_tokens | some n ↦ some n ]

abbrev pub completion_estimate : ChatRequest → Option AccountUsageStats → CreditPricing → ℤ
completion_estimate req stats pricing =
    estimate_completion_tokens (token_limit req) stats (some pricing)

-- The session limit, which a failing query does not enforce.
abbrev pub is_over : ℤ → Result ℤ → ℤ → Bool
is_over estimate (ok consumed) limit = ltb_ℤ limit (consumed +ℤ estimate)
is_over estimate (err e) limit = false

abbrev pub over_session : ChatRequest → Readings → CreditPricing → Option ℤ → Bool
over_session req reads pricing none = false
over_session req reads pricing (some limit) =
    is_over
      (pos (estimate_prompt_tokens req.body_len)
        +ℤ completion_estimate req reads.session_stats pricing)
      reads.consumed limit

abbrev pub reserve_amount : (ℤ → Amount) → ChatRequest → Readings → CreditPricing → Amount
reserve_amount charge_of req reads pricing = charge_of (
    estimate_cost (some pricing) (pos (estimate_prompt_tokens req.body_len))
      (completion_estimate req reads.stats pricing))

-- Why a reservation that failed turns the request away.
abbrev pub short_of : ℕ → Bool → Refusal
short_of account managed = if managed then monthly_limit_reached account else insufficient_credits

abbrev pub reserved : ℕ → Bool → Node → Result ℕ × World → Admission × World
reserved account managed n (ok id, w) = (forwards n (some id), w)
reserved account managed n (err e, w) = (refuses (short_of account managed), w)

-- An account, and what it will have to reserve.
abbrev pub Payment : Type 0
Payment = ℕ × Bool × Amount

abbrev pub pay : Option Payment → Node → World → Admission × World
pay none n w = (forwards n none, w)
pay (some (account, managed, amount)) n w =
    reserved account managed n (reserve_credits account amount w)

-- The node comes first, the reservation second.
unfoldable pub dispatch : Option Payment → Answer → World → Admission × World
dispatch payment (routed n) w = pay payment n w
dispatch payment model_unavailable w = (refuses unavailable_model, w)
dispatch payment index_panic w = (panics, w)

abbrev pub route : Option Payment → Answer × Registry → World → Admission × World × Registry
route payment (a, r) w = let (answer, after) = dispatch payment a w in (answer, after, r)

module _ (charge_of : ℤ → Amount) (req : ChatRequest) (reads : Readings) where
  unfoldable pub priced :
      ApiKey → ℕ → Bool → World → Registry → CreditPricing → Admission × World × Registry
  unfolding dispatch resolve
  priced key account managed w r pricing =
      if over_session req reads pricing key.session_token_limit
      then (refuses session_limit_exceeded, w, r)
      else route (some (account, managed, reserve_amount charge_of req reads pricing))
          (resolve req.model r) w

  unfoldable pub check_pricing :
      ApiKey
      → ℕ
      → Bool
      → World
      → Registry
      → Result (Option CreditPricing)
      → Admission × World × Registry
  unfolding priced
  check_pricing key account managed w r (err e) = (refuses internal_error, w, r)
  check_pricing key account managed w r (ok none) = (refuses unknown_model, w, r)
  check_pricing key account managed w r (ok (some p)) = priced key account managed w r p

  unfoldable pub check_credits :
      Option ApiKey → Bool → Option ℕ → World → Registry → Admission × World × Registry
  unfolding check_pricing resolve dispatch
  check_credits none managed account w r = route none (resolve req.model r) w
  check_credits (some key) managed none w r = route none (resolve req.model r) w
  check_credits (some key) managed (some account) w r =
      check_pricing key account managed w r reads.pricing

  unfoldable pub admit_chat :
      Bool → Option ApiKey → Option Resolution → World → Registry → Admission × World × Registry
  unfolding check_credits
  admit_chat has_db key res w r =
      if req.too_large
      then (refuses request_too_large, w, r)
      else if (req.readable && (req.is_json && not req.is_blank))
      then check_credits key (is_managed res) (paying_account has_db key res) w r
      else (refuses invalid_request, w, r)

-- What an admission leaves in the database: a refusal, nothing; a request that is forwarded, to the
-- node that the registry answers, either its pending hold for the paying account, or nothing.
abbrev pub IsAdmitted : Option ℕ → Answer → World → Admission → Db → Type 0
IsAdmitted account node w (refuses why) after = IsUnchanged w.db after
IsAdmitted account node w (forwards n none) after =
    (node ≡ routed n) × (account ≡ none) × (after ≡ w.db)
IsAdmitted account node w (forwards n (some id)) after =
    (node ≡ routed n)
    × (a : ℕ) × (amount : Amount) × (account ≡ some a)
    × (lookup id after.holds ≡ some (new_hold a amount w.now))
IsAdmitted account node w panics after = after ≡ w.db

module _ (charge_of : ℤ → Amount) (req : ChatRequest) (reads : Readings) (w : World)
    (r : Registry) where
  abbrev Sound : Option ℕ → Admission × World × Registry → Type 0
  Sound account (answer, v, q) = IsAdmitted account (resolve req.model r).0 w answer v.db
