-- ===== src/Credits/Gate.antt =====
-- internal/credits/middleware.go: CreditGate, up to the call of the next handler. Metrics are left
-- out; an answer names the account whose cap hit the recorder is told of.
use local_ai_proxy.Prelude.{ℕ, ◌≡◌, Bool, true, false, Option, none, some, if◌then◌else◌, ℕ_key}
use local_ai_proxy.Prelude.Int.{ℤ, pos, ◌-ℤ◌, leb_ℤ}
use local_ai_proxy.Prelude.Dict.{lookup}
use local_ai_proxy.Entities.{ApiKey, Resolution}
use local_ai_proxy.Store.Sql.{Result, ok, err, Account, Balance, Db, World, not_found}
use local_ai_proxy.Store.Ledger.{get_account_credit_status}

pub data GateAnswer : Type 0 where
  passes account_required internal_error account_disabled insufficient_credits : GateAnswer
  monthly_limit_reached : ℕ → GateAnswer

-- The billing account: the resolution's, or else the key's own.
abbrev pub billing_account : ApiKey → Option Resolution → Option ℕ
billing_account key (some res) = some res.account_id
billing_account key none = key.account_id

abbrev pub is_managed : Option Resolution → Bool
is_managed (some res) = res.allowance_managed
is_managed none = false

abbrev pub empty_answer : ℕ → Bool → GateAnswer
empty_answer account managed =
    if managed then monthly_limit_reached account else insufficient_credits

unfoldable pub judge : ℕ → Bool → Result (Bool × ℤ × ℤ) → GateAnswer
judge account managed (err e) = internal_error
judge account managed (ok (active, balance, reserved)) =
    if active
    then (if leb_ℤ (balance -ℤ reserved) (pos 0) then empty_answer account managed else passes)
    else account_disabled

-- The account's status is read in one statement.
abbrev pub judged : ℕ → Bool → Result (Bool × ℤ × ℤ) × World → GateAnswer × World
judged account managed (r, w) = (judge account managed r, w)

abbrev pub gate_account : Option ℕ → Bool → World → GateAnswer × World
gate_account none managed w = (account_required, w)
gate_account (some account) managed w = judged account managed (get_account_credit_status account w)

unfoldable pub credit_gate : Option ApiKey → Option Resolution → World → GateAnswer × World
credit_gate none res w = (passes, w)
credit_gate (some key) res w = gate_account (billing_account key res) (is_managed res) w

-- An account that may spend: active, with more balance than is reserved.
pub record IsSolvent (account : ℕ) (db : Db) : Type 0 where
  pub owner : Account
  pub funds : Balance
  pub known : lookup account db.accounts ≡ some owner
  pub active : owner.is_active ≡ true
  pub funded : lookup account db.balances ≡ some funds
  pub free : leb_ℤ (funds.balance -ℤ funds.reserved) (pos 0) ≡ false

-- What holds for an answer of the gate: where it passes, the billing account is solvent.
abbrev pub IsSafe : Option ℕ → Db → GateAnswer → Type 0
IsSafe billed db passes = (account : ℕ) × (billed ≡ some account) × IsSolvent account db
IsSafe billed db account_required = billed ≡ none
IsSafe billed db internal_error = Unit
IsSafe billed db account_disabled = Unit
IsSafe billed db insufficient_credits = Unit
IsSafe billed db (monthly_limit_reached account) = billed ≡ some account

-- What the status query can answer, and that it changes nothing.
abbrev IsStatus : ℕ → Db → Result (Bool × ℤ × ℤ) → Type 0
IsStatus account db (err e) = Unit
IsStatus account db (ok (active, balance, reserved)) =
    (a : Account) × (b : Balance) × (lookup account db.accounts ≡ some a)
    × (lookup account db.balances ≡ some b)
    × (a.is_active ≡ active)
    × (b.balance ≡ balance)
    × (b.reserved ≡ reserved)

abbrev status_query : ℕ → Db → Result (Bool × ℤ × ℤ) × Db
status_query account db = elim (lookup account db.accounts) [
  | none ↦ (err not_found, db)
  | some a ↦ elim (lookup account db.balances) [
    | none ↦ (err not_found, db)
    | some b ↦ (ok (a.is_active, b.balance, b.reserved), db)
  ]
]
