-- ===== src/Store/Examples.antt =====
-- Tests of internal/store/credits.go, and the theorems of the ledger at concrete accounts.
use local_ai_proxy.Store.Directory.{no_directory}
use local_ai_proxy.Prelude.{
  ℕ, ◌≡◌, ◌≢◌, refl, Bool, true, false, none, some, String_key, ◌==◌, List, [], ◌∷◌, arith,
  if◌then◌else◌, ℕ_key,
}
use local_ai_proxy.Prelude.Int.{pos, negsuc, ltb_ℤ, ◌+ℤ◌, ◌-ℤ◌}
use local_ai_proxy.Store.Amounts.{
  Amount, half, whole_units, no_amount, plus, minus, column, half_away,
}
use local_ai_proxy.Prelude.Dict.{lookup, insert}
use local_ai_proxy.Prelude.Rows.{weigh}
use local_ai_proxy.Store.Sql.{
  ok, pending, grant, request_pending, granted, dismissed, Db, World, answer, statement,
  transaction, rollback, ◌>>=◌, pure, clock,
}
use local_ai_proxy.Store.Ledger.{
  settle_hold, settle_found, release_all, sweep_stale_holds, update_balance_returning,
  insert_transaction, close_hold,
}
use local_ai_proxy.Store.Ledger.Outcomes.{IsUnchanged, row}
use local_ai_proxy.Store.Ledger.Books.{Books}
use local_ai_proxy.Store.Ledger.Histories.{Call, reserves, settles, sweeps, perform, run, run-Books}
use local_ai_proxy.Store.Ledger.Once.{settle_once}
use local_ai_proxy.Store.Nodes.{NodeRow}
use local_ai_proxy.Store.NodeChecks.{Url, TextLibrary, mask_auth_header, canonicalize_base_url}
use local_ai_proxy.Store.Requests.{
  insert_request, file_credit_request, resolve_row, resolved_or_not, resolve_credit_request,
}
use local_ai_proxy.Store.Requests.Calls.{files, expires, run as run_calls}
use local_ai_proxy.Store.Requests.Open.{IsOpenOnce, run-IsOpenOnce}
use local_ai_proxy.Store.Requests.Resolved.{resolve_once}

-- An account with ten credits that were granted, and one of them reserved.
abbrev opened : Db
opened = record {
  accounts = [];
  balances = (1, record { balance = pos 10; reserved = pos 4; allowance_period = none }) ∷ [];
  holds =
      (
        1,
        record {
          account_id = 1;
          amount = pos 4;
          status = pending;
          created_at = 0;
          settled_at = none;
        },
      )
      ∷ [];
  transactions =
      record {
        account_id = 1;
        amount = pos 10;
        balance_after = pos 10;
        kind = grant;
        reference_id = none;
      }
      ∷ [];
  hold_seq = 1;
  nodes = [];
  node_seq = 0;
  requests = [];
  request_seq = 0;
  directory = no_directory;
}

opened-Books : Books 1 opened
unfolding weigh lookup ◌+ℤ◌
opened-Books = record {
  unique = (refl, tt);
  owned = λ id h e. ground arith;
  sizes = λ id h e. ground arith;
  reserve = λ a. ground arith;
  fresh = λ id h. ground arith;
  audit = λ a. ground arith;
  trail = (omega arith, tt);
}

abbrev at : Db → List Bool → World
at db faults = record { db = db; now = 5; faults = faults }

-- The settlement charges three of the four reserved credits.
settled_balance :
    (row 1 (settle_hold 1 (whole_units (pos 3)) (at opened [])).1.db)
    ≡ record { balance = pos 7; reserved = pos 0; allowance_period = none }
unfolding settle_hold settle_found close_hold transaction rollback statement answer ◌>>=◌ pure clock
    update_balance_returning insert_transaction lookup insert plus minus column ◌-ℤ◌
settled_balance = refl

abbrev half_a_unit : Amount
half_a_unit = record { whole = pos 0; rest = half; exceeds = λ b r. ltb_ℤ (b -ℤ r) (pos 1) }

-- The settlement in the middle fails, and that at the end charges three units and a half.
abbrev calls : List (Call × ℕ × List Bool)
calls =
    (reserves 1 (whole_units (pos 5)), 6, [])
    ∷ (settles 1 (whole_units (pos 3)), 7, false ∷ false ∷ true ∷ [])
    ∷ (sweeps 1, 8, [])
    ∷ (settles 2 (record { whole = pos 3; rest = half; exceeds = λ b r. false }), 8, [])
    ∷ []

run-Books_example : Books 1 (run calls opened)
run-Books_example = run-Books 1 calls opened (omega arith) opened-Books

-- Charged half a unit, an account keeps its balance, and its audit trail says that one is gone.
tie : (minus (pos 10) half_a_unit ≡ pos 10) × (minus (pos 0) half_a_unit ≡ negsuc 0)
unfolding minus half_away ◌-ℤ◌ ◌+ℤ◌
tie = (refl, refl)

abbrev after_first : Db
after_first = (settle_hold 1 (whole_units (pos 3)) (at opened [])).1.db

first_settlement : (settle_hold 1 (whole_units (pos 3)) (at opened [])).0 ≡ ok (whole_units (pos 3))
unfolding settle_hold settle_found close_hold transaction rollback statement answer ◌>>=◌ pure clock
    update_balance_returning insert_transaction lookup insert plus minus column ◌-ℤ◌
first_settlement = refl

abbrev swept : Db
swept = run ((sweeps 0, 9, []) ∷ []) after_first

second_settlement : (settle_hold 1 (whole_units (pos 9)) (at swept [])).0 ≡ ok no_amount
unfolding settle_hold settle_found close_hold transaction rollback statement answer ◌>>=◌ pure clock
    update_balance_returning insert_transaction lookup insert plus minus column ◌-ℤ◌ run perform
    sweep_stale_holds release_all
second_settlement = refl

settle_once_example :
    (no_amount ≡ no_amount)
    × IsUnchanged swept (settle_hold 1 (whole_units (pos 9)) (at swept [])).1.db
unfolding lookup
settle_once_example =
    settle_once 1 (whole_units (pos 3)) (whole_units (pos 9)) (whole_units (pos 3)) no_amount
      (at opened []) (at swept []) ((sweeps 0, 9, []) ∷ []) (refl, tt) (omega arith)
      first_settlement refl second_settlement

abbrev url_v1 : Url
url_v1 = record {
  scheme = "http";
  opaque_part = "";
  host = "gpu";
  has_user = false;
  raw_query = "";
  force_query = false;
  fragment = "";
  escaped_path = "/openai/v1/";
}

abbrev url_library : TextLibrary
url_library = record {
  trim_space = λ s. s;
  to_lower = λ s. s;
  parse_url = λ s.
      if s == "http://gpu/openai/v1/"
      then some url_v1
      else some (record url_v1 { escaped_path = "/openai//" });
}

versioned_url : canonicalize_base_url url_library "http://gpu/openai/v1/" ≡ none
unfolding canonicalize_base_url
versioned_url = refl

trimmed_url : canonicalize_base_url url_library "http://gpu/openai//" ≡ some "http://gpu/openai"
unfolding canonicalize_base_url
trimmed_url = refl

masked_header : mask_auth_header "Bearer sk-12345678" ≡ "Bearer sk-…5678"
unfolding mask_auth_header
masked_header = refl

abbrev secret_row : NodeRow
secret_row = record {
  id = 1;
  name = "gpu";
  base_url = "http://gpu";
  backend_type = "ollama";
  auth_header = some "Bearer sk-12345678";
  static_models = none;
  health_path = none;
  timeout_seconds = none;
  enabled = true;
  source = "api";
}

-- One request, which account 1 has filed in month 3.
abbrev requested : Db
requested = record opened {
  accounts =
      (
        1,
        record {
          is_active = true;
          allowance_managed = true;
          monthly_grant = none;
          rate_limit_per_min = none;
        },
      )
      ∷ [];
  requests =
      (
        1,
        record {
          account_id = 1;
          period = 3;
          status = request_pending;
          created_at = 0;
          resolved_at = none;
          resolved_note = none;
        },
      )
      ∷ [];
  request_seq = 1;
}

abbrev third_month : ℕ → ℕ
third_month now = 3

abbrev asked : World
asked = record { db = requested; now = 5; faults = [] }

-- The second request of the month is not filed.
filed_twice : (file_credit_request third_month 1 asked).0 ≡ ok none
unfolding file_credit_request insert_request statement answer ◌>>=◌ clock lookup insert
filed_twice = refl

later_calls : (resolve_credit_request third_month 1 granted "ok" asked).0 ≡ ok tt
unfolding resolve_credit_request resolve_row resolved_or_not statement answer ◌>>=◌ pure clock
    lookup insert
later_calls = refl

run-IsOpenOnce_example :
    IsOpenOnce 1 3
      (run_calls third_month ((record { at = 6; faults = false ∷ [] }, files 1) ∷ []) asked).db
unfolding weigh IsOpenOnce ◌+ℤ◌
run-IsOpenOnce_example =
    run-IsOpenOnce third_month ((record { at = 6; faults = false ∷ [] }, files 1) ∷ []) asked 1 3
      (omega arith)

resolve_once_example :
    (resolve_credit_request third_month 1 granted "" (
      run_calls third_month
        ((record { at = 6; faults = [] }, expires) ∷ [])
        (resolve_credit_request third_month 1 dismissed "no" asked).1)).0
    ≢ ok tt
unfolding resolve_credit_request resolve_row resolved_or_not statement answer ◌>>=◌ pure clock
    lookup insert
resolve_once_example =
    resolve_once third_month ((record { at = 6; faults = [] }, expires) ∷ []) 1 dismissed granted
      "no" "" asked (omega arith) refl refl
