-- ===== src/Store/Federated/Calls.antt =====
-- internal/store: any sequence of the calls that resolve end users, change their accounts or move
-- their credits, each at its time and under any failures of the driver.
use local_ai_proxy.Prelude.{ℕ, Bool, Option, List, [], ◌∷◌}
use local_ai_proxy.Prelude.Int.{ℤ}
use local_ai_proxy.Store.Amounts.{Amount}
use local_ai_proxy.Store.Sql.{World}
use local_ai_proxy.Store.Ledger.{add_credits, reserve_credits, settle_hold, release_hold}
use local_ai_proxy.Store.Federated.{
  FederatedIdentity, resolve_end_user_account, set_monthly_grant, set_account_rate_limit,
  set_account_active, create_account,
}

pub data AccountCall : Type 0 where
  resolves : FederatedIdentity → ℤ → AccountCall
  sets_grant sets_rate_limit : ℕ → Option ℤ → AccountCall
  sets_active : ℕ → Bool → AccountCall
  creates_account : AccountCall
  adds reserves settles : ℕ → Amount → AccountCall
  releases : ℕ → AccountCall

pub record Moment : Type 0 where
  pub at : ℕ
  pub faults : List Bool

module _ (month_of : ℕ → ℕ) where
  unfoldable pub perform : AccountCall → World → World
  perform (resolves f default_grant) w =
      (resolve_end_user_account month_of f default_grant w.now w).1
  perform (sets_grant id grant) w = (set_monthly_grant id grant w).1
  perform (sets_rate_limit id per_min) w = (set_account_rate_limit id per_min w).1
  perform (sets_active id active) w = (set_account_active id active w).1
  perform creates_account w = (create_account w).1
  perform (adds account amount) w = (add_credits account amount w).1
  perform (reserves account amount) w = (reserve_credits account amount w).1
  perform (settles id actual) w = (settle_hold id actual w).1
  perform (releases id) w = (release_hold id w).1

  -- The latest call stands first.
  unfoldable pub run : List (Moment × AccountCall) → World → World
  run [] w = w
  run ((t, c) ∷ calls) w = perform c (record (run calls w) { now = t.at; faults = t.faults })
