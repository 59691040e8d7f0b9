-- ===== src/Store/Federated/Histories.antt =====
-- internal/store: any calls keep what is steady.
use local_ai_proxy.Prelude.{
  ℕ, [], ◌∷◌, refl, Option, none, some, ℕ_key, String_key, inl, inr, Option-cases, Bool-cases, List,
}
use local_ai_proxy.Store.Amounts.{Amount}
use local_ai_proxy.Prelude.Dict.{lookup}
use local_ai_proxy.Store.Sql.{Db, Hold, HoldStatus, World, statement}
use local_ai_proxy.Store.Keeps.{
  Keeps, statement-Keeps, pure-Keeps, bind-Keeps, require-Keeps, clock-Keeps, transaction-Keeps,
}
use local_ai_proxy.Store.Ledger.{
  is_pending, select_balance, insert_hold, close_hold, add_credits, reserve_credits, settle_found,
  settle_hold, release_found, release_hold,
}
use local_ai_proxy.Store.Federated.{
  set_monthly_grant, set_account_rate_limit, set_account_active, create_account,
}
use local_ai_proxy.Store.Federated.Calls.{
  AccountCall, resolves, sets_grant, sets_rate_limit, sets_active, creates_account, adds, reserves,
  settles, releases, Moment, perform, run,
}
use local_ai_proxy.Store.Federated.Steps.{
  IsSteady, account-Keeps, transaction_row-Keeps, resolve-Keeps, set-Keeps,
}

module _ {P : Db → Type 0} (s : IsSteady P) where
  adds-Keeps : (a : ℕ) (x : Amount) → Keeps P (add_credits a x)
  unfolding add_credits
  adds-Keeps a x = transaction-Keeps s.rolls (
      bind-Keeps (statement-Keeps _ (λ db h. s.returns a _ db (λ b. refl) h))
        (λ n. bind-Keeps (transaction_row-Keeps s _) (λ t. pure-Keeps _)))

  balance-Keeps : (a : ℕ) → Keeps P (statement (select_balance a))
  unfolding select_balance
  balance-Keeps a = statement-Keeps _ (λ db h. elim (Option-cases (lookup a db.balances)) [
    | inl e ↦ rw (select_balance, e) h
    | inr (x, e) ↦ rw (select_balance, e) h
  ])

  hold-Keeps : (a : ℕ) (x : Amount) (now : ℕ) → Keeps P (statement (insert_hold a x now))
  unfolding insert_hold
  hold-Keeps a x now = statement-Keeps _ (λ db h. s.aside db _ refl refl h)

  reserves-Keeps : (a : ℕ) (x : Amount) → Keeps P (reserve_credits a x)
  unfolding reserve_credits
  reserves-Keeps a x = transaction-Keeps s.rolls (
      bind-Keeps (balance-Keeps a) (λ b. bind-Keeps (require-Keeps _ _) (λ t.
        bind-Keeps clock-Keeps (λ now. bind-Keeps (hold-Keeps a x now) (λ id.
          bind-Keeps (statement-Keeps _ (λ db h. s.updates a _ db (λ b. refl) h))
            (λ t. pure-Keeps _))))))

  close-Keeps :
      (id : ℕ) (status : HoldStatus) (now : ℕ) → Keeps P (statement (close_hold id status now))
  unfolding close_hold
  close-Keeps id status now = statement-Keeps _ (λ db h. elim (Option-cases (lookup id db.holds)) [
    | inl e ↦ rw (close_hold, e) h
    | inr (x, e) ↦ elim (Bool-cases (is_pending x.status)) [
      | inl b ↦
          s.aside db (close_hold id status now db).1 (rw (close_hold, e, b) refl)
            (rw (close_hold, e, b) refl) h
      | inr b ↦ rw (close_hold, e, b) h
    ]
  ])

  settles-Keeps : (id : ℕ) (x : Amount) → Keeps P (settle_hold id x)
  unfolding settle_hold settle_found
  settles-Keeps id x =
      transaction-Keeps s.rolls
        (bind-Keeps clock-Keeps (λ now. bind-Keeps (close-Keeps id _ now) (λ found. settled found)))
    where
      settled : (found : Option Hold) → Keeps P (settle_found id x found)
      settled none = pure-Keeps _
      settled (some h) =
          bind-Keeps (statement-Keeps _ (λ db k. s.returns h.account_id _ db (λ b. refl) k))
            (λ n. bind-Keeps (transaction_row-Keeps s _) (λ t. pure-Keeps _))

  releases-Keeps : (id : ℕ) → Keeps P (release_hold id)
  unfolding release_hold release_found
  releases-Keeps id =
      transaction-Keeps s.rolls
        (bind-Keeps clock-Keeps (λ now. bind-Keeps (close-Keeps id _ now) (λ found. let_go found)))
    where
      let_go : (found : Option Hold) → Keeps P (release_found found)
      let_go none = pure-Keeps _
      let_go (some h) =
          bind-Keeps (statement-Keeps _ (λ db k. s.updates h.account_id _ db (λ b. refl) k))
            (λ t. pure-Keeps _)

  perform-steady :
      (month_of : ℕ → ℕ) (c : AccountCall) (w : World) → P w.db → P (perform month_of c w).db
  unfolding perform set_monthly_grant set_account_rate_limit set_account_active create_account
  perform-steady month_of (resolves f g) w h = (resolve-Keeps s month_of f g w.now).run w h
  perform-steady month_of (sets_grant id g) w h = (set-Keeps s id _).run w h
  perform-steady month_of (sets_rate_limit id g) w h = (set-Keeps s id _).run w h
  perform-steady month_of (sets_active id b) w h = (set-Keeps s id _).run w h
  perform-steady month_of creates_account w h = (account-Keeps s _).run w h
  perform-steady month_of (adds a x) w h = (adds-Keeps a x).run w h
  perform-steady month_of (reserves a x) w h = (reserves-Keeps a x).run w h
  perform-steady month_of (settles id x) w h = (settles-Keeps id x).run w h
  perform-steady month_of (releases id) w h = (releases-Keeps id).run w h

  pub run-steady :
      (month_of : ℕ → ℕ) (calls : List (Moment × AccountCall)) (w : World)
      → P w.db
      → P (run month_of calls w).db
  unfolding run
  run-steady month_of [] w h = h
  run-steady month_of ((t, c) ∷ calls) w h =
      perform-steady month_of c (record (run month_of calls w) { now = t.at; faults = t.faults })
        (run-steady month_of calls w h)
