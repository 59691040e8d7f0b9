-- ===== src/Store/Federated/Periods.antt =====
-- internal/store: once an account has had the allowance of a month, no step takes that back.
use local_ai_proxy.Prelude.{
  ℕ, ◌+◌, ◌≤◌, ◌≡◌, refl, sym, ap, ◌∙◌, true, some, arith, ◌==◌, eq_key, ℕ_key, String_key, inl,
  inr, Option-cases, Bool-cases,
}
use local_ai_proxy.Prelude.Int.{ℤ}
use local_ai_proxy.Prelude.Dict.{lookup, insert, lookup-insert}
use local_ai_proxy.Store.Sql.{Balance, Db, rollback}
use local_ai_proxy.Store.Ledger.{update_balance, update_balance_returning}
use local_ai_proxy.Store.Registration.{insert_balance}
use local_ai_proxy.Prelude.Rows.{find_row}
use local_ai_proxy.Store.Users.{is_some}
use local_ai_proxy.Store.Federated.{
  FederatedIdentity, is_identity, refresh_identity, insert_identity, is_allowance_due,
  reset_balance,
}
use local_ai_proxy.Store.Federated.Steps.{IsSteady}

-- The balance of the account has had the allowance of the month, or of a later one.
pub record IsGranted (account month : ℕ) (db : Db) : Type 0 where
  pub balance : Balance
  pub period : ℕ
  pub at : lookup account db.balances ≡ some balance
  pub since : balance.allowance_period ≡ some period
  pub reached : month ≤ period

module _ (account month : ℕ) where
  rollback-IsGranted :
      (before after : Db)
      → IsGranted account month before
      → IsGranted account month (rollback before after)
  unfolding rollback
  rollback-IsGranted before after h = record {
    balance = h.balance;
    period = h.period;
    at = h.at;
    since = h.since;
    reached = h.reached;
  }

  -- A row that is written keeps its period, or moves it on.
  written-IsGranted :
      (a : ℕ) (b : Balance) (period : ℕ) (db : Db)
      → (a ≡ account → (b.allowance_period ≡ some period) × (month ≤ period))
      → IsGranted account month db
      → IsGranted account month (record db { balances = insert a b db.balances })
  written-IsGranted a b period db own h = elim (Bool-cases (a == account)) [
    | inl e ↦
        let (since, reached) = own ((eq_key a account).0 e) in
        record {
          balance = b;
          period = period;
          at = rw (lookup-insert, e) refl;
          since = since;
          reached = reached;
        }
    | inr e ↦ record {
      balance = h.balance;
      period = h.period;
      at = rw (lookup-insert, e) h.at;
      since = h.since;
      reached = h.reached;
    }
  ]

  same_period :
      (a : ℕ) (b : Balance) (f : Balance → Balance) (db : Db)
      → ((x : Balance) → (f x).allowance_period ≡ x.allowance_period)
      → lookup a db.balances ≡ some b
      → (h : IsGranted account month db) → a ≡ account
      → ((f b).allowance_period ≡ some h.period) × (month ≤ h.period)
  same_period a b f db keep e h same =
      let both : some b ≡ some h.balance = sym e ∙ ap (λ j. lookup j db.balances) same ∙ h.at in
      let one : b ≡ h.balance = cc both in
      (keep b ∙ ap (λ x. x.allowance_period) one ∙ h.since, h.reached)

  update_balance-IsGranted :
      (a : ℕ) (f : Balance → Balance) (db : Db)
      → ((x : Balance) → (f x).allowance_period ≡ x.allowance_period)
      → IsGranted account month db
      → IsGranted account month (update_balance a f db).1
  unfolding update_balance
  update_balance-IsGranted a f db keep h = elim (Option-cases (lookup a db.balances)) [
    | inl e ↦ rw (update_balance, e) h
    | inr (b, e) ↦
        rw (update_balance, e)
          (written-IsGranted a (f b) h.period db (same_period a b f db keep e h) h)
  ]

  update_returning-IsGranted :
      (a : ℕ) (f : Balance → Balance) (db : Db)
      → ((x : Balance) → (f x).allowance_period ≡ x.allowance_period)
      → IsGranted account month db
      → IsGranted account month (update_balance_returning a f db).1
  unfolding update_balance_returning
  update_returning-IsGranted a f db keep h = elim (Option-cases (lookup a db.balances)) [
    | inl e ↦ rw (update_balance_returning, e) h
    | inr (b, e) ↦
        rw (update_balance_returning, e)
          (written-IsGranted a (f b) h.period db (same_period a b f db keep e h) h)
  ]

  insert_balance-IsGranted :
      (a : ℕ) (db : Db)
      → IsGranted account month db
      → IsGranted account month (insert_balance a db).1
  unfolding insert_balance
  insert_balance-IsGranted a db h = elim (Option-cases (lookup a db.balances)) [
    | inr (b, e) ↦ rw (insert_balance, e) h
    | inl e ↦
        rw (insert_balance, e)
          (written-IsGranted a _ h.period db
            (λ same. absurd (cc (sym e ∙ ap (λ j. lookup j db.balances) same ∙ h.at))) h)
  ]

  -- A reset for the month of its call moves the period on.
  reset_balance-IsGranted :
      (a : ℕ) (grant : ℤ) (m : ℕ) (db : Db)
      → IsGranted account month db
      → IsGranted account month (reset_balance a grant m db).1
  unfolding reset_balance
  reset_balance-IsGranted a grant m db h = elim (Option-cases (lookup a db.balances)) [
    | inl e ↦ rw (reset_balance, e) h
    | inr (b, e) ↦ elim (Bool-cases (is_allowance_due m b.allowance_period)) [
      | inr d ↦ rw (reset_balance, e, d) h
      | inl d ↦
          rw (reset_balance, e, d)
            (written-IsGranted a (record b { balance = grant; allowance_period = some m }) m db
              (λ same.
                let (since, reached) = same_period a b (λ x. x) db (λ x. refl) e h same in
                (refl, later m h.period reached (ap (λ o. is_allowance_due m o) (sym since) ∙ d)))
              h)
    ]
  ]
    where
      later : (m p : ℕ) → month ≤ p → is_allowance_due m (some p) ≡ true → month ≤ m
      later m p reached d = ground arith

  -- Tables with the same balances
  abbrev pub same_balances :
      (before after : Db)
      → after.balances ≡ before.balances
      → IsGranted account month before
      → IsGranted account month after
  same_balances before after e h = record {
    balance = h.balance;
    period = h.period;
    at = ap (λ m. lookup account m) e ∙ h.at;
    since = h.since;
    reached = h.reached;
  }

  refresh-IsGranted :
      (f : FederatedIdentity) (db : Db)
      → IsGranted account month db
      → IsGranted account month (refresh_identity f db).1
  unfolding refresh_identity
  refresh-IsGranted f db h =
      elim (Option-cases (find_row (is_identity f) db.directory.identities)) [
        | inl e ↦ same_balances db (refresh_identity f db).1 (rw (refresh_identity, e) refl) h
        | inr (x, e) ↦ same_balances db (refresh_identity f db).1 (rw (refresh_identity, e) refl) h
      ]

  insert_identity-IsGranted :
      (f : FederatedIdentity) (a : ℕ) (db : Db)
      → IsGranted account month db
      → IsGranted account month (insert_identity f a db).1
  unfolding insert_identity
  insert_identity-IsGranted f a db h =
      elim (Bool-cases (is_some (find_row (is_identity f) db.directory.identities))) [
        | inl e ↦ same_balances db (insert_identity f a db).1 (rw (insert_identity, e) refl) h
        | inr e ↦
            elim (Bool-cases
              (is_some (lookup (db.directory.identity_seq + 1) db.directory.identities))) [
                | inl n ↦
                    same_balances db (insert_identity f a db).1 (rw (insert_identity, e, n) refl) h
                | inr n ↦
                    same_balances db (insert_identity f a db).1 (rw (insert_identity, e, n) refl) h
              ]
      ]

  pub IsGranted-IsSteady : IsSteady (IsGranted account month)
  IsGranted-IsSteady = record {
    rolls = rollback-IsGranted;
    aside = λ before after e i h. same_balances before after e h;
    updates = update_balance-IsGranted;
    returns = update_returning-IsGranted;
    opens = insert_balance-IsGranted;
    resets = reset_balance-IsGranted;
    refreshes = refresh-IsGranted;
    inserts = insert_identity-IsGranted;
  }
