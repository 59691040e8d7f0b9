-- ===== src/Store/Balances.antt =====
-- internal/store/credits.go: the rows of credit_balances that are read and made outside of the
-- ledger's transactions.
use local_ai_proxy.Prelude.{
  ℕ, ◌≡◌, ◌∙◌, true, false, Option, none, some, [], ◌∷◌, arith, if◌then◌else◌, ◌==◌, eq_key, ℕ_key,
  Option-cases, inl, inr,
}
use local_ai_proxy.Prelude.Dict.{Dict, lookup, insert, lookup-insert}
use local_ai_proxy.Store.Sql.{ok, Account, Balance, Db, Sql, statement, answer}
use local_ai_proxy.Store.Ledger.Outcomes.{no_balance}

-- GetCreditBalance; no row is no error.
unfoldable pub get_credit_balance : ℕ → Sql (Option Balance)
get_credit_balance account = statement λ db. (ok (lookup account db.balances), db)

-- `INSERT … ON CONFLICT DO NOTHING`, with the columns' defaults
unfoldable pub insert_new : ℕ → Dict ℕ Balance → Dict ℕ Balance
insert_new account m = elim (lookup account m) [ none ↦ insert account no_balance m | some b ↦ m ]

-- InitCreditBalance
unfoldable pub init_credit_balance : ℕ → Sql (Unit {0})
init_credit_balance account =
    statement λ db. (ok tt, record db { balances = insert_new account db.balances })

-- One row for each account, where there is none.
unfoldable pub insert_missing : Dict ℕ Account → Dict ℕ Balance → Dict ℕ Balance
insert_missing [] m = m
insert_missing ((id, a) ∷ accounts) m = insert_missing accounts (insert_new id m)

-- BackfillCreditBalances
unfoldable pub backfill_credit_balances : Sql (Unit {0})
backfill_credit_balances =
    statement λ db. (ok tt, record db { balances = insert_missing db.accounts db.balances })

-- The row that an account has, or an empty one if the account is known.
abbrev pub row_or_new : Option Balance → Option Account → Option Balance
row_or_new (some b) a = some b
row_or_new none none = none
row_or_new none (some a) = some no_balance

insert_new-lookup :
    (id k : ℕ) (m : Dict ℕ Balance)
    → lookup k (insert_new id m) ≡ (
        if id == k
        then row_or_new (lookup k m) (
            some (record {
              is_active = true;
              allowance_managed = false;
              monthly_grant = none;
              rate_limit_per_min = none;
            }))
        else lookup k m)
unfolding insert_new
insert_new-lookup id k m = elim (Option-cases (lookup id m)) [
  | inl e ↦ rw (insert_new, e, lookup-insert) (ground (arith, eq_key id k))
  | inr (b, e) ↦ rw (insert_new, e) (ground (arith, eq_key id k))
]

insert_missing-lookup :
    (k : ℕ) (accounts : Dict ℕ Account) (m : Dict ℕ Balance)
    → lookup k (insert_missing accounts m) ≡ row_or_new (lookup k m) (lookup k accounts)
unfolding insert_missing lookup
insert_missing-lookup k [] m = ground arith
insert_missing-lookup k ((id, a) ∷ accounts) m =
    insert_missing-lookup k accounts (insert_new id m)
    ∙ rw (insert_new-lookup id k m) (ground (arith))

-- After a backfill by a database that answers every known account has a balance, each row that was
-- there is as it was, and an unknown account has got none.
pub backfill_credit_balances-lookup :
    (k now : ℕ) (db : Db)
    → lookup k (backfill_credit_balances (record { db = db; now = now; faults = [] })).1.db.balances
      ≡ row_or_new (lookup k db.balances) (lookup k db.accounts)
unfolding backfill_credit_balances statement answer
backfill_credit_balances-lookup k now db = insert_missing-lookup k db.accounts db.balances
