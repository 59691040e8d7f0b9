-- ===== src/Store/Ledger.antt =====
-- internal/store/credits.go: balances, holds and the audit trail, a method to a definition. The
-- row lock of ReserveCredits and the row updates of the others make each transaction one step.
pub mod Outcomes
pub mod Books
pub mod Histories
pub mod Ids
pub mod Once
use local_ai_proxy.Prelude.{
  ℕ, ◌+◌, Bool, true, false, not, ◌&&◌, Option, none, some, List, [], ◌∷◌, ltb, if◌then◌else◌,
  ℕ_key, length,
}
use local_ai_proxy.Prelude.Int.{ℤ, pos, ◌-ℤ◌}
use local_ai_proxy.Prelude.Dict.{Dict, lookup, insert}
use local_ai_proxy.Prelude.Rows.{keep_rows}
use local_ai_proxy.Store.Amounts.{Amount, no_amount, column, plus, minus}
use local_ai_proxy.Store.Sql.{
  Error, no_rows, insufficient, not_found, Result, ok, err, Account, Balance, HoldStatus, pending,
  settled, released, Hold, Transaction, TransactionType, grant, usage, Db, World, Sql, ◌>>=◌, ◌>>◌,
  pure, require, clock, statement, Ending, commits, abandons, transaction,
}

-- The statements.

-- `SELECT balance, reserved FROM credit_balances WHERE account_id = $1 FOR UPDATE`
unfoldable pub select_balance : ℕ → Db → Result Balance × Db
select_balance account db = elim (lookup account db.balances) [
  | none ↦ (err no_rows, db)
  | some b ↦ (ok b, db)
]

-- `UPDATE credit_balances SET … WHERE account_id = $1`; no row is no error for Exec.
unfoldable pub update_balance : ℕ → (Balance → Balance) → Db → Result (Unit {0}) × Db
update_balance account f db = elim (lookup account db.balances) [
  | none ↦ (ok tt, db)
  | some b ↦ (ok tt, record db { balances = insert account (f b) db.balances })
]

-- The same with `RETURNING balance`, which a QueryRow misses if there is no row.
unfoldable pub update_balance_returning : ℕ → (Balance → Balance) → Db → Result ℤ × Db
update_balance_returning account f db = elim (lookup account db.balances) [
  | none ↦ (err no_rows, db)
  | some b ↦ (ok (f b).balance, record db { balances = insert account (f b) db.balances })
]

-- `INSERT INTO credit_transactions …`
unfoldable pub insert_transaction : Transaction → Db → Result (Unit {0}) × Db
insert_transaction t db = (ok tt, record db { transactions = t ∷ db.transactions })

-- `INSERT INTO credit_holds (account_id, amount) … RETURNING id`
unfoldable pub insert_hold : ℕ → Amount → ℕ → Db → Result ℕ × Db
insert_hold account amount now db =
    let id = db.hold_seq + 1 in
    (
      ok id,
      record db {
        holds =
            insert id
              (record {
                account_id = account;
                amount = column amount;
                status = pending;
                created_at = now;
                settled_at = none;
              })
              db.holds;
        hold_seq = id;
      },
    )

abbrev pub is_pending : HoldStatus → Bool
is_pending pending = true
is_pending settled = false
is_pending released = false

-- `UPDATE credit_holds SET status = …, settled_at = NOW() WHERE id = $1 AND status = 'pending'
-- RETURNING account_id, amount`; `none` is ErrNoRows.
unfoldable pub close_hold : ℕ → HoldStatus → ℕ → Db → Result (Option Hold) × Db
close_hold id status now db = elim (lookup id db.holds) [
  | none ↦ (ok none, db)
  | some h ↦
      if is_pending h.status
      then (
        ok (some h),
        record db {
          holds = insert id (record h { status = status; settled_at = some now }) db.holds;
        },
      )
      else (ok none, db)
]

-- The methods.

-- AddCredits
unfoldable pub add_credits : ℕ → Amount → Sql (Unit {0})
add_credits account amount = transaction do
  new_balance ←
      statement
        (update_balance_returning account (λ b. record b { balance = plus b.balance amount }))
  statement (
      insert_transaction (record {
        account_id = account;
        amount = column amount;
        balance_after = new_balance;
        kind = grant;
        reference_id = none;
      }))
  pure (commits tt)

-- ReserveCredits
unfoldable pub reserve_credits : ℕ → Amount → Sql ℕ
reserve_credits account amount = transaction do
  b ← statement (select_balance account)
  require (not (amount.exceeds b.balance b.reserved)) insufficient
  now ← clock
  hold_id ← statement (insert_hold account amount now)
  statement (update_balance account (λ b. record b { reserved = plus b.reserved amount }))
  pure (commits hold_id)

unfoldable pub settle_found : ℕ → Amount → Option Hold → Sql (Ending Amount)
settle_found hold_id actual none = pure (abandons no_amount)
settle_found hold_id actual (some h) = do
  new_balance ← statement (
      update_balance_returning h.account_id
        (λ b. record b { balance = minus b.balance actual; reserved = b.reserved -ℤ h.amount }))
  statement (
      insert_transaction (record {
        account_id = h.account_id;
        amount = minus (pos 0) actual;
        balance_after = new_balance;
        kind = usage;
        reference_id = some hold_id;
      }))
  pure (commits actual)

-- SettleHold: what was charged, which is 0 if the hold was no longer pending.
unfoldable pub settle_hold : ℕ → Amount → Sql Amount
settle_hold hold_id actual = transaction do
  now ← clock
  found ← statement (close_hold hold_id settled now)
  settle_found hold_id actual found

unfoldable pub release_found : Option Hold → Sql (Ending (Unit {0}))
release_found none = pure (abandons tt)
release_found (some h) = do
  statement (update_balance h.account_id (λ b. record b { reserved = b.reserved -ℤ h.amount }))
  pure (commits tt)

-- ReleaseHold
unfoldable pub release_hold : ℕ → Sql (Unit {0})
release_hold hold_id =
    transaction
      do now ← clock; found ← statement (close_hold hold_id released now); release_found found

-- `status = 'pending' AND created_at < $1`, at a cutoff of now - older_than
abbrev pub is_stale : ℕ → ℕ → Hold → Bool
is_stale now older_than h = is_pending h.status && ltb (h.created_at + older_than) now

abbrev pub ids_where : (Hold → Bool) → Dict ℕ Hold → List ℕ
ids_where p [] = []
ids_where p ((id, h) ∷ m) = let rest = ids_where p m in if p h then id ∷ rest else rest

-- The loop of SweepStaleHolds: the count so far comes back beside an error.
abbrev pub then_rest :
    (World → (ℕ × Option Error) × World)
    → ℕ
    → Result (Unit {0}) × World
    → (ℕ × Option Error) × World
then_rest rest n (ok t, w) = rest w
then_rest rest n (err e, w) = ((n, some e), w)

unfoldable pub release_all : List ℕ → ℕ → World → (ℕ × Option Error) × World
release_all [] n w = ((n, none), w)
release_all (id ∷ ids) n w = then_rest (release_all ids (n + 1)) n (release_hold id w)

abbrev pub sweep_ids : Result (List ℕ) × World → (ℕ × Option Error) × World
sweep_ids (ok ids, w) = release_all ids 0 w
sweep_ids (err e, w) = ((0, some e), w)

-- SweepStaleHolds
unfoldable pub sweep_stale_holds : ℕ → World → (ℕ × Option Error) × World
sweep_stale_holds older_than w =
    sweep_ids (statement (λ db. (ok (ids_where (is_stale w.now older_than) db.holds), db)) w)

-- `status IN ('settled', 'released') AND settled_at < $1`
abbrev pub is_old : ℕ → ℕ → Hold → Bool
is_old now older_than h =
    not (is_pending h.status)
    && elim h.settled_at [ none ↦ false | some t ↦ ltb (t + older_than) now ]

-- CleanupSettledHolds, without the count of the deleted rows, which only metrics use
unfoldable pub cleanup_settled_holds : ℕ → Sql (Unit {0})
cleanup_settled_holds older_than w =
    statement
      (λ db.
        (ok tt, record db { holds = keep_rows (λ h. not (is_old w.now older_than h)) db.holds }))
      w

-- GetAccountCreditStatus: is_active, balance and reserved, from the join of the two tables
unfoldable pub get_account_credit_status : ℕ → Sql (Bool × ℤ × ℤ)
get_account_credit_status account = statement λ db. elim (lookup account db.accounts) [
  | none ↦ (err not_found, db)
  | some a ↦ elim (lookup account db.balances) [
    | none ↦ (err not_found, db)
    | some b ↦ (ok (a.is_active, b.balance, b.reserved), db)
  ]
]
