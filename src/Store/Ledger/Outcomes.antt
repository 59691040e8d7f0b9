-- ===== src/Store/Ledger/Outcomes.antt =====
-- The whole effect of each transaction of internal/store/credits.go, whatever calls of the driver
-- fail: either the tables are as they were, or they are what the statements make of them.
use local_ai_proxy.Prelude.{
  ℕ, ◌+◌, ◌≤◌, ◌≡◌, false, Option, none, some, ◌∷◌, arith, if◌then◌else◌, ℕ_key,
}
use local_ai_proxy.Prelude.Int.{pos, ◌-ℤ◌}
use local_ai_proxy.Prelude.Dict.{lookup, insert}
use local_ai_proxy.Store.Amounts.{Amount, no_amount, column, plus, minus}
use local_ai_proxy.Store.Sql.{
  Result, ok, err, Balance, HoldStatus, pending, settled, released, Hold, grant, usage, Db, World,
  ◌>>=◌, pure, require, clock, answer, statement, rollback, transaction,
}
use local_ai_proxy.Store.Ledger.{
  select_balance, update_balance, update_balance_returning, insert_transaction, insert_hold,
  close_hold, is_pending, add_credits, reserve_credits, settle_found, settle_hold, release_found,
  release_hold,
}

-- No table has changed; a sequence may have advanced.
pub record IsUnchanged (before after : Db) : Type 0 where
  pub accounts : after.accounts ≡ before.accounts
  pub balances : after.balances ≡ before.balances
  pub holds : after.holds ≡ before.holds
  pub transactions : after.transactions ≡ before.transactions
  pub nodes : after.nodes ≡ before.nodes
  pub requests : after.requests ≡ before.requests
  pub directory : after.directory ≡ before.directory
  pub hold_seq : before.hold_seq ≤ after.hold_seq

abbrev pub no_balance : Balance
no_balance = record { balance = pos 0; reserved = pos 0; allowance_period = none }

abbrev pub row : ℕ → Db → Balance
row account db = elim (lookup account db.balances) [ none ↦ no_balance | some b ↦ b ]

abbrev pub new_hold : ℕ → Amount → ℕ → Hold
new_hold account amount now = record {
  account_id = account;
  amount = column amount;
  status = pending;
  created_at = now;
  settled_at = none;
}

abbrev pub reserved_db : ℕ → Amount → ℕ → Db → Db
reserved_db account amount now before =
    let b = row account before in
    record before {
      holds = insert (before.hold_seq + 1) (new_hold account amount now) before.holds;
      hold_seq = before.hold_seq + 1;
      balances = insert account (record b { reserved = plus b.reserved amount }) before.balances;
    }

abbrev pub Reserves : ℕ → Amount → Db → ℕ → Result ℕ × World → Type 0
Reserves account amount before now (err e, w) = IsUnchanged before w.db
Reserves account amount before now (ok id, w) =
    (lookup account before.balances ≡ some (row account before))
    × (amount.exceeds (row account before).balance (row account before).reserved ≡ false)
    × (id ≡ before.hold_seq + 1)
    × (w.db ≡ reserved_db account amount now before)

pub reserve_credits-Reserves :
    (account : ℕ) (amount : Amount) (w : World)
    → Reserves account amount w.db w.now (reserve_credits account amount w)
unfolding reserve_credits transaction rollback statement answer ◌>>=◌ pure require clock
    select_balance insert_hold update_balance
reserve_credits-Reserves account amount w = ground arith

abbrev pub credited : ℕ → Amount → Db → Db
credited account amount before =
    let b = row account before in
    record before {
      balances = insert account (record b { balance = plus b.balance amount }) before.balances;
      transactions =
          record {
            account_id = account;
            amount = column amount;
            balance_after = plus b.balance amount;
            kind = grant;
            reference_id = none;
          }
          ∷ before.transactions;
    }

abbrev pub Adds : ℕ → Amount → Db → Result (Unit {0}) × World → Type 0
Adds account amount before (err e, w) = IsUnchanged before w.db
Adds account amount before (ok t, w) =
    (lookup account before.balances ≡ some (row account before))
    × (w.db ≡ credited account amount before)

pub add_credits-Adds :
    (account : ℕ) (amount : Amount) (w : World)
    → Adds account amount w.db (add_credits account amount w)
unfolding add_credits transaction rollback statement answer ◌>>=◌ pure update_balance_returning
    insert_transaction
add_credits-Adds account amount w = ground arith

-- The hold of an id, if it is still pending.
abbrev pub open_hold : ℕ → Db → Option Hold
open_hold id db = elim (lookup id db.holds) [
  | none ↦ none
  | some h ↦ if is_pending h.status then some h else none
]

abbrev pub closed : Hold → HoldStatus → ℕ → Hold
closed h status now = record h { status = status; settled_at = some now }

abbrev pub settled_db : ℕ → Amount → Hold → ℕ → Db → Db
settled_db id actual h now before =
    let b = row h.account_id before in
    record before {
      holds = insert id (closed h settled now) before.holds;
      balances =
          insert h.account_id
            (record b { balance = minus b.balance actual; reserved = b.reserved -ℤ h.amount })
            before.balances;
      transactions =
          record {
            account_id = h.account_id;
            amount = minus (pos 0) actual;
            balance_after = minus b.balance actual;
            kind = usage;
            reference_id = some id;
          }
          ∷ before.transactions;
    }

abbrev pub SettlesAs : ℕ → Amount → Option Hold → Db → ℕ → Amount → Db → Type 0
SettlesAs id actual none before now charged after = (charged ≡ no_amount) × IsUnchanged before after
SettlesAs id actual (some h) before now charged after =
    (charged ≡ actual)
    × (lookup h.account_id before.balances ≡ some (row h.account_id before))
    × (after ≡ settled_db id actual h now before)

abbrev pub Settles : ℕ → Amount → Db → ℕ → Result Amount × World → Type 0
Settles id actual before now (err e, w) = IsUnchanged before w.db
Settles id actual before now (ok charged, w) =
    SettlesAs id actual (open_hold id before) before now charged w.db

pub settle_hold-Settles :
    (id : ℕ) (actual : Amount) (w : World) → Settles id actual w.db w.now (settle_hold id actual w)
unfolding settle_hold settle_found close_hold transaction rollback statement answer ◌>>=◌ pure clock
    update_balance_returning insert_transaction
settle_hold-Settles id actual w = ground arith

-- A release returns the reservation of a pending hold; an account without a balance has none.
abbrev pub released_db : ℕ → Hold → ℕ → Db → Db
released_db id h now before = record before {
  holds = insert id (closed h released now) before.holds;
  balances = elim (lookup h.account_id before.balances) [
    | none ↦ before.balances
    | some b ↦ insert h.account_id (record b { reserved = b.reserved -ℤ h.amount }) before.balances
  ];
}

abbrev pub ReleasesAs : ℕ → Option Hold → Db → ℕ → Db → Type 0
ReleasesAs id none before now after = IsUnchanged before after
ReleasesAs id (some h) before now after = after ≡ released_db id h now before

abbrev pub Releases : ℕ → Db → ℕ → Result (Unit {0}) × World → Type 0
Releases id before now (err e, w) = IsUnchanged before w.db
Releases id before now (ok t, w) = ReleasesAs id (open_hold id before) before now w.db

pub release_hold-Releases : (id : ℕ) (w : World) → Releases id w.db w.now (release_hold id w)
unfolding release_hold release_found close_hold transaction rollback statement answer ◌>>=◌ pure
    clock update_balance
release_hold-Releases id w = ground arith
