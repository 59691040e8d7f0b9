-- ===== src/Store/Sql.antt =====
-- The database of internal/store, and how a Go method reaches it (pgx). A statement is a function
-- on the tables, read off the SQL text; any call of the driver may fail instead, which the list
-- `faults` of the world decides, so that a theorem over all worlds covers every failure. Money is
-- in millionths of a credit, the scale of the DECIMAL(15,6) columns; the driver's rounding of a
-- float64 to that scale has taken place. A fault also stands for an error of the server, such as
-- an overflow of a column.
use local_ai_proxy.Prelude.{ℕ, Bool, true, false, Option, String, List, [], ◌∷◌}
use local_ai_proxy.Prelude.Int.{ℤ}
use local_ai_proxy.Prelude.Dict.{Dict}
use local_ai_proxy.Store.Nodes.{NodeRow}
use local_ai_proxy.Store.Directory.{Directory, restore}

pub data Error : Type 0 where
  unavailable no_rows insufficient not_found already_resolved expired vanished : Error
  name_exists invalid request_resolved request_expired : Error
  user_not_found key_not_found account_not_found token_not_found : Error
  last_active_admin invalid_role email_exists violation bad_token : Error

pub data Result {ℓ} (A : Type ℓ) : Type ℓ where
  ok : A → Result A
  err : Error → Result A

pub record Account : Type 0 where
  pub is_active : Bool
  pub allowance_managed : Bool
  pub monthly_grant : Option ℤ
  pub rate_limit_per_min : Option ℤ

-- `allowance_period` is a count of months.
pub record Balance : Type 0 where
  pub balance : ℤ
  pub reserved : ℤ
  pub allowance_period : Option ℕ

pub data HoldStatus : Type 0 where
  pending settled released : HoldStatus

pub record Hold : Type 0 where
  pub account_id : ℕ
  pub amount : ℤ
  pub status : HoldStatus
  pub created_at : ℕ
  pub settled_at : Option ℕ

pub data TransactionType : Type 0 where
  grant usage monthly_allowance : TransactionType

pub record Transaction : Type 0 where
  pub account_id : ℕ
  pub amount : ℤ
  pub balance_after : ℤ
  pub kind : TransactionType
  pub reference_id : Option ℕ

pub data RequestStatus : Type 0 where
  request_pending granted dismissed request_expired_status : RequestStatus

-- `period` is a count of months.
pub record CreditRequest : Type 0 where
  pub account_id : ℕ
  pub period : ℕ
  pub status : RequestStatus
  pub created_at : ℕ
  pub resolved_at : Option ℕ
  pub resolved_note : Option String

-- `transactions` has the newest row first. Each `_seq` is the sequence behind a table's ids.
pub record Db : Type 0 where
  pub accounts : Dict ℕ Account
  pub balances : Dict ℕ Balance
  pub holds : Dict ℕ Hold
  pub transactions : List Transaction
  pub hold_seq : ℕ
  pub nodes : Dict ℕ NodeRow
  pub node_seq : ℕ
  pub requests : Dict ℕ CreditRequest
  pub request_seq : ℕ
  pub directory : Directory

pub record World : Type 0 where
  pub db : Db
  pub now : ℕ
  pub faults : List Bool

abbrev pub Sql : Type 0 → Type 0
Sql A = World → Result A × World

abbrev pub continue : {A B : Type 0} → (A → Sql B) → Result A × World → Result B × World
continue f (ok a, w) = f a w
continue f (err e, w) = (err e, w)

infixl 5 ◌>>=◌ ◌>>◌
unfoldable pub ◌>>=◌ : {A B : Type 0} → Sql A → (A → Sql B) → Sql B
◌>>=◌ m f w = continue f (m w)

abbrev pub ◌>>◌ : {A B : Type 0} → Sql A → Sql B → Sql B
m >> k = m >>= λ _. k

unfoldable pub pure : {A : Type 0} → A → Sql A
pure a w = (ok a, w)

unfoldable pub require : Bool → Error → Sql (Unit {0})
require true e w = (ok tt, w)
require false e w = (err e, w)

unfoldable pub clock : Sql ℕ
clock w = (ok w.now, w)

-- Whether the next call of the driver fails.
unfoldable pub answer : World → Bool × World
answer w = elim w.faults [ [] ↦ (false, w) | f ∷ fs ↦ (f, record w { faults = fs }) ]

-- A call that fails leaves the tables alone.
abbrev pub perform : {A : Type 0} → (Db → Result A × Db) → Bool × World → Result A × World
perform q (true, w) = (err unavailable, w)
perform q (false, w) = ((q w.db).0, record w { db = (q w.db).1 })

unfoldable pub statement : {A : Type 0} → (Db → Result A × Db) → Sql A
statement q w = perform q (answer w)

-- How the body of a transaction ends: by Commit, or by a return that leaves the deferred Rollback
-- to undo it.
pub data Ending (A : Type 0) : Type 0 where
  commits : A → Ending A
  abandons : A → Ending A

-- A rollback restores the tables, and no sequence.
unfoldable pub rollback : Db → Db → Db
rollback before after = record before {
  hold_seq = after.hold_seq;
  node_seq = after.node_seq;
  request_seq = after.request_seq;
  directory = restore before.directory after.directory;
}

-- Commit, which may fail and then has changed nothing.
abbrev pub commit : {A : Type 0} → A → Db → Bool × World → Result A × World
commit a before (true, w) = (err unavailable, record w { db = rollback before w.db })
commit a before (false, w) = (ok a, w)

abbrev pub finish : {A : Type 0} → Db → Result (Ending A) × World → Result A × World
finish before (ok (commits a), w) = commit a before (answer w)
finish before (ok (abandons a), w) = (ok a, record w { db = rollback before w.db })
finish before (err e, w) = (err e, record w { db = rollback before w.db })

abbrev pub begin : {A : Type 0} → Sql (Ending A) → Bool × World → Result A × World
begin body (true, w) = (err unavailable, w)
begin body (false, w) = finish w.db (body w)

-- `tx, err := pool.Begin(); defer tx.Rollback()`, the body, and its `tx.Commit()`
unfoldable pub transaction : {A : Type 0} → Sql (Ending A) → Sql A
transaction body w = begin body (answer w)
