-- ===== src/Store/Ledger/Books.antt =====
-- The books of internal/store/credits.go: what is reserved is what the pending holds ask for, and
-- the audit trail explains every balance.
use local_ai_proxy.Prelude.{
  ℕ, ◌+◌, ◌<◌, ◌≤◌, ◌≡◌, refl, sym, Bool, true, false, ◌&&◌, Option, none, some, List, [], ◌∷◌,
  arith, if◌then◌else◌, ℕ_key, ◌==◌, eq_key, eq_self, Bool-cases, inl, inr,
}
use local_ai_proxy.Prelude.Int.{ℤ, pos, ◌+ℤ◌, ◌-ℤ◌, ◌≤ℤ◌, int_laws}
use local_ai_proxy.Prelude.Dict.{Dict, lookup, insert, lookup-insert, IsUnique, insert-IsUnique}
use local_ai_proxy.Prelude.Rows.{weigh, weigh-insert}
use local_ai_proxy.Store.Amounts.{
  Amount, IsNatural, IsWithin, slack, column-IsNatural, plus-column, plus-IsWithin, minus-IsWithin,
}
use local_ai_proxy.Store.Sql.{
  Result, ok, err, Balance, HoldStatus, pending, settled, released, Hold, Transaction,
  TransactionType, grant, usage, monthly_allowance, Db, World,
}
use local_ai_proxy.Store.Ledger.{
  is_pending, add_credits, reserve_credits, settle_hold, release_hold,
}
use local_ai_proxy.Store.Ledger.Outcomes.{
  IsUnchanged, row, no_balance, new_hold, closed, open_hold, reserved_db, credited, settled_db,
  released_db, Reserves, reserve_credits-Reserves, Adds, add_credits-Adds, SettlesAs, Settles,
  settle_hold-Settles, ReleasesAs, Releases, release_hold-Releases,
}

-- What a hold keeps back from an account.
abbrev pub kept_for : ℕ → Hold → ℤ
kept_for a h = if is_pending h.status && (h.account_id == a) then h.amount else pos 0

abbrev pub applied : TransactionType → ℤ → ℤ → ℤ
applied grant amount before = before +ℤ amount
applied usage amount before = before +ℤ amount
applied monthly_allowance amount before = amount

-- The balance that the newest transaction of an account records.
abbrev pub latest : ℕ → List Transaction → ℤ
latest a [] = pos 0
latest a (t ∷ ts) = let rest = latest a ts in if t.account_id == a then t.balance_after else rest

-- Every transaction records the balance of the one before, with its amount applied, up to n units.
abbrev pub Records : ℕ → List Transaction → Type 0
Records n [] = Unit
Records n (t ∷ ts) =
    IsWithin n t.balance_after (applied t.kind t.amount (latest t.account_id ts)) × Records n ts

abbrev pub has_row : ℕ → Dict ℕ Balance → Bool
has_row a balances = elim (lookup a balances) [ none ↦ false | some b ↦ true ]

-- A settlement or a grant of an amount that has half a unit may be one unit away from its entry.
pub record Books (n : ℕ) (db : Db) : Type 0 where
  pub unique : IsUnique db.holds
  pub owned :
      (id : ℕ) (h : Hold) → lookup id db.holds ≡ some h → has_row h.account_id db.balances ≡ true
  pub sizes : (id : ℕ) (h : Hold) → lookup id db.holds ≡ some h → pos 0 ≤ℤ h.amount
  pub reserve : (a : ℕ) → (row a db).reserved ≡ weigh (kept_for a) db.holds
  pub fresh : (id : ℕ) → db.hold_seq < id → lookup id db.holds ≡ none
  pub audit : (a : ℕ) → (row a db).balance ≡ latest a db.transactions
  pub trail : Records n db.transactions

Books-unchanged :
    (n : ℕ) (before after : Db) → IsUnchanged before after → Books n before → Books n after
Books-unchanged n before after u b = record {
  unique = rw u.holds b.unique;
  owned = λ id h e. rw u.balances (b.owned id h (rw u.holds at e));
  sizes = λ id h e. b.sizes id h (rw u.holds at e);
  reserve = λ a. rw (u.balances, u.holds) (b.reserve a);
  fresh = λ id h. rw u.holds (b.fresh id (omega (arith, u.hold_seq)));
  audit = λ a. rw (u.balances, u.transactions) (b.audit a);
  trail = rw u.transactions b.trail;
}

pub row-insert :
    (a j : ℕ) (b : Balance) (m : Dict ℕ Balance)
    → (elim (lookup j (insert a b m)) [ none ↦ no_balance | some x ↦ x ])
      ≡ (if a == j then b else elim (lookup j m) [ none ↦ no_balance | some x ↦ x ])
row-insert a j b m = rw lookup-insert (ground arith)

pub has_row-insert :
    (a j : ℕ) (b : Balance) (m : Dict ℕ Balance)
    → has_row j m ≡ true
    → has_row j (insert a b m) ≡ true
has_row-insert a j b m h = ground (arith, lookup-insert a j b m)

has_row-some :
    (a : ℕ) (db : Db) → lookup a db.balances ≡ some (row a db) → has_row a db.balances ≡ true
has_row-some a db e = ground arith

widen : (m n : ℕ) (x y : ℤ) → m ≤ n → IsWithin m x y → IsWithin n x y
widen m n x y h (p, q) = (omega int_laws, omega int_laws)

-- Rows that keep back nothing negative sum to nothing negative.
weigh-IsNatural :
    (a : ℕ) (m : Dict ℕ Hold)
    → IsUnique m
    → ((id : ℕ) (h : Hold) → lookup id m ≡ some h → pos 0 ≤ℤ h.amount)
    → pos 0 ≤ℤ weigh (kept_for a) m
unfolding weigh lookup
weigh-IsNatural a [] u s = omega arith
weigh-IsNatural a ((k, h) ∷ m) u s =
    let rest : pos 0 ≤ℤ weigh (kept_for a) m =
      weigh-IsNatural a m u.1 (λ id x e. s id x (later id x e)) in
    let own : pos 0 ≤ℤ kept_for a h = kept (s k h first) in omega int_laws
  where
    first : lookup k ((k, h) ∷ m) ≡ some h
    first = rw (lookup, eq_self k) refl

    later : (id : ℕ) (x : Hold) → lookup id m ≡ some x → lookup id ((k, h) ∷ m) ≡ some x
    later id x e = ground (arith, u.0, eq_key k id)

    kept : pos 0 ≤ℤ h.amount → pos 0 ≤ℤ kept_for a h
    kept p = ground arith

reserved-IsNatural : (n a : ℕ) (db : Db) → Books n db → pos 0 ≤ℤ (row a db).reserved
reserved-IsNatural n a db b = rw (b.reserve a) (weigh-IsNatural a db.holds b.unique b.sizes)

credited-Books :
    (n a : ℕ) (amount : Amount) (db : Db)
    → slack amount ≤ n
    → Books n db
    → Books n (credited a amount db)
credited-Books n a amount db fits b = record {
  unique = b.unique;
  owned = λ id h e. has_row-insert a h.account_id _ db.balances (b.owned id h e);
  sizes = b.sizes;
  reserve = λ j. rw row-insert (ground (arith, b.reserve j, eq_key a j));
  fresh = b.fresh;
  audit = λ j. rw row-insert (ground (arith, b.audit j, eq_key a j));
  trail = (
    rw (sym (b.audit a))
        (widen (slack amount) n _ _ fits (plus-IsWithin (row a db).balance amount)),
    b.trail,
  );
}

reserved_db-Books :
    (n a now : ℕ) (amount : Amount) (db : Db)
    → lookup a db.balances ≡ some (row a db)
    → IsNatural amount
    → Books n db
    → Books n (reserved_db a amount now db)
reserved_db-Books n a now amount db own natural b = record {
  unique = insert-IsUnique (db.hold_seq + 1) (new_hold a amount now) db.holds b.unique;
  owned = λ id h e. has_row-insert a h.account_id _ db.balances (
      ground (
        arith,
        b.owned id h,
        lookup-insert (db.hold_seq + 1) id (new_hold a amount now) db.holds,
        has_row-some a db own,
      ));
  sizes = λ id h e. ground (
    arith,
    b.sizes id h,
    lookup-insert (db.hold_seq + 1) id (new_hold a amount now) db.holds,
    column-IsNatural amount natural,
  );
  reserve = λ j.
      rw (row-insert, weigh-insert, b.fresh (db.hold_seq + 1) (omega arith))
        (elim (Bool-cases (a == j)) [
          | inl own ↦
              rw (own, plus-column (row a db).reserved amount (reserved-IsNatural n a db b) natural)
                (rw ((eq_key a j).0 own) (rw (b.reserve j) (omega int_laws)))
          | inr other ↦ rw other (rw (b.reserve j) (omega int_laws))
        ]);
  fresh = λ id h. rw lookup-insert (ground (arith, b.fresh id, eq_key (db.hold_seq + 1) id));
  audit = λ j. rw row-insert (ground (arith, b.audit j, eq_key a j));
  trail = b.trail;
}

pub open_hold-lookup :
    (id : ℕ) (db : Db) (h : Hold)
    → open_hold id db ≡ some h
    → (lookup id db.holds ≡ some h) × (h.status ≡ pending)
open_hold-lookup id db h e = ground arith

-- The hold that is closed was pending, and is counted no more.
closed-kept :
    (a now : ℕ) (h : Hold) (status : HoldStatus)
    → is_pending status ≡ false
    → kept_for a (closed h status now) ≡ pos 0
closed-kept a now h status e = rw e

open-kept :
    (a : ℕ) (h : Hold)
    → h.status ≡ pending
    → kept_for a h ≡ (if h.account_id == a then h.amount else pos 0)
open-kept a h e = rw e

closed-owned :
    (n id now : ℕ) (h : Hold) (status : HoldStatus) (db : Db)
    → lookup id db.holds ≡ some h
    → Books n db
    → (i : ℕ) (x : Hold) → lookup i (insert id (closed h status now) db.holds) ≡ some x
    → has_row x.account_id db.balances ≡ true
closed-owned n id now h status db was b i x e =
    ground (arith, b.owned i x, b.owned id h was, lookup-insert id i (closed h status now) db.holds)

closed-sizes :
    (n id now : ℕ) (h : Hold) (status : HoldStatus) (db : Db)
    → lookup id db.holds ≡ some h
    → Books n db
    → (i : ℕ) (x : Hold) → lookup i (insert id (closed h status now) db.holds) ≡ some x
    → pos 0 ≤ℤ x.amount
closed-sizes n id now h status db was b i x e =
    ground (arith, b.sizes i x, b.sizes id h was, lookup-insert id i (closed h status now) db.holds)

settled_db-Books :
    (n id now : ℕ) (actual : Amount) (h : Hold) (db : Db)
    → open_hold id db ≡ some h
    → slack actual ≤ n
    → Books n db
    → Books n (settled_db id actual h now db)
settled_db-Books n id now actual h db o fits b =
    let was = open_hold-lookup id db h o in
    record {
      unique = insert-IsUnique id (closed h settled now) db.holds b.unique;
      owned = λ i x e.
          has_row-insert h.account_id x.account_id _ db.balances
            (closed-owned n id now h settled db was.0 b i x e);
      sizes = closed-sizes n id now h settled db was.0 b;
      reserve = λ j.
          rw (row-insert, weigh-insert, was.0)
            (elim (Bool-cases (h.account_id == j)) [
              | inl own ↦
                  let counted = rw own at (open-kept j h was.1) in
                  rw own (
                    rw (counted, (eq_key h.account_id j).0 own) (rw (b.reserve j) (omega int_laws)))
              | inr other ↦
                  let counted = rw other at (open-kept j h was.1) in
                  rw other (rw counted (rw (b.reserve j) (omega int_laws)))
            ]);
      fresh = λ i p. rw lookup-insert (ground (arith, b.fresh i, eq_key id i, was));
      audit = λ j. rw row-insert (ground (arith, b.audit j, eq_key h.account_id j));
      trail = (
        rw (sym (b.audit h.account_id))
            (widen (slack actual) n _ _ fits (minus-IsWithin (row h.account_id db).balance actual)),
        b.trail,
      );
    }

-- A hold's account has a row, so a release gives back what was kept for it.
released_row :
    (id now : ℕ) (h : Hold) (db : Db)
    → has_row h.account_id db.balances ≡ true
    → (released_db id h now db).balances
      ≡ insert h.account_id
          (record (row h.account_id db) { reserved = (row h.account_id db).reserved -ℤ h.amount })
          db.balances
released_row id now h db e = ground arith

released_db-Books :
    (n id now : ℕ) (h : Hold) (db : Db)
    → open_hold id db ≡ some h
    → Books n db
    → Books n (released_db id h now db)
released_db-Books n id now h db o b =
    let was = open_hold-lookup id db h o in
    let after = released_row id now h db (b.owned id h was.0) in
    record {
      unique = insert-IsUnique id (closed h released now) db.holds b.unique;
      owned = λ i x e. rw after (
          has_row-insert h.account_id x.account_id _ db.balances
            (closed-owned n id now h released db was.0 b i x e));
      sizes = closed-sizes n id now h released db was.0 b;
      reserve = λ j.
          rw (after, row-insert, weigh-insert, was.0)
            (elim (Bool-cases (h.account_id == j)) [
              | inl own ↦
                  let counted = rw own at (open-kept j h was.1) in
                  rw own (
                    rw (counted, (eq_key h.account_id j).0 own) (rw (b.reserve j) (omega int_laws)))
              | inr other ↦
                  let counted = rw other at (open-kept j h was.1) in
                  rw other (rw counted (rw (b.reserve j) (omega int_laws)))
            ]);
      fresh = λ i p. rw lookup-insert (ground (arith, b.fresh i, eq_key id i, was));
      audit = λ j. rw (after, row-insert) (ground (arith, b.audit j, eq_key h.account_id j));
      trail = b.trail;
    }

-- The books stay in order under every method, whatever calls of the driver fail on the way.
pub add_credits-Books :
    (n a : ℕ) (amount : Amount) (w : World)
    → slack amount ≤ n
    → Books n w.db
    → Books n (add_credits a amount w).1.db
add_credits-Books n a amount w fits b = kept (add_credits a amount w) (add_credits-Adds a amount w)
  where
    kept : (r : Result (Unit {0}) × World) → Adds a amount w.db r → Books n r.1.db
    kept (err e, w') u = Books-unchanged n w.db w'.db u b
    kept (ok t, w') u = rw u.1 (credited-Books n a amount w.db fits b)

pub reserve_credits-Books :
    (n a : ℕ) (amount : Amount) (w : World)
    → IsNatural amount
    → Books n w.db
    → Books n (reserve_credits a amount w).1.db
reserve_credits-Books n a amount w natural b =
    kept (reserve_credits a amount w) (reserve_credits-Reserves a amount w)
  where
    kept : (r : Result ℕ × World) → Reserves a amount w.db w.now r → Books n r.1.db
    kept (err e, w') u = Books-unchanged n w.db w'.db u b
    kept (ok id, w') u = rw u.3 (reserved_db-Books n a w.now amount w.db u.0 natural b)

SettlesAs-Books :
    (n id : ℕ) (actual charged : Amount) (o : Option Hold) (now : ℕ) (db after : Db)
    → open_hold id db ≡ o
    → SettlesAs id actual o db now charged after
    → slack actual ≤ n
    → Books n db
    → Books n after
SettlesAs-Books n id actual charged none now db after e u fits b = Books-unchanged n db after u.1 b
SettlesAs-Books n id actual charged (some h) now db after e u fits b =
    rw u.2 (settled_db-Books n id now actual h db e fits b)

pub settle_hold-Books :
    (n id : ℕ) (actual : Amount) (w : World)
    → slack actual ≤ n
    → Books n w.db
    → Books n (settle_hold id actual w).1.db
settle_hold-Books n id actual w fits b =
    kept (settle_hold id actual w) (settle_hold-Settles id actual w)
  where
    kept : (r : Result Amount × World) → Settles id actual w.db w.now r → Books n r.1.db
    kept (err e, w') u = Books-unchanged n w.db w'.db u b
    kept (ok c, w') u = SettlesAs-Books n id actual c _ w.now w.db w'.db refl u fits b

ReleasesAs-Books :
    (n id : ℕ) (o : Option Hold) (now : ℕ) (db after : Db)
    → open_hold id db ≡ o
    → ReleasesAs id o db now after
    → Books n db
    → Books n after
ReleasesAs-Books n id none now db after e u b = Books-unchanged n db after u b
ReleasesAs-Books n id (some h) now db after e u b = rw u (released_db-Books n id now h db e b)

pub release_hold-Books : (n id : ℕ) (w : World) → Books n w.db → Books n (release_hold id w).1.db
release_hold-Books n id w b = kept (release_hold id w) (release_hold-Releases id w)
  where
    kept : (r : Result (Unit {0}) × World) → Releases id w.db w.now r → Books n r.1.db
    kept (err e, w') u = Books-unchanged n w.db w'.db u b
    kept (ok t, w') u = ReleasesAs-Books n id _ w.now w.db w'.db refl u b
