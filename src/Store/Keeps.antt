-- ===== src/Store/Keeps.antt =====
-- internal/store: what every step of a Go method keeps, the method keeps, on errors too.
use local_ai_proxy.Prelude.{sym, subst, Bool, true, false, inl, inr}
use local_ai_proxy.Store.Sql.{
  Error, Result, ok, err, Db, World, Sql, ◌>>=◌, pure, require, clock, statement, Ending, commits,
  abandons, rollback, commit, finish, transaction, answer,
}
use local_ai_proxy.Store.Statements.{statement-keeps, continue-keeps}
use local_ai_proxy.Store.Leads.{answer_cases, Holds, Leads}

pub record Keeps {A : Type 0} (P : Db → Type 0) (m : Sql A) : Type 0 where
  pub run : (w : World) → P w.db → P (m w).1.db

module _ {A : Type 0} {P : Db → Type 0} where
  pub statement-Keeps :
      (q : Db → Result A × Db) → ((db : Db) → P db → P (q db).1) → Keeps P (statement q)
  statement-Keeps q h = record { run = λ w p. statement-keeps P q w p (h w.db p) }

  pub pure-Keeps : (x : A) → Keeps P (pure x)
  unfolding pure
  pure-Keeps x = record { run = λ w p. p }

  pub bind-Keeps :
      {B : Type 0} {m : Sql B} {f : B → Sql A}
      → Keeps P m
      → ((x : B) → Keeps P (f x))
      → Keeps P (m >>= f)
  unfolding ◌>>=◌
  bind-Keeps {m} {f} h k = record {
    run = λ w p. continue-keeps P f (m w) (h.run w p) (λ x v q. (k x).run v q);
  }

pub require-Keeps : {P : Db → Type 0} (b : Bool) (e : Error) → Keeps P (require b e)
unfolding require
require-Keeps true e = record { run = λ w p. p }
require-Keeps false e = record { run = λ w p. p }

pub clock-Keeps : {P : Db → Type 0} → Keeps P clock
unfolding clock
clock-Keeps = record { run = λ w p. p }

-- A transaction, if what is kept does not speak of the sequences.
module _ {A : Type 0} {P : Db → Type 0}
    (stable : (before after : Db) → P before → P (rollback before after)) where
  commit-Keeps :
      (before : Db) (a : A) (w : World) → P before → P w.db → P (commit a before (answer w)).1.db
  commit-Keeps before a w p q = elim (answer_cases w) [
    | inl (v, e, same) ↦ rw e (stable before v.db p)
    | inr (v, e, same) ↦ rw (e, same) q
  ]

  finish-Keeps :
      (before : Db) (r : Result (Ending A) × World) → P before → P r.1.db → P (finish before r).1.db
  finish-Keeps before (ok (commits a), w) p q = commit-Keeps before a w p q
  finish-Keeps before (ok (abandons a), w) p q = stable before w.db p
  finish-Keeps before (err e, w) p q = stable before w.db p

  pub transaction-Keeps : {body : Sql (Ending A)} → Keeps P body → Keeps P (transaction body)
  unfolding transaction
  transaction-Keeps {body} h = record {
    run = λ w p. elim (answer_cases w) [
      | inl (v, e, same) ↦ rw (transaction, e) (subst P (sym same) p)
      | inr (v, e, same) ↦
          let q : P v.db = subst P (sym same) p in
          rw (transaction, e) (finish-Keeps v.db (body v) q (h.run v q))
    ];
  }

-- A method that keeps P, seen as one that leads from P to P.
pub Keeps-Leads : {A : Type 0} {P : Db → Type 0} {m : Sql A} → Keeps P m → Leads P m (λ x. P)
Keeps-Leads {A} {P} {m} h = record { run = λ w p. held (m w) (h.run w p) }
  where
    held : (r : Result A × World) → P r.1.db → Holds (λ x. P) r.0 r.1.db
    held (ok x, w) p = p
    held (err e, w) p = tt

-- A transaction keeps P if its body leads from P to P: an error rolls it back.
module _ {A : Type 0} {P : Db → Type 0}
    (stable : (before after : Db) → P before → P (rollback before after)) where
  finish-Kept :
      (before : Db) (r : Result (Ending A) × World)
      → P before
      → Holds (λ x. P) r.0 r.1.db
      → P (finish before r).1.db
  finish-Kept before (ok x, w) p q = finish-Keeps stable before (ok x, w) p q
  finish-Kept before (err e, w) p q = stable before w.db p

  pub transaction-Kept :
      {body : Sql (Ending A)} → Leads P body (λ x. P) → Keeps P (transaction body)
  unfolding transaction
  transaction-Kept {body} h = record {
    run = λ w p. elim (answer_cases w) [
      | inl (v, e, same) ↦ rw (transaction, e) (subst P (sym same) p)
      | inr (v, e, same) ↦
          let q : P v.db = subst P (sym same) p in
          rw (transaction, e) (finish-Kept v.db (body v) q (h.run v q))
    ];
  }
