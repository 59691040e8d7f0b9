-- ===== src/Store/Leads.antt =====
-- internal/store: a logic for the Go methods. `Leads P m Q` says of a call that begins with tables of
-- which P holds that its result and its tables satisfy Q if it answers no error. A transaction
-- whose body leads to C has committed that, or has left the tables from before.
use local_ai_proxy.Prelude.{◌≡◌, refl, sym, ap, ◌∙◌, Bool, true, false, inl, inr, ◌⊎◌, Bool-cases}
use local_ai_proxy.Store.Sql.{
  unavailable, Error, Result, ok, err, Db, World, Sql, continue, ◌>>=◌, pure, require, answer,
  statement, Ending, commits, abandons, rollback, commit, finish, transaction,
}
use local_ai_proxy.Store.Statements.{faults_cases}

answer-now : (w : World) → (answer w).1.now ≡ w.now
unfolding answer
answer-now w = elim (faults_cases w.faults) [
  | inl e ↦ simp (answer, e)
  | inr (f, fs, e) ↦ simp (answer, e)
]

abbrev pub Holds : {A : Type 0} → (A → Db → Type 0) → Result A → Db → Type 0
Holds Q (ok x) db = Q x db
Holds Q (err e) db = Unit

pub record Leads {A : Type 0} (P : Db → Type 0) (m : Sql A) (Q : A → Db → Type 0) : Type 0 where
  pub run : (w : World) → P w.db → Holds Q (m w).0 (m w).1.db

-- A call of the driver: it fails and leaves the tables, or it does not.
pub answer_cases :
    (w : World)
    → ((v : World) × (answer w ≡ (true, v)) × (v.db ≡ w.db))
      ⊎ ((v : World) × (answer w ≡ (false, v)) × (v.db ≡ w.db))
unfolding answer
answer_cases w = elim (faults_cases w.faults) [
  | inl e ↦ inr (w, simp (answer, e), refl)
  | inr (f, fs, e) ↦ elim (Bool-cases f) [
    | inl b ↦ inl (record w { faults = fs }, rw (answer, e, b) refl, refl)
    | inr b ↦ inr (record w { faults = fs }, rw (answer, e, b) refl, refl)
  ]
]

continue-Leads :
    {A B : Type 0} {Q : A → Db → Type 0} {R : B → Db → Type 0} (f : B → Sql A)
    (r : Result B × World)
    → Holds R r.0 r.1.db
    → ((x : B) → Leads (R x) (f x) Q)
    → Holds Q (continue f r).0 (continue f r).1.db
continue-Leads f (ok x, w) h k = (k x).run w h
continue-Leads f (err e, w) h k = tt

module _ {A : Type 0} {P : Db → Type 0} {Q : A → Db → Type 0} where
  pub statement-Leads :
      (q : Db → Result A × Db)
      → ((db : Db) → P db → Holds Q (q db).0 (q db).1)
      → Leads P (statement q) Q
  unfolding statement
  statement-Leads q h = record {
    run = λ w p. elim (answer_cases w) [
      | inl (v, e, same) ↦ rw (statement, e) tt
      | inr (v, e, same) ↦ rw (statement, e, same) (h w.db p)
    ];
  }

  pub pure-Leads : (x : A) → ((db : Db) → P db → Q x db) → Leads P (pure x) Q
  unfolding pure
  pure-Leads x h = record { run = λ w p. h w.db p }

  pub bind-Leads :
      {B : Type 0} {R : B → Db → Type 0} {m : Sql B} {f : B → Sql A}
      → Leads P m R
      → ((x : B) → Leads (R x) (f x) Q)
      → Leads P (m >>= f) Q
  unfolding ◌>>=◌
  bind-Leads {R} {m} {f} h k = record { run = λ w p. continue-Leads {R = R} f (m w) (h.run w p) k }

module _ {P : Db → Type 0} {Q : Unit {0} → Db → Type 0} where
  pub require-Leads :
      (b : Bool) (e : Error) → (b ≡ true → (db : Db) → P db → Q tt db) → Leads P (require b e) Q
  unfolding require
  require-Leads true e h = record { run = λ w p. h refl w.db p }
  require-Leads false e h = record { run = λ w p. tt }

-- How the body of a transaction ends, and then the transaction.
abbrev pub Ends : {A : Type 0} → (A → Db → Type 0) → (A → Type 0) → Ending A → Db → Type 0
Ends C D (commits a) db = C a db
Ends C D (abandons a) db = D a

abbrev pub IsRolledBack : Db → Db → Type 0
IsRolledBack before db = (after : Db) × (db ≡ rollback before after)

abbrev pub Finishes : {A : Type 0} → (A → Db → Type 0) → (A → Type 0) → Db → Result A → Db → Type 0
Finishes C D before (ok a) db = C a db ⊎ (D a × IsRolledBack before db)
Finishes C D before (err e) db = IsRolledBack before db

module _ {A : Type 0} (C : A → Db → Type 0) (D : A → Type 0) where
  commit-Finishes :
      (before : Db) (a : A) (w : World)
      → C a w.db
      → Finishes C D before (commit a before (answer w)).0 (commit a before (answer w)).1.db
  commit-Finishes before a w h = elim (answer_cases w) [
    | inl (v, e, same) ↦ rw e (v.db, refl)
    | inr (v, e, same) ↦ rw (e, same) (inl h)
  ]

  finish-Finishes :
      (before : Db) (r : Result (Ending A) × World)
      → Holds (Ends C D) r.0 r.1.db
      → Finishes C D before (finish before r).0 (finish before r).1.db
  finish-Finishes before (ok (commits a), w) h = commit-Finishes before a w h
  finish-Finishes before (ok (abandons a), w) h = inr (h, (w.db, refl))
  finish-Finishes before (err e, w) h = (w.db, refl)

  from_start :
      (before other : Db) (r : Result A × World)
      → before ≡ other
      → Finishes C D before r.0 r.1.db
      → Finishes C D other r.0 r.1.db
  from_start before other r e h = rw (sym e) h

  pub transaction-Finishes :
      (body : Sql (Ending A)) (w : World)
      → Leads (λ db. db ≡ w.db) body (Ends C D)
      → Finishes C D w.db (transaction body w).0 (transaction body w).1.db
  unfolding transaction rollback
  transaction-Finishes body w h = elim (answer_cases w) [
    | inl (v, e, same) ↦ rw (transaction, e, same) (w.db, refl)
    | inr (v, e, same) ↦
        rw (transaction, e)
          (from_start v.db w.db (finish v.db (body v)) same
            (finish-Finishes v.db (body v) (h.run v same)))
  ]

-- A statement fails and leaves the tables, or does what its function says; no time passes.
pub statement_cases :
    {A : Type 0} (q : Db → Result A × Db) (w : World)
    → (v : World) × (v.now ≡ w.now)
      × (((statement q w ≡ (err unavailable, v)) × (v.db ≡ w.db))
          ⊎ ((statement q w ≡ ((q w.db).0, v)) × (v.db ≡ (q w.db).1)))
unfolding statement
statement_cases q w = elim (answer_cases w) [
  | inl (v, e, same) ↦ (v, now_of w v true e, inl (rw (statement, e) refl, same))
  | inr (v, e, same) ↦
      (record v { db = (q w.db).1 }, now_of w v false e, inr (rw (statement, e, same) refl, refl))
]
  where
    now_of : (w v : World) (f : Bool) → answer w ≡ (f, v) → v.now ≡ w.now
    now_of w v f e = ap (λ r. r.1.now) (sym e) ∙ answer-now w
