-- ===== src/Store/Statements.antt =====
-- internal/store: what holds of a call of the driver, whether it fails or not.
use local_ai_proxy.Prelude.{◌≡◌, refl, Bool, List, [], ◌∷◌, inl, inr, ◌⊎◌, Bool-cases}
use local_ai_proxy.Store.Sql.{Result, ok, err, Db, World, Sql, continue, answer, statement}

pub faults_cases :
    (fs : List Bool) → (fs ≡ []) ⊎ ((f : Bool) × (rest : List Bool) × (fs ≡ f ∷ rest))
faults_cases [] = inl refl
faults_cases (f ∷ fs) = inr (f, fs, refl)

-- A statement keeps what its function on the tables keeps.
pub statement-keeps :
    {A : Type 0} (P : Db → Type 0) (q : Db → Result A × Db) (w : World)
    → P w.db
    → P (q w.db).1
    → P (statement q w).1.db
unfolding statement answer
statement-keeps P q w h k = elim (faults_cases w.faults) [
  | inl e ↦ rw (statement, answer, e) k
  | inr (f, fs, e) ↦ elim (Bool-cases f) [
    | inl b ↦ rw (statement, answer, e, b) h
    | inr b ↦ rw (statement, answer, e, b) k
  ]
]

pub continue-keeps :
    {A B : Type 0} (P : Db → Type 0) (f : A → Sql B) (r : Result A × World)
    → P r.1.db
    → ((x : A) (w : World) → P w.db → P (f x w).1.db)
    → P (continue f r).1.db
continue-keeps P f (ok x, w) h k = k x w h
continue-keeps P f (err e, w) h k = h

-- A statement answers what its function on the tables does, or fails and leaves them.
pub statement-answers :
    {A : Type 0} (q : Db → Result A × Db) (w : World) (x : A)
    → (statement q w).0 ≡ ok x
    → ((q w.db).0 ≡ ok x) × ((statement q w).1.db ≡ (q w.db).1)
unfolding statement answer
statement-answers q w x h = elim (faults_cases w.faults) [
  | inl e ↦ (let a = h in rw (statement, answer, e) at a, rw (statement, answer, e) refl)
  | inr (f, fs, e) ↦ elim (Bool-cases f) [
    | inl b ↦ absurd (let a = h in cc (rw (statement, answer, e, b) at a))
    | inr b ↦ (let a = h in rw (statement, answer, e, b) at a, rw (statement, answer, e, b) refl)
  ]
]
