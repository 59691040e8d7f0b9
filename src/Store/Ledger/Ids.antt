-- ===== src/Store/Ledger/Ids.antt =====
-- internal/store/credits.go: the ids of the holds stay different under every method.
use local_ai_proxy.Prelude.{ℕ, ◌+◌, sym, subst, Option, none, some, ℕ_key}
use local_ai_proxy.Prelude.Dict.{IsUnique, insert-IsUnique}
use local_ai_proxy.Prelude.Rows.{keep_rows-IsUnique}
use local_ai_proxy.Store.Amounts.{Amount}
use local_ai_proxy.Store.Sql.{Result, ok, err, Hold, settled, released, Db, World}
use local_ai_proxy.Store.Ledger.{add_credits, reserve_credits, settle_hold, release_hold}
use local_ai_proxy.Store.Ledger.Outcomes.{
  IsUnchanged, open_hold, closed, new_hold, Reserves, reserve_credits-Reserves, Adds,
  add_credits-Adds, SettlesAs, Settles, settle_hold-Settles, ReleasesAs, Releases,
  release_hold-Releases,
}
use local_ai_proxy.Store.Ledger.Histories.{
  Call, adds, reserves, settles, releases, sweeps, cleans, perform, sweep-keeps, cleanup-keeps,
}

abbrev pub HasHoldIds : Db → Type 0
HasHoldIds db = IsUnique db.holds

unchanged-HasHoldIds :
    (before after : Db) → IsUnchanged before after → HasHoldIds before → HasHoldIds after
unchanged-HasHoldIds before after u b = subst (λ m. IsUnique m) (sym u.holds) b

Adds-HasHoldIds :
    (a : ℕ) (x : Amount) (db : Db) (r : Result (Unit {0}) × World)
    → Adds a x db r
    → HasHoldIds db
    → HasHoldIds r.1.db
Adds-HasHoldIds a x db (err e, w) u b = unchanged-HasHoldIds db w.db u b
Adds-HasHoldIds a x db (ok t, w) u b = rw u.1 b

Reserves-HasHoldIds :
    (a now : ℕ) (x : Amount) (db : Db) (r : Result ℕ × World)
    → Reserves a x db now r
    → HasHoldIds db
    → HasHoldIds r.1.db
Reserves-HasHoldIds a now x db (err e, w) u b = unchanged-HasHoldIds db w.db u b
Reserves-HasHoldIds a now x db (ok id, w) u b =
    rw u.3 (insert-IsUnique (db.hold_seq + 1) (new_hold a x now) db.holds b)

SettlesAs-HasHoldIds :
    (id now : ℕ) (x charged : Amount) (o : Option Hold) (db after : Db)
    → SettlesAs id x o db now charged after
    → HasHoldIds db
    → HasHoldIds after
SettlesAs-HasHoldIds id now x charged none db after u b = unchanged-HasHoldIds db after u.1 b
SettlesAs-HasHoldIds id now x charged (some h) db after u b =
    rw u.2 (insert-IsUnique id (closed h settled now) db.holds b)

Settles-HasHoldIds :
    (id now : ℕ) (x : Amount) (db : Db) (r : Result Amount × World)
    → Settles id x db now r
    → HasHoldIds db
    → HasHoldIds r.1.db
Settles-HasHoldIds id now x db (err e, w) u b = unchanged-HasHoldIds db w.db u b
Settles-HasHoldIds id now x db (ok d, w) u b =
    SettlesAs-HasHoldIds id now x d (open_hold id db) db w.db u b

ReleasesAs-HasHoldIds :
    (id now : ℕ) (o : Option Hold) (db after : Db)
    → ReleasesAs id o db now after
    → HasHoldIds db
    → HasHoldIds after
ReleasesAs-HasHoldIds id now none db after u b = unchanged-HasHoldIds db after u b
ReleasesAs-HasHoldIds id now (some h) db after u b =
    rw u (insert-IsUnique id (closed h released now) db.holds b)

Releases-HasHoldIds :
    (id now : ℕ) (db : Db) (r : Result (Unit {0}) × World)
    → Releases id db now r
    → HasHoldIds db
    → HasHoldIds r.1.db
Releases-HasHoldIds id now db (err e, w) u b = unchanged-HasHoldIds db w.db u b
Releases-HasHoldIds id now db (ok t, w) u b =
    ReleasesAs-HasHoldIds id now (open_hold id db) db w.db u b

release_hold-HasHoldIds :
    (id : ℕ) (w : World) → HasHoldIds w.db → HasHoldIds (release_hold id w).1.db
release_hold-HasHoldIds id w b =
    Releases-HasHoldIds id w.now w.db (release_hold id w) (release_hold-Releases id w) b

pub perform-HasHoldIds : (c : Call) (w : World) → HasHoldIds w.db → HasHoldIds (perform c w).db
unfolding perform
perform-HasHoldIds (adds a x) w b =
    Adds-HasHoldIds a x w.db (add_credits a x w) (add_credits-Adds a x w) b
perform-HasHoldIds (reserves a x) w b =
    Reserves-HasHoldIds a w.now x w.db (reserve_credits a x w) (reserve_credits-Reserves a x w) b
perform-HasHoldIds (settles id x) w b =
    Settles-HasHoldIds id w.now x w.db (settle_hold id x w) (settle_hold-Settles id x w) b
perform-HasHoldIds (releases id) w b = release_hold-HasHoldIds id w b
perform-HasHoldIds (sweeps older_than) w b =
    sweep-keeps HasHoldIds release_hold-HasHoldIds older_than w b
perform-HasHoldIds (cleans older_than) w b =
    cleanup-keeps HasHoldIds older_than w (λ db h. keep_rows-IsUnique _ db.holds h) b
