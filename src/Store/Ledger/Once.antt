-- ===== src/Store/Ledger/Once.antt =====
-- SettleHold, ReleaseHold and the sweeper of internal/store/credits.go compete for a hold: the
-- first to close it wins, and nothing that happens later charges it again.
use local_ai_proxy.Prelude.{
  ℕ, ◌+◌, ◌≤◌, ◌≡◌, refl, Bool, false, not, Option, none, some, List, [], ◌∷◌, arith, if◌then◌else◌,
  ℕ_key, ◌==◌, eq_key, eq_self,
}
use local_ai_proxy.Store.Amounts.{Amount, no_amount}
use local_ai_proxy.Prelude.Dict.{insert, lookup-insert}
use local_ai_proxy.Prelude.Rows.{lookup-keep_rows}
use local_ai_proxy.Store.Sql.{
  Result, ok, err, Hold, HoldStatus, settled, released, Db, World, answer, statement,
}
use local_ai_proxy.Store.Ledger.{
  is_pending, is_old, add_credits, reserve_credits, settle_hold, release_hold,
  cleanup_settled_holds,
}
use local_ai_proxy.Store.Ledger.Outcomes.{
  IsUnchanged, open_hold, closed, new_hold, reserved_db, Reserves, reserve_credits-Reserves, Adds,
  add_credits-Adds, SettlesAs, Settles, settle_hold-Settles, ReleasesAs, Releases,
  release_hold-Releases,
}
use local_ai_proxy.Store.Ledger.Ids.{HasHoldIds, perform-HasHoldIds}
use local_ai_proxy.Store.Ledger.Histories.{
  Call, adds, reserves, settles, releases, sweeps, cleans, perform, run, sweep-keeps,
}

-- The id has been handed out, and its hold is no longer pending.
pub record IsClosed (id : ℕ) (db : Db) : Type 0 where
  pub shut : open_hold id db ≡ none
  pub issued : id ≤ db.hold_seq

unchanged-IsClosed :
    (id : ℕ) (before after : Db) → IsUnchanged before after → IsClosed id before → IsClosed id after
unchanged-IsClosed id before after u c = record {
  shut = rw u.holds c.shut;
  issued = omega (arith, u.hold_seq, c.issued);
}

open-insert :
    (i id now : ℕ) (h : Hold) (status : HoldStatus) (db : Db)
    → is_pending status ≡ false
    → open_hold id (record db { holds = insert i (closed h status now) db.holds })
      ≡ (if i == id then none else open_hold id db)
open-insert i id now h status db e =
    ground (arith, lookup-insert i id (closed h status now) db.holds)

reserved-IsClosed :
    (a now id : ℕ) (x : Amount) (db : Db) → IsClosed id db → IsClosed id (reserved_db a x now db)
reserved-IsClosed a now id x db c = record {
  shut = ground (
    arith,
    c.shut,
    c.issued,
    lookup-insert (db.hold_seq + 1) id (new_hold a x now) db.holds,
    eq_key (db.hold_seq + 1) id,
  );
  issued = omega (arith, c.issued);
}

SettlesAs-IsClosed :
    (i id now : ℕ) (x charged : Amount) (o : Option Hold) (db after : Db)
    → SettlesAs i x o db now charged after
    → IsClosed id db
    → IsClosed id after
SettlesAs-IsClosed i id now x charged none db after u c = unchanged-IsClosed id db after u.1 c
SettlesAs-IsClosed i id now x charged (some h) db after u c = rw u.2 (record {
  shut = ground (arith, c.shut, open-insert i id now h settled db refl);
  issued = c.issued;
})

ReleasesAs-IsClosed :
    (i id now : ℕ) (o : Option Hold) (db after : Db)
    → ReleasesAs i o db now after
    → IsClosed id db
    → IsClosed id after
ReleasesAs-IsClosed i id now none db after u c = unchanged-IsClosed id db after u c
ReleasesAs-IsClosed i id now (some h) db after u c = rw u (record {
  shut = ground (arith, c.shut, open-insert i id now h released db refl);
  issued = c.issued;
})

added-IsClosed :
    (a id : ℕ) (x : Amount) (db : Db) (r : Result (Unit {0}) × World)
    → Adds a x db r
    → IsClosed id db
    → IsClosed id r.1.db
added-IsClosed a id x db (err e, w) u c = unchanged-IsClosed id db w.db u c
added-IsClosed a id x db (ok t, w) u c = rw u.1 (record { shut = c.shut; issued = c.issued })

Reserves-IsClosed :
    (a id now : ℕ) (x : Amount) (db : Db) (r : Result ℕ × World)
    → Reserves a x db now r
    → IsClosed id db
    → IsClosed id r.1.db
Reserves-IsClosed a id now x db (err e, w) u c = unchanged-IsClosed id db w.db u c
Reserves-IsClosed a id now x db (ok i, w) u c = rw u.3 (reserved-IsClosed a now id x db c)

Settles-IsClosed :
    (i id now : ℕ) (x : Amount) (db : Db) (r : Result Amount × World)
    → Settles i x db now r
    → IsClosed id db
    → IsClosed id r.1.db
Settles-IsClosed i id now x db (err e, w) u c = unchanged-IsClosed id db w.db u c
Settles-IsClosed i id now x db (ok d, w) u c =
    SettlesAs-IsClosed i id now x d (open_hold i db) db w.db u c

Releases-IsClosed :
    (i id now : ℕ) (db : Db) (r : Result (Unit {0}) × World)
    → Releases i db now r
    → IsClosed id db
    → IsClosed id r.1.db
Releases-IsClosed i id now db (err e, w) u c = unchanged-IsClosed id db w.db u c
Releases-IsClosed i id now db (ok t, w) u c =
    ReleasesAs-IsClosed i id now (open_hold i db) db w.db u c

release-IsClosed : (id i : ℕ) (w : World) → IsClosed id w.db → IsClosed id (release_hold i w).1.db
release-IsClosed id i w c =
    Releases-IsClosed i id w.now w.db (release_hold i w) (release_hold-Releases i w) c

cleanup-IsClosed :
    (id older_than : ℕ) (w : World)
    → HasHoldIds w.db
    → IsClosed id w.db
    → IsClosed id (cleanup_settled_holds older_than w).1.db
unfolding cleanup_settled_holds statement answer
cleanup-IsClosed id older_than w b c = record {
  shut = ground (
    arith,
    c.shut,
    lookup-keep_rows (λ (h : Hold). not (is_old w.now older_than h)) id w.db.holds b,
  );
  issued = ground (arith, c.issued);
}

perform-IsClosed :
    (c : Call) (id : ℕ) (w : World)
    → HasHoldIds w.db
    → IsClosed id w.db
    → IsClosed id (perform c w).db
unfolding perform
perform-IsClosed (adds a x) id w b c =
    added-IsClosed a id x w.db (add_credits a x w) (add_credits-Adds a x w) c
perform-IsClosed (reserves a x) id w b c =
    Reserves-IsClosed a id w.now x w.db (reserve_credits a x w) (reserve_credits-Reserves a x w) c
perform-IsClosed (settles i x) id w b c =
    Settles-IsClosed i id w.now x w.db (settle_hold i x w) (settle_hold-Settles i x w) c
perform-IsClosed (releases i) id w b c =
    Releases-IsClosed i id w.now w.db (release_hold i w) (release_hold-Releases i w) c
perform-IsClosed (sweeps older_than) id w b c =
    sweep-keeps (IsClosed id) (release-IsClosed id) older_than w c
perform-IsClosed (cleans older_than) id w b c = cleanup-IsClosed id older_than w b c

run-IsClosed :
    (cs : List (Call × ℕ × List Bool)) (id : ℕ) (db : Db)
    → HasHoldIds db
    → IsClosed id db
    → IsClosed id (run cs db)
unfolding run
run-IsClosed [] id db b c = c
run-IsClosed ((x, now, faults) ∷ cs) id db b c =
    run-IsClosed cs id _ (perform-HasHoldIds x _ b) (perform-IsClosed x id _ b c)

-- A settlement or a release that returns without an error has closed the hold.
settled-IsClosed :
    (id now : ℕ) (x : Amount) (d : Amount) (db : Db) (r : Result Amount × World)
    → Settles id x db now r
    → r.0 ≡ ok d
    → id ≤ db.hold_seq
    → IsClosed id r.1.db
settled-IsClosed id now x d db (err e, w) u h p = absurd (cc)
settled-IsClosed id now x d db (ok c, w) u h p = done (open_hold id db) refl u
  where
    done :
        (o : Option Hold) → open_hold id db ≡ o → SettlesAs id x o db now c w.db → IsClosed id w.db
    done none e v = unchanged-IsClosed id db w.db v.1 (record { shut = e; issued = p })
    done (some g) e v = rw v.2 (record {
      shut = ground (arith, open-insert id id now g settled db refl, eq_self id);
      issued = p;
    })

uncharged :
    (id now : ℕ) (x d : Amount) (db : Db) (r : Result Amount × World)
    → Settles id x db now r
    → r.0 ≡ ok d
    → IsClosed id db
    → (d ≡ no_amount) × IsUnchanged db r.1.db
uncharged id now x d db (err e, w) u h c = absurd (cc)
uncharged id now x d db (ok d', w) u h c =
    let none_found : SettlesAs id x none db now d' w.db = rw c.shut at u in
    (ground (arith, none_found.0), none_found.1)

-- A hold is charged at most once: after a settlement that went through, and whatever calls come in
-- between, another settlement of it charges nothing and changes no table.
pub settle_once :
    (id : ℕ) (x y c d : Amount) (w v : World) (cs : List (Call × ℕ × List Bool))
    → HasHoldIds w.db
    → id ≤ w.db.hold_seq
    → (settle_hold id x w).0 ≡ ok c
    → v.db ≡ run cs (settle_hold id x w).1.db
    → (settle_hold id y v).0 ≡ ok d
    → (d ≡ no_amount) × IsUnchanged v.db (settle_hold id y v).1.db
unfolding perform
settle_once id x y c d w v cs b p h e k =
    let first = settle_hold-Settles id x w in
    let shut = settled-IsClosed id w.now x c w.db (settle_hold id x w) first h p in
    let still =
      run-IsClosed cs id (settle_hold id x w).1.db (perform-HasHoldIds (settles id x) w b) shut in
    uncharged id v.now y d v.db (settle_hold id y v) (settle_hold-Settles id y v) k
      (rw (← e) at still)
