-- ===== src/Store/Ledger/Histories.antt =====
-- Any sequence of the methods of internal/store/credits.go, each under any failures of the driver,
-- with the background sweeper of internal/credits/sweeper.go among them.
use local_ai_proxy.Prelude.{
  ℕ, ◌+◌, ◌≤◌, ◌≡◌, refl, Bool, true, false, not, Option, List, [], ◌∷◌, arith, ℕ_key,
}
use local_ai_proxy.Prelude.Int.{pos}
use local_ai_proxy.Prelude.Rows.{keep_rows, weigh-keep_rows, lookup-keep_rows, keep_rows-IsUnique}
use local_ai_proxy.Store.Amounts.{Amount, IsNatural, slack}
use local_ai_proxy.Store.Sql.{Error, Result, ok, err, Hold, Db, World, answer, statement}
use local_ai_proxy.Store.Ledger.{
  is_old, is_stale, ids_where, add_credits, reserve_credits, settle_hold, release_hold, then_rest,
  release_all, sweep_stale_holds, cleanup_settled_holds,
}
use local_ai_proxy.Store.Ledger.Books.{
  Books, kept_for, add_credits-Books, reserve_credits-Books, settle_hold-Books, release_hold-Books,
}

-- A loop of releases keeps what each of them keeps.
module _ (P : Db → Type 0)
    (keeps : (id : ℕ) (w : World) → P w.db → P (release_hold id w).1.db) where
  -- The rest of the loop runs on from the world that the release left.
  released_next :
      (rest : World → (ℕ × Option Error) × World) (n : ℕ) (r : Result (Unit {0}) × World)
      → ((v : World) → P v.db → P (rest v).1.db)
      → P r.1.db
      → P (then_rest rest n r).1.db
  released_next rest n (ok t, w) keep b = keep w b
  released_next rest n (err e, w) keep b = b

  release_all-keeps : (ids : List ℕ) (n : ℕ) (w : World) → P w.db → P (release_all ids n w).1.db
  unfolding release_all
  release_all-keeps [] n w b = b
  release_all-keeps (id ∷ ids) n w b =
      released_next (release_all ids (n + 1)) n (release_hold id w) (release_all-keeps ids (n + 1))
        (keeps id w b)

  pub sweep-keeps : (older_than : ℕ) (w : World) → P w.db → P (sweep_stale_holds older_than w).1.db
  unfolding sweep_stale_holds statement answer
  sweep-keeps older_than w b = swept w.faults refl
    where
      ids : List ℕ
      ids = ids_where (is_stale w.now older_than) w.db.holds

      swept : (fs : List Bool) → w.faults ≡ fs → P (sweep_stale_holds older_than w).1.db
      swept [] e = rw e (release_all-keeps ids 0 (record w { faults = [] }) b)
      swept (true ∷ fs) e = rw e b
      swept (false ∷ fs) e = rw e (release_all-keeps ids 0 (record w { faults = fs }) b)

-- A cleanup keeps what the deletion of old holds keeps.
pub cleanup-keeps :
    (P : Db → Type 0) (older_than : ℕ) (w : World)
    → ((db : Db)
        → P db
        → P (record db { holds = keep_rows (λ h. not (is_old w.now older_than h)) db.holds }))
    → P w.db
    → P (cleanup_settled_holds older_than w).1.db
unfolding cleanup_settled_holds statement answer
cleanup-keeps P older_than w drops b = cleaned w.faults refl
  where
    cleaned : (fs : List Bool) → w.faults ≡ fs → P (cleanup_settled_holds older_than w).1.db
    cleaned [] e = rw e (drops w.db b)
    cleaned (true ∷ fs) e = rw e b
    cleaned (false ∷ fs) e = rw e (drops w.db b)

-- Only holds that are no longer pending are deleted.
dropped :
    (a now older_than : ℕ) (h : Hold) → not (is_old now older_than h) ≡ false → kept_for a h ≡ pos 0
dropped a now older_than h e = ground arith

cleanup-kept :
    (n now older_than : ℕ) (db : Db)
    → Books n db
    → Books n (record db { holds = keep_rows (λ h. not (is_old now older_than h)) db.holds })
cleanup-kept n now older_than db b = record {
  unique = keep_rows-IsUnique _ db.holds b.unique;
  owned = λ id h e.
      let was = lookup-keep_rows (λ x. not (is_old now older_than x)) id db.holds b.unique in
      ground (arith, was, b.owned id h);
  sizes = λ id h e.
      let was = lookup-keep_rows (λ x. not (is_old now older_than x)) id db.holds b.unique in
      ground (arith, was, b.sizes id h);
  reserve = λ a.
      rw
        (weigh-keep_rows (kept_for a) (λ h. not (is_old now older_than h)) db.holds
          (dropped a now older_than))
        (b.reserve a);
  fresh = λ id h. rw (lookup-keep_rows _ id db.holds b.unique) (rw (b.fresh id h));
  audit = b.audit;
  trail = b.trail;
}

pub data Call : Type 0 where
  adds : ℕ → Amount → Call
  reserves : ℕ → Amount → Call
  settles : ℕ → Amount → Call
  releases sweeps cleans : ℕ → Call

-- A call at its time, under the failures that it meets.
unfoldable pub perform : Call → World → World
perform (adds a amount) w = (add_credits a amount w).1
perform (reserves a amount) w = (reserve_credits a amount w).1
perform (settles id actual) w = (settle_hold id actual w).1
perform (releases id) w = (release_hold id w).1
perform (sweeps older_than) w = (sweep_stale_holds older_than w).1
perform (cleans older_than) w = (cleanup_settled_holds older_than w).1

unfoldable pub run : List (Call × ℕ × List Bool) → Db → Db
run [] db = db
run ((c, now, faults) ∷ cs) db =
    run cs (perform c (record { db = db; now = now; faults = faults })).db

-- No amount is reserved that is negative, and where n is 0, none is granted or charged that has half
-- a unit.
abbrev pub Suits : ℕ → Call → Type 0
Suits n (adds a amount) = slack amount ≤ n
Suits n (reserves a amount) = IsNatural amount
Suits n (settles id actual) = slack actual ≤ n
Suits n (releases id) = Unit
Suits n (sweeps older_than) = Unit
Suits n (cleans older_than) = Unit

abbrev pub AllSuit : ℕ → List (Call × ℕ × List Bool) → Type 0
AllSuit n [] = Unit
AllSuit n ((c, now, faults) ∷ cs) = Suits n c × AllSuit n cs

pub perform-Books :
    (n : ℕ) (c : Call) (w : World) → Suits n c → Books n w.db → Books n (perform c w).db
unfolding perform
perform-Books n (adds a amount) w s b = add_credits-Books n a amount w s b
perform-Books n (reserves a amount) w s b = reserve_credits-Books n a amount w s b
perform-Books n (settles id actual) w s b = settle_hold-Books n id actual w s b
perform-Books n (releases id) w s b = release_hold-Books n id w b
perform-Books n (sweeps older_than) w s b =
    sweep-keeps (Books n) (release_hold-Books n) older_than w b
perform-Books n (cleans older_than) w s b =
    cleanup-keeps (Books n) older_than w (cleanup-kept n w.now older_than) b

-- If the books are in order, then after any calls of which none reserves a negative amount,
-- whichever calls of the driver failed, they are in order again: every account's reserved credits
-- are the sum of its pending holds, its balance is what the newest transaction of its audit trail
-- records, and every transaction records the balance of the one before with its amount applied, up
-- to n units of the last decimal. Here n is 0 if no amount that is granted or charged has exactly
-- half a unit beyond its whole units, and 1 in any case.
pub run-Books :
    (n : ℕ) (cs : List (Call × ℕ × List Bool)) (db : Db)
    → AllSuit n cs
    → Books n db
    → Books n (run cs db)
unfolding run
run-Books n [] db s b = b
run-Books n ((c, now, faults) ∷ cs) db s b = run-Books n cs _ s.1 (perform-Books n c _ s.0 b)
