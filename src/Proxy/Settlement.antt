-- ===== src/Proxy/Settlement.antt =====
-- internal/proxy/proxy.go: the credits of a chat request, from its reservation to its end.
use local_ai_proxy.Prelude.{
  ℕ, ◌+◌, ◌≡◌, refl, sym, ◌∙◌, ap, false, Option, none, some, [], arith, if◌then◌else◌, nat_eq,
  ℕ_key, eq_self, Bool-cases, inl, inr,
}
use local_ai_proxy.Prelude.Int.{ℤ, pos, ◌-ℤ◌, ◌≤ℤ◌, int_laws}
use local_ai_proxy.Prelude.Dict.{Dict, lookup, insert, lookup-insert}
use local_ai_proxy.Credits.Estimator.{CreditPricing}
use local_ai_proxy.Store.Amounts.{
  Amount, no_amount, IsNatural, column, plus, minus, plus-column, minus_none,
}
use local_ai_proxy.Store.Sql.{
  Balance, Hold, Db, World, Result, ok, err, settled, released, transaction, rollback, statement,
  answer, ◌>>=◌, pure, clock,
}
use local_ai_proxy.Store.Ledger.{
  reserve_credits, settle_hold, settle_found, release_hold, release_found, close_hold,
  update_balance, update_balance_returning, insert_transaction, is_pending,
}
use local_ai_proxy.Store.Ledger.Outcomes.{
  Reserves, reserve_credits-Reserves, closed, row, reserved_db, new_hold, open_hold, settled_db,
  released_db,
}
use local_ai_proxy.Proxy.{
  Usage, StreamStatus, completed, partial, failed, Exchange, unanswered, refused, answered,
  streamed, settle_credits, settle_stream_credits, conclude, uncharged, cost_of,
}

-- The world of a database that answers.
abbrev pub calm : Db → ℕ → World
calm db now = record { db = db; now = now; faults = [] }

ok_id : (i j : ℕ) → ok i ≡ ok j → i ≡ j
ok_id i j e = cc

pub lookup-same : {V : Type 0} (k : ℕ) (v : V) (m : Dict ℕ V) → lookup k (insert k v m) ≡ some v
lookup-same k v m = rw (lookup-insert, eq_self k) refl

taken_back : (r : ℤ) (x : Amount) → pos 0 ≤ℤ r → IsNatural x → plus r x -ℤ column x ≡ r
taken_back r x p q = rw (plus-column r x p q) (omega int_laws)

settled_funds :
    (id : ℕ) (c : Amount) (later : ℕ) (h : Hold) (db : Db) (b : Balance)
    → lookup h.account_id db.balances ≡ some b
    → lookup h.account_id (settled_db id c h later db).balances
      ≡ some (record b { balance = minus b.balance c; reserved = b.reserved -ℤ h.amount })
settled_funds id c later h db b e =
    lookup-same h.account_id
      (record (row h.account_id db) {
        balance = minus (row h.account_id db).balance c;
        reserved = (row h.account_id db).reserved -ℤ h.amount;
      })
      db.balances
    ∙ rw (row, e) refl

released_funds :
    (id later : ℕ) (h : Hold) (db : Db) (b : Balance)
    → lookup h.account_id db.balances ≡ some b
    → lookup h.account_id (released_db id h later db).balances
      ≡ some (record b { reserved = b.reserved -ℤ h.amount })
released_funds id later h db b e =
    rw (released_db, e)
      (lookup-same h.account_id (record b { reserved = b.reserved -ℤ h.amount }) db.balances)

closed_hold :
    (id : ℕ) (h : Hold) (holds : Dict ℕ Hold)
    → is_pending h.status ≡ false
    → (elim (lookup id (insert id h holds)) [
      | none ↦ none
      | some h ↦ if is_pending h.status then some h else none
    ])
      ≡ none
closed_hold id h holds e = rw (lookup-same id h holds, e) refl

-- The account, which had b, is charged and nothing more is reserved; the hold is closed.
pub record IsConcluded (a : ℕ) (b : Balance) (id : ℕ) (charged : Amount) (after : Db) : Type 0 where
  pub funds : lookup a after.balances ≡ some (record b { balance = minus b.balance charged })
  pub hold : open_hold id after ≡ none

-- A request that reserved x for the account a, when its balance was b.
module _ (a now later : ℕ) (x : Amount) (db : Db) (b : Balance)
    (funded : lookup a db.balances ≡ some b) (held : pos 0 ≤ℤ b.reserved)
    (natural : IsNatural x) where
  hold_at : lookup (db.hold_seq + 1) (reserved_db a x now db).holds ≡ some (new_hold a x now)
  hold_at = lookup-same (db.hold_seq + 1) (new_hold a x now) db.holds

  funds_at :
      lookup a (reserved_db a x now db).balances ≡ some (record b { reserved = plus b.reserved x })
  funds_at =
      lookup-same a (record (row a db) { reserved = plus (row a db).reserved x }) db.balances
      ∙ rw (row, funded) refl

  settled_lem :
      (c : Amount)
      → settle_hold (db.hold_seq + 1) c (calm (reserved_db a x now db) later) ≡ (
        ok c,
        calm
            (settled_db (db.hold_seq + 1) c (new_hold a x now) later (reserved_db a x now db))
            later,
      )
  unfolding settle_hold settle_found close_hold transaction rollback statement answer ◌>>=◌ pure
      clock update_balance_returning insert_transaction
  settled_lem c = ground (arith, hold_at, funds_at)

  released_lem : release_hold (db.hold_seq + 1) (calm (reserved_db a x now db) later) ≡ (
    ok tt,
    calm (released_db (db.hold_seq + 1) (new_hold a x now) later (reserved_db a x now db)) later,
  )
  unfolding release_hold release_found close_hold transaction rollback statement answer ◌>>=◌ pure
      clock update_balance
  released_lem = ground (arith, hold_at, funds_at)

  settled-IsConcluded :
      (c : Amount)
      → IsConcluded a b
          (db.hold_seq + 1)
          c
          (settled_db (db.hold_seq + 1) c (new_hold a x now) later (reserved_db a x now db))
  settled-IsConcluded c = record {
    funds =
        settled_funds (db.hold_seq + 1) c later (new_hold a x now) (reserved_db a x now db) _
          funds_at
        ∙ ap (λ r. some (record b { balance = minus b.balance c; reserved = r }))
            (taken_back b.reserved x held natural);
    hold = closed_hold (db.hold_seq + 1) (closed (new_hold a x now) settled later) _ refl;
  }

  released-IsConcluded :
      IsConcluded a b
        (db.hold_seq + 1)
        no_amount
        (released_db (db.hold_seq + 1) (new_hold a x now) later (reserved_db a x now db))
  released-IsConcluded = record {
    funds =
        released_funds (db.hold_seq + 1) later (new_hold a x now) (reserved_db a x now db) _
          funds_at
        ∙ ap (λ r. some (record b { reserved = r })) (taken_back b.reserved x held natural)
        ∙ ap (λ r. some (record b { balance = r })) (sym (minus_none b.balance));
    hold = closed_hold (db.hold_seq + 1) (closed (new_hold a x now) released later) _ refl;
  }

  settle_credits-IsConcluded :
      (charge_of : ℤ → Amount) (pricing : Option CreditPricing) (usage : Usage) (bytes : ℕ)
      → IsConcluded a b
          (db.hold_seq + 1)
          (settle_credits charge_of pricing
            (db.hold_seq + 1)
            usage
            bytes
            (calm (reserved_db a x now db) later)).0
          (settle_credits charge_of pricing
            (db.hold_seq + 1)
            usage
            bytes
            (calm (reserved_db a x now db) later)).1.db
  unfolding settle_credits
  settle_credits-IsConcluded charge_of pricing usage bytes =
      rw (settled_lem (charge_of (cost_of pricing usage bytes)))
        (settled-IsConcluded (charge_of (cost_of pricing usage bytes)))

  uncharged-IsConcluded :
      IsConcluded a b
        (db.hold_seq + 1)
        (uncharged (release_hold (db.hold_seq + 1) (calm (reserved_db a x now db) later))).0
        (uncharged (release_hold (db.hold_seq + 1) (calm (reserved_db a x now db) later))).1.db
  uncharged-IsConcluded = rw released_lem released-IsConcluded

  settle_stream_credits-IsConcluded :
      (charge_of : ℤ → Amount) (pricing : Option CreditPricing) (usage : Usage) (bytes : ℕ)
      (status : StreamStatus)
      → IsConcluded a b
          (db.hold_seq + 1)
          (settle_stream_credits charge_of pricing
            (db.hold_seq + 1)
            usage
            bytes
            status
            (calm (reserved_db a x now db) later)).0
          (settle_stream_credits charge_of pricing
            (db.hold_seq + 1)
            usage
            bytes
            status
            (calm (reserved_db a x now db) later)).1.db
  unfolding settle_stream_credits
  settle_stream_credits-IsConcluded charge_of pricing usage bytes completed =
      settle_credits-IsConcluded charge_of pricing usage bytes
  settle_stream_credits-IsConcluded charge_of pricing usage bytes partial =
      settle_credits-IsConcluded charge_of pricing usage bytes
  settle_stream_credits-IsConcluded charge_of pricing usage bytes failed =
      elim (Bool-cases (nat_eq bytes 0)) [
        | inl e ↦ rw (settle_stream_credits, e) uncharged-IsConcluded
        | inr e ↦
            rw (settle_stream_credits, e) (settle_credits-IsConcluded charge_of pricing usage bytes)
      ]

  conclude-IsConcluded :
      (charge_of : ℤ → Amount) (pricing : Option CreditPricing) (e : Exchange)
      → IsConcluded a b
          (db.hold_seq + 1)
          (conclude charge_of pricing (db.hold_seq + 1) e (calm (reserved_db a x now db) later)).0
          (conclude charge_of pricing
            (db.hold_seq + 1)
            e
            (calm (reserved_db a x now db) later)).1.db
  unfolding conclude
  conclude-IsConcluded charge_of pricing unanswered = uncharged-IsConcluded
  conclude-IsConcluded charge_of pricing refused = uncharged-IsConcluded
  conclude-IsConcluded charge_of pricing (answered usage bytes) =
      settle_credits-IsConcluded charge_of pricing usage bytes
  conclude-IsConcluded charge_of pricing (streamed usage bytes status) =
      settle_stream_credits-IsConcluded charge_of pricing usage bytes status

-- With a database that answers, and no other call of it between the reservation and the end of the
-- request, whichever way the exchange with the node ends: if the account had nothing negative
-- reserved and the request reserves no negative amount, its balance is what it was less the amount
-- that is recorded as charged, rounded as the column is, exactly as much of it is reserved as before
-- the request, and the request's hold is closed.
pub request-IsConcluded :
    (a later id : ℕ) (x : Amount) (w : World) (b : Balance) (charge_of : ℤ → Amount)
    (pricing : Option CreditPricing) (e : Exchange)
    → lookup a w.db.balances ≡ some b
    → pos 0 ≤ℤ b.reserved
    → IsNatural x
    → (reserve_credits a x w).0 ≡ ok id
    → IsConcluded a b id
        (conclude charge_of pricing id e (calm (reserve_credits a x w).1.db later)).0
        (conclude charge_of pricing id e (calm (reserve_credits a x w).1.db later)).1.db
request-IsConcluded a later id x w b charge_of pricing e funded held natural granted =
    within (reserve_credits a x w) (reserve_credits-Reserves a x w) granted
  where
    within :
        (r : Result ℕ × World)
        → Reserves a x w.db w.now r
        → r.0 ≡ ok id
        → IsConcluded a b id
            (conclude charge_of pricing id e (calm r.1.db later)).0
            (conclude charge_of pricing id e (calm r.1.db later)).1.db
    within (err c, v) u g = absurd (cc)
    within (ok i, v) u g =
        let same : id ≡ w.db.hold_seq + 1 = sym (ok_id i id g) ∙ u.2 in
        rw (u.3, same)
          (conclude-IsConcluded a w.now later x w.db b funded held natural charge_of pricing e)
