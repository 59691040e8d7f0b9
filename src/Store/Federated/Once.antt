-- ===== src/Store/Federated/Once.antt =====
-- internal/store: the allowance of a month is granted once.
use local_ai_proxy.Prelude.{
  ℕ, ◌≤◌, ◌≡◌, ◌≢◌, false≢true, refl, sym, ap, subst, ◌∙◌, Bool, true, false, Option, some, arith,
  eq_key, ℕ_key, String_key, inl, inr, Option-cases, Bool-cases, List,
}
use local_ai_proxy.Prelude.Int.{ℤ}
use local_ai_proxy.Prelude.Dict.{lookup, lookup-insert}
use local_ai_proxy.Store.Sql.{Result, ok, err, Db, World, statement}
use local_ai_proxy.Store.Ledger.{insert_transaction}
use local_ai_proxy.Store.Federated.{
  select_account, is_allowance_due, reset_balance, record_allowance, grant_allowance, allowance_if,
  apply_monthly_allowance,
}
use local_ai_proxy.Store.Federated.Periods.{IsGranted, IsGranted-IsSteady, same_balances}
use local_ai_proxy.Store.Federated.Calls.{AccountCall, Moment, run}
use local_ai_proxy.Store.Leads.{
  Leads, Holds, Ends, Finishes, statement-Leads, bind-Leads, pure-Leads, transaction-Finishes,
}
use local_ai_proxy.Store.Federated.Histories.{run-steady}

module _ (account month : ℕ) where
  -- The call answers that it has granted only if the account then has the allowance of the month.
  abbrev Grants : Bool → Db → Type 0
  Grants b db = b ≡ true → IsGranted account month db

  reset-Grants :
      (g : ℤ) {P : Db → Type 0} → Leads P (statement (reset_balance account g month)) Grants
  unfolding reset_balance
  reset-Grants g = statement-Leads _ (λ db p. elim (Option-cases (lookup account db.balances)) [
    | inl e ↦ rw (reset_balance, e) (λ on. absurd (cc on))
    | inr (b, e) ↦ elim (Bool-cases (is_allowance_due month b.allowance_period)) [
      | inr d ↦ rw (reset_balance, e, d) (λ on. absurd (cc on))
      | inl d ↦
          rw (reset_balance, e, d)
            (λ on. record {
              balance = record b { balance = g; allowance_period = some month };
              period = month;
              at = rw lookup-insert (ground (arith, eq_key account account));
              since = refl;
              reached = omega arith;
            })
    ]
  ])

  recorded-Grants :
      (g : ℤ) (b : Bool)
      → Leads (Grants b) (record_allowance account g b) (Ends Grants (λ x. x ≡ false))
  unfolding record_allowance insert_transaction
  recorded-Grants g false = pure-Leads _ (λ db p. refl)
  recorded-Grants g true =
      bind-Leads {R = λ t. Grants true}
        (statement-Leads _ (λ db p on. same_balances account month db _ refl (p on)))
        (λ t. pure-Leads _ (λ db p. p))

  finished-Grants :
      (before : Db) (r : Result Bool) (db : Db)
      → Finishes Grants (λ x. x ≡ false) before r db
      → Holds Grants r db
  finished-Grants before (ok b) db (inl p) = p
  finished-Grants before (ok b) db (inr p) = λ on. absurd (cc (on, p.0))
  finished-Grants before (err e) db p = tt

  allowance-Grants :
      (g : ℤ) (b : Bool) {P : Db → Type 0} → Leads P (allowance_if b account g month) Grants
  unfolding allowance_if grant_allowance
  allowance-Grants g false = pure-Leads _ (λ db p on. absurd (cc on))
  allowance-Grants g true = record {
    run = λ w p.
        finished-Grants w.db (grant_allowance account g month w).0
          (grant_allowance account g month w).1.db
          (transaction-Finishes Grants (λ x. x ≡ false) _ w
            (bind-Leads (reset-Grants g) (λ b. recorded-Grants g b)));
  }

  apply-Grants :
      (g : ℤ) {P : Db → Type 0}
      → Leads P (apply_monthly_allowance account g month) (λ x. Grants x.0)
  unfolding apply_monthly_allowance select_account
  apply-Grants g =
      bind-Leads {R = λ a db. Unit}
        (statement-Leads _ (λ db p. elim (Option-cases (lookup account db.accounts)) [
          | inl e ↦ rw (select_account, e) tt
          | inr (a, e) ↦ rw (select_account, e) tt
        ]))
        (λ a. bind-Leads (allowance-Grants _ a.allowance_managed) (λ b. pure-Leads _ (λ db p. p)))

-- A call for the same month or an earlier one grants nothing more.
module _ (account month earlier : ℕ) (order : earlier ≤ month) where
  abbrev Refuses : Bool → Db → Type 0
  Refuses b db = b ≡ false

  not_due : (p : ℕ) → month ≤ p → is_allowance_due earlier (some p) ≡ false
  not_due p reached = ground (arith, order)

  reset-Refuses :
      (g : ℤ) (before : Db)
      → IsGranted account month before
      → Leads (λ db. db ≡ before) (statement (reset_balance account g earlier)) Refuses
  unfolding reset_balance
  reset-Refuses g before h = statement-Leads _ (λ db same.
      let at : lookup account db.balances ≡ some h.balance =
        ap (λ d. lookup account d.balances) same ∙ h.at in
      let due : is_allowance_due earlier h.balance.allowance_period ≡ false =
        ap (λ o. is_allowance_due earlier o) h.since ∙ not_due h.period h.reached in
      rw (reset_balance, at, due) refl)

  recorded-Refuses :
      (g : ℤ) (b : Bool)
      → Leads (Refuses b) (record_allowance account g b) (Ends Refuses (λ x. x ≡ false))
  unfolding record_allowance
  recorded-Refuses g false = pure-Leads _ (λ db p. p)
  recorded-Refuses g true = record { run = λ w p. absurd (cc p) }

  finished-Refuses :
      (before : Db) (r : Result Bool) (db : Db)
      → Finishes Refuses (λ x. x ≡ false) before r db
      → Holds Refuses r db
  finished-Refuses before (ok b) db (inl p) = p
  finished-Refuses before (ok b) db (inr p) = p.0
  finished-Refuses before (err e) db p = tt

  allowance-Refuses :
      (g : ℤ) (b : Bool)
      → Leads (IsGranted account month) (allowance_if b account g earlier) Refuses
  unfolding allowance_if grant_allowance
  allowance-Refuses g false = pure-Leads _ (λ db p. refl)
  allowance-Refuses g true = record {
    run = λ w p.
        finished-Refuses w.db (grant_allowance account g earlier w).0
          (grant_allowance account g earlier w).1.db
          (transaction-Finishes Refuses (λ x. x ≡ false) _ w
            (bind-Leads (reset-Refuses g w.db p) (λ b. recorded-Refuses g b)));
  }

  apply-Refuses :
      (g : ℤ)
      → Leads
          (IsGranted account month)
          (apply_monthly_allowance account g earlier)
          (λ x. Refuses x.0)
  unfolding apply_monthly_allowance select_account
  apply-Refuses g =
      bind-Leads {R = λ a. IsGranted account month}
        (statement-Leads _ (λ db p. elim (Option-cases (lookup account db.accounts)) [
          | inl e ↦ rw (select_account, e) tt
          | inr (a, e) ↦ rw (select_account, e) p
        ]))
        (λ a. bind-Leads (allowance-Refuses _ a.allowance_managed) (λ b. pure-Leads _ (λ db p. p)))

abbrev grant_of : {A : Type 0} → Result (Bool × A) → Bool
grant_of (ok (b, x)) = b
grant_of (err e) = false

granted_then :
    {A : Type 0} (Q : Bool → Db → Type 0) (r : Result (Bool × A)) (x : A) (db : Db)
    → r ≡ ok (true, x)
    → Holds (λ y. Q y.0) r db
    → Q true db
granted_then Q (ok (b, y)) x db e h = subst (λ c. Q c db) (ap grant_of e) h
granted_then Q (err f) x db e h = absurd (cc e)

-- Once an account has been granted the allowance of a month, no call grants it that of the same month
-- or of an earlier one, whatever end users are resolved, accounts are changed and credits are moved in
-- between, and whichever calls of the database fail.
pub apply_once :
    (month_of : ℕ → ℕ) (account month earlier : ℕ) (g h : ℤ) (rate later_rate : Option ℤ)
    (calls : List (Moment × AccountCall)) (w : World) (t : Moment)
    → (apply_monthly_allowance account g month w).0 ≡ ok (true, rate)
    → earlier ≤ month
    → let before = run month_of calls (apply_monthly_allowance account g month w).1 in
      (apply_monthly_allowance account h earlier
        (record before { now = t.at; faults = t.faults })).0
      ≢ ok (true, later_rate)
apply_once month_of account month earlier g h rate later_rate calls w t granted order again =
    let first : IsGranted account month (apply_monthly_allowance account g month w).1.db =
      granted_then (Grants account month) (apply_monthly_allowance account g month w).0 rate
        (apply_monthly_allowance account g month w).1.db granted
        ((apply-Grants account month g {P = λ db. Unit}).run w tt) refl in
    let v : World = record (run month_of calls (apply_monthly_allowance account g month w).1) {
      now = t.at;
      faults = t.faults;
    } in
    let kept : IsGranted account month v.db =
      run-steady (IsGranted-IsSteady account month) month_of calls
        (apply_monthly_allowance account g month w).1 first in
    false≢true (
      sym (
        granted_then (Refuses account month earlier order)
          (apply_monthly_allowance account h earlier v).0 later_rate
          (apply_monthly_allowance account h earlier v).1.db again
          ((apply-Refuses account month earlier order h).run v kept)))
