-- ===== src/Store/Federated/Binds.antt =====
-- internal/store/federated.go: a call that resolves an identity binds it to the account it answers.
use local_ai_proxy.Prelude.{
  ℕ, ◌+◌, ◌&&◌, ◌≡◌, refl, sym, ◌∙◌, subst, true, false, Option, none, some, arith, ◌==◌, eq_key,
  ℕ_key, String_key, inl, inr, Option-cases, Bool,
}
use local_ai_proxy.Prelude.Int.{ℤ}
use local_ai_proxy.Prelude.Dict.{lookup, IsUnique, insert-IsUnique}
use local_ai_proxy.Prelude.Rows.{
  find_row, find_as-find_row, find_as-insert_same, find_row-lookup, find_row-insert_new,
}
use local_ai_proxy.Store.Sql.{Sql, Result, ok, err, Account, Db, statement, rollback}
use local_ai_proxy.Store.Leads.{
  Leads, Holds, Ends, Finishes, statement-Leads, bind-Leads, pure-Leads, transaction-Finishes,
}
use local_ai_proxy.Store.Registration.{insert_account, insert_balance, insert_event}
use local_ai_proxy.Store.Federated.{
  FederatedIdentity, is_identity, refresh_identity, insert_identity, lookup_federated_account,
  provision_inserted, provision_rows, rolled_back, adopt_winner, provisioned_or_adopt,
  provision_federated_account, apply_monthly_allowance, found_or_provision,
  resolve_end_user_account,
}
use local_ai_proxy.Store.Federated.Steps.{apply-Keeps}
use local_ai_proxy.Store.Federated.Bound.{IsBound, IsBound-IsSteady}

-- The ids of the identities differ.
abbrev pub HasIds : Db → Type 0
HasIds db = IsUnique db.directory.identities

module _ {A : Type 0} (P : Db → Type 0) where
  -- What a call keeps still holds when it answers.
  pub kept-Holds : (r : Result A) (db : Db) → P db → Holds (λ x. P) r db
  kept-Holds (ok x) db h = h
  kept-Holds (err e) db h = tt

module _ (f : FederatedIdentity) where
  -- The identity is bound to the account that is known, if one is.
  abbrev Known : Option ℕ → Db → Type 0
  Known none db = HasIds db
  Known (some a) db = IsBound f a db

  lookup-Known : Leads HasIds (lookup_federated_account f) Known
  unfolding lookup_federated_account refresh_identity
  lookup-Known = statement-Leads _ (λ db u.
      elim (Option-cases (find_row (is_identity f) db.directory.identities)) [
        | inl e ↦ rw (refresh_identity, e) u
        | inr ((k, i), e) ↦
            rw (refresh_identity, e)
              (record {
                unique = insert-IsUnique k _ db.directory.identities u;
                at =
                    find_as-insert_same (is_identity f) (λ i. i.account_id) k i _
                      db.directory.identities
                      (find_row-lookup (is_identity f) db.directory.identities k i u e) refl refl
                    ∙ find_as-find_row (is_identity f) (λ i. i.account_id) db.directory.identities k
                        i e;
              })
      ])

  abbrev Inserted : ℕ → Bool → Db → Type 0
  Inserted a b db = b ≡ true → IsBound f a db

  insert-Inserted : (a : ℕ) → Leads HasIds (statement (insert_identity f a)) (Inserted a)
  unfolding insert_identity
  insert-Inserted a = statement-Leads _ (λ db u.
      elim (Option-cases (find_row (is_identity f) db.directory.identities)) [
        | inr (x, e) ↦ rw (insert_identity, e) (λ on. absurd (cc on))
        | inl e ↦
            elim (Option-cases (lookup (db.directory.identity_seq + 1) db.directory.identities)) [
              | inr (x, n) ↦ rw (insert_identity, e, n) tt
              | inl n ↦
                  rw (insert_identity, e, n)
                    (λ on. record {
                      unique = insert-IsUnique _ _ db.directory.identities u;
                      at =
                          find_as-find_row (is_identity f) (λ i. i.account_id) _ _ _
                            (find_row-insert_new (is_identity f) _ _ db.directory.identities e n
                              own);
                    })
            ]
      ])
    where
      own : (f.source == f.source && f.external_id == f.external_id) ≡ true
      own = ground (arith, eq_key f.source f.source, eq_key f.external_id f.external_id)

  event-Known :
      (a : ℕ) (b : Bool)
      → Leads (Inserted a b) (provision_inserted a b) (Ends Known (λ x. x ≡ none))
  unfolding provision_inserted insert_event
  event-Known a false = pure-Leads _ (λ db p. refl)
  event-Known a true =
      bind-Leads {R = λ t. IsBound f a}
        (statement-Leads _ (λ db p. record { unique = (p refl).unique; at = (p refl).at }))
        (λ t. pure-Leads _ (λ db p. p))

  account-HasIds : (x : Account) → Leads HasIds (statement (insert_account x)) (λ a. HasIds)
  unfolding insert_account
  account-HasIds x = statement-Leads _ (λ db u.
      elim (Option-cases (lookup (db.directory.account_seq + 1) db.accounts)) [
        | inl e ↦ rw (insert_account, e) u
        | inr (y, e) ↦ rw (insert_account, e) tt
      ])

  balance-HasIds : (a : ℕ) → Leads HasIds (statement (insert_balance a)) (λ t. HasIds)
  unfolding insert_balance
  balance-HasIds a = statement-Leads _ (λ db u. elim (Option-cases (lookup a db.balances)) [
    | inl e ↦ rw (insert_balance, e) u
    | inr (b, e) ↦ rw (insert_balance, e) tt
  ])

  -- A transaction that is rolled back has the identities from before.
  finished-Known :
      (before : Db) (r : Result (Option ℕ)) (db : Db)
      → HasIds before
      → Finishes Known (λ x. x ≡ none) before r db
      → Holds Known r db
  unfolding rollback
  finished-Known before (ok none) db u (inl p) = p
  finished-Known before (ok none) db u (inr (p, (after, e))) = rw e u
  finished-Known before (ok (some a)) db u (inl p) = p
  finished-Known before (ok (some a)) db u (inr p) = absurd (cc p.0)
  finished-Known before (err e) db u p = tt

  provision_rows-Known : Leads HasIds (provision_rows f) Known
  unfolding provision_rows
  provision_rows-Known = record {
    run = λ w u. finished-Known w.db (provision_rows f w).0 (provision_rows f w).1.db u (
        transaction-Finishes Known (λ x. x ≡ none) _ w
          (bind-Leads {R = λ a. HasIds} (from_start w.db u (account-HasIds _)) (λ a.
            bind-Leads (balance-HasIds a)
              (λ t. bind-Leads (insert-Inserted a) (λ b. event-Known a b)))));
  }
    where
      from_start :
          {A : Type 0} {m : Sql A} {Q : A → Db → Type 0} (db : Db)
          → HasIds db
          → Leads HasIds m Q
          → Leads (λ x. x ≡ db) m Q
      from_start db u h = record { run = λ w same. h.run w (subst HasIds (sym same) u) }

  abbrev Resolved : ℕ × Bool → Db → Type 0
  Resolved x db = IsBound f x.0 db

  adopt-Resolved : (made : Option ℕ) → Leads (Known made) (provisioned_or_adopt f made) Resolved
  unfolding provisioned_or_adopt rolled_back adopt_winner
  adopt-Resolved (some a) = pure-Leads _ (λ db p. p)
  adopt-Resolved none =
      bind-Leads {R = λ t. HasIds} (statement-Leads _ (λ db p. p))
        (λ t. bind-Leads lookup-Known (λ winner. winner-Resolved winner))
    where
      winner-Resolved : (winner : Option ℕ) → Leads (Known winner) (adopt_winner winner) Resolved
      winner-Resolved none = record { run = λ w p. tt }
      winner-Resolved (some a) = record { run = λ w p. p }

  found-Resolved : (known : Option ℕ) → Leads (Known known) (found_or_provision f known) Resolved
  unfolding found_or_provision provision_federated_account
  found-Resolved (some a) = pure-Leads _ (λ db p. p)
  found-Resolved none = bind-Leads provision_rows-Known (λ made. adopt-Resolved made)

  pub resolve-IsBound :
      (month_of : ℕ → ℕ) (g : ℤ) (now : ℕ)
      → Leads HasIds (resolve_end_user_account month_of f g now) (λ r. IsBound f r.account_id)
  unfolding resolve_end_user_account
  resolve-IsBound month_of g now = bind-Leads lookup-Known (λ known.
      bind-Leads (found-Resolved known) (λ x.
        bind-Leads {R = λ y. IsBound f x.0}
          (record {
            run = λ w p.
                kept-Holds (IsBound f x.0) (apply_monthly_allowance x.0 g (month_of now) w).0
                  (apply_monthly_allowance x.0 g (month_of now) w).1.db
                  ((apply-Keeps (IsBound-IsSteady f x.0) x.0 g (month_of now)).run w p);
          })
          (λ y. pure-Leads _ (λ db p. p))))
