-- ===== src/Store/Federated/Bound.antt =====
-- internal/store: an identity that is bound to an account stays bound to it.
use local_ai_proxy.Prelude.{
  ℕ, ◌+◌, ◌≡◌, refl, sym, ap, ◌∙◌, subst, Option, some, ℕ_key, String_key, inl, inr, Option-cases,
  Bool-cases,
}
use local_ai_proxy.Prelude.Int.{ℤ}
use local_ai_proxy.Prelude.Dict.{Dict, lookup, IsUnique, insert-IsUnique}
use local_ai_proxy.Prelude.Rows.{
  find_row, find_as, find_as-insert_end, find_as-insert_same, find_row-lookup,
}
use local_ai_proxy.Store.Directory.{IdentityRow}
use local_ai_proxy.Store.Sql.{Balance, Db, rollback}
use local_ai_proxy.Store.Ledger.{update_balance, update_balance_returning}
use local_ai_proxy.Store.Registration.{insert_balance}
use local_ai_proxy.Store.Users.{is_some}
use local_ai_proxy.Store.Federated.{
  FederatedIdentity, is_identity, refresh_identity, insert_identity, is_allowance_due,
  reset_balance,
}
use local_ai_proxy.Store.Federated.Steps.{IsSteady}

abbrev pub account_in : FederatedIdentity → Dict ℕ IdentityRow → Option ℕ
account_in f m = find_as (is_identity f) (λ i. i.account_id) m

-- The row of the identity names the account.
pub record IsBound (f : FederatedIdentity) (account : ℕ) (db : Db) : Type 0 where
  pub unique : IsUnique db.directory.identities
  pub at : account_in f db.directory.identities ≡ some account

module _ (f : FederatedIdentity) (account : ℕ) where
  -- Tables with the same identities
  same_identities :
      (before after : Db)
      → after.directory.identities ≡ before.directory.identities
      → IsBound f account before
      → IsBound f account after
  same_identities before after e h = record {
    unique = subst (λ m. IsUnique m) (sym e) h.unique;
    at = ap (λ m. account_in f m) e ∙ h.at;
  }

  update_balance-identities :
      (a : ℕ) (g : Balance → Balance) (db : Db)
      → (update_balance a g db).1.directory.identities ≡ db.directory.identities
  unfolding update_balance
  update_balance-identities a g db = elim (Option-cases (lookup a db.balances)) [
    | inl e ↦ rw (update_balance, e) refl
    | inr (b, e) ↦ rw (update_balance, e) refl
  ]

  update_returning-identities :
      (a : ℕ) (g : Balance → Balance) (db : Db)
      → (update_balance_returning a g db).1.directory.identities ≡ db.directory.identities
  unfolding update_balance_returning
  update_returning-identities a g db = elim (Option-cases (lookup a db.balances)) [
    | inl e ↦ rw (update_balance_returning, e) refl
    | inr (b, e) ↦ rw (update_balance_returning, e) refl
  ]

  insert_balance-identities :
      (a : ℕ) (db : Db) → (insert_balance a db).1.directory.identities ≡ db.directory.identities
  unfolding insert_balance
  insert_balance-identities a db = elim (Option-cases (lookup a db.balances)) [
    | inl e ↦ rw (insert_balance, e) refl
    | inr (b, e) ↦ rw (insert_balance, e) refl
  ]

  reset_balance-identities :
      (a : ℕ) (grant : ℤ) (m : ℕ) (db : Db)
      → (reset_balance a grant m db).1.directory.identities ≡ db.directory.identities
  unfolding reset_balance
  reset_balance-identities a grant m db = elim (Option-cases (lookup a db.balances)) [
    | inl e ↦ rw (reset_balance, e) refl
    | inr (b, e) ↦ elim (Bool-cases (is_allowance_due m b.allowance_period)) [
      | inl d ↦ rw (reset_balance, e, d) refl
      | inr d ↦ rw (reset_balance, e, d) refl
    ]
  ]

  -- A refresh of any identity writes a row that names the account that the old one names.
  refresh-IsBound :
      (g : FederatedIdentity) (db : Db)
      → IsBound f account db
      → IsBound f account (refresh_identity g db).1
  unfolding refresh_identity
  refresh-IsBound g db h = elim (Option-cases (find_row (is_identity g) db.directory.identities)) [
    | inl e ↦ rw (refresh_identity, e) h
    | inr ((k, i), e) ↦
        rw (refresh_identity, e)
          (record {
            unique = insert-IsUnique k _ db.directory.identities h.unique;
            at =
                find_as-insert_same (is_identity f) (λ i. i.account_id) k i _
                  db.directory.identities
                  (find_row-lookup (is_identity g) db.directory.identities k i h.unique e) refl refl
                ∙ h.at;
          })
  ]

  -- A new row has a new id, and comes last.
  insert-IsBound :
      (g : FederatedIdentity) (a : ℕ) (db : Db)
      → IsBound f account db
      → IsBound f account (insert_identity g a db).1
  unfolding insert_identity
  insert-IsBound g a db h =
      elim (Bool-cases (is_some (find_row (is_identity g) db.directory.identities))) [
        | inl e ↦ rw (insert_identity, e) (record { unique = h.unique; at = h.at })
        | inr e ↦
            elim (Option-cases (lookup (db.directory.identity_seq + 1) db.directory.identities)) [
              | inr (x, n) ↦ rw (insert_identity, e, n) (record { unique = h.unique; at = h.at })
              | inl n ↦
                  rw (insert_identity, e, n)
                    (record {
                      unique = insert-IsUnique _ _ db.directory.identities h.unique;
                      at =
                          find_as-insert_end (is_identity f) (λ i. i.account_id) _ _
                            db.directory.identities account n h.at;
                    })
            ]
      ]

  pub IsBound-IsSteady : IsSteady (IsBound f account)
  unfolding rollback
  IsBound-IsSteady = record {
    rolls = λ before after h. same_identities before (rollback before after) refl h;
    aside = λ before after b e h. same_identities before after e h;
    updates = λ a g db k h. same_identities db _ (update_balance-identities a g db) h;
    returns = λ a g db k h. same_identities db _ (update_returning-identities a g db) h;
    opens = λ a db h. same_identities db _ (insert_balance-identities a db) h;
    resets = λ a grant m db h. same_identities db _ (reset_balance-identities a grant m db) h;
    refreshes = refresh-IsBound;
    inserts = insert-IsBound;
  }
