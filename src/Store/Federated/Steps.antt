-- ===== src/Store/Federated/Steps.antt =====
-- internal/store: the calls of federated.go keep what is steady: what every rollback, and every write to the
-- balances and the identities, keeps, and what speaks of no other table.
use local_ai_proxy.Prelude.{
  ℕ, ◌+◌, ◌≡◌, refl, Bool, true, false, Option, none, some, ℕ_key, String_key, inl, inr,
  Option-cases,
}
use local_ai_proxy.Prelude.Int.{ℤ}
use local_ai_proxy.Prelude.Dict.{lookup}
use local_ai_proxy.Store.Directory.{RegistrationEvent}
use local_ai_proxy.Store.Sql.{Account, Balance, Transaction, Db, rollback, statement}
use local_ai_proxy.Store.Keeps.{
  Keeps, statement-Keeps, pure-Keeps, bind-Keeps, require-Keeps, transaction-Keeps,
}
use local_ai_proxy.Store.Ledger.{insert_transaction, update_balance, update_balance_returning}
use local_ai_proxy.Store.Registration.{insert_account, insert_balance, insert_event}
use local_ai_proxy.Store.Federated.{
  FederatedIdentity, refresh_identity, insert_identity, lookup_federated_account,
  provision_inserted, provision_rows, rolled_back, adopt_winner, provisioned_or_adopt,
  reset_balance, provision_federated_account, select_account, record_allowance, grant_allowance,
  allowance_if, apply_monthly_allowance, found_or_provision, resolve_end_user_account,
  update_account, set_account,
}

pub record IsSteady (P : Db → Type 0) : Type 0 where
  pub rolls : (before after : Db) → P before → P (rollback before after)
  pub aside :
      (before after : Db)
      → after.balances ≡ before.balances
      → after.directory.identities ≡ before.directory.identities
      → P before
      → P after
  pub updates :
      (a : ℕ) (f : Balance → Balance) (db : Db)
      → ((b : Balance) → (f b).allowance_period ≡ b.allowance_period)
      → P db
      → P (update_balance a f db).1
  pub returns :
      (a : ℕ) (f : Balance → Balance) (db : Db)
      → ((b : Balance) → (f b).allowance_period ≡ b.allowance_period)
      → P db
      → P (update_balance_returning a f db).1
  pub opens : (a : ℕ) (db : Db) → P db → P (insert_balance a db).1
  pub resets : (a : ℕ) (grant : ℤ) (m : ℕ) (db : Db) → P db → P (reset_balance a grant m db).1
  pub refreshes : (f : FederatedIdentity) (db : Db) → P db → P (refresh_identity f db).1
  pub inserts : (f : FederatedIdentity) (a : ℕ) (db : Db) → P db → P (insert_identity f a db).1

module _ {P : Db → Type 0} (s : IsSteady P) where
  pub account-Keeps : (a : Account) → Keeps P (statement (insert_account a))
  unfolding insert_account
  account-Keeps a = statement-Keeps _ (λ db h.
      elim (Option-cases (lookup (db.directory.account_seq + 1) db.accounts)) [
        | inl e ↦
            s.aside db (insert_account a db).1 (rw (insert_account, e) refl)
              (rw (insert_account, e) refl) h
        | inr (x, e) ↦
            s.aside db (insert_account a db).1 (rw (insert_account, e) refl)
              (rw (insert_account, e) refl) h
      ])

  refresh-Keeps : (f : FederatedIdentity) → Keeps P (statement (refresh_identity f))
  refresh-Keeps f = statement-Keeps _ (s.refreshes f)

  identity-Keeps : (f : FederatedIdentity) (a : ℕ) → Keeps P (statement (insert_identity f a))
  identity-Keeps f a = statement-Keeps _ (s.inserts f a)

  event-Keeps : (e : RegistrationEvent) → Keeps P (statement (insert_event e))
  unfolding insert_event
  event-Keeps e = statement-Keeps _ (λ db h. s.aside db _ refl refl h)

  pub transaction_row-Keeps : (t : Transaction) → Keeps P (statement (insert_transaction t))
  unfolding insert_transaction
  transaction_row-Keeps t = statement-Keeps _ (λ db h. s.aside db _ refl refl h)

  inserted-Keeps : (a : ℕ) (b : Bool) → Keeps P (provision_inserted a b)
  unfolding provision_inserted
  inserted-Keeps a false = pure-Keeps _
  inserted-Keeps a true = bind-Keeps (event-Keeps _) (λ t. pure-Keeps _)

  adopt-Keeps : (f : FederatedIdentity) (made : Option ℕ) → Keeps P (provisioned_or_adopt f made)
  unfolding provisioned_or_adopt rolled_back lookup_federated_account adopt_winner
  adopt-Keeps f (some a) = pure-Keeps _
  adopt-Keeps f none =
      bind-Keeps (statement-Keeps _ (λ db h. h))
        (λ t. bind-Keeps (refresh-Keeps f) (λ winner. winner-Keeps winner))
    where
      winner-Keeps : (winner : Option ℕ) → Keeps P (adopt_winner winner)
      winner-Keeps none = record { run = λ w h. h }
      winner-Keeps (some a) = record { run = λ w h. h }

  provision-Keeps : (f : FederatedIdentity) → Keeps P (provision_federated_account f)
  unfolding provision_federated_account provision_rows
  provision-Keeps f =
      bind-Keeps
        (transaction-Keeps s.rolls (
          bind-Keeps (account-Keeps _) (λ a.
            bind-Keeps (statement-Keeps _ (s.opens a))
              (λ t. bind-Keeps (identity-Keeps f a) (λ b. inserted-Keeps a b)))))
        (λ made. adopt-Keeps f made)

  allowance-Keeps : (b : Bool) (a : ℕ) (grant : ℤ) (m : ℕ) → Keeps P (allowance_if b a grant m)
  unfolding allowance_if grant_allowance record_allowance
  allowance-Keeps false a grant m = pure-Keeps _
  allowance-Keeps true a grant m =
      transaction-Keeps s.rolls
        (bind-Keeps (statement-Keeps _ (s.resets a grant m)) (λ b. recorded-Keeps b))
    where
      recorded-Keeps : (b : Bool) → Keeps P (record_allowance a grant b)
      recorded-Keeps false = pure-Keeps _
      recorded-Keeps true = bind-Keeps (transaction_row-Keeps _) (λ t. pure-Keeps _)

  select-Keeps : (a : ℕ) → Keeps P (statement (select_account a))
  unfolding select_account
  select-Keeps a = statement-Keeps _ (λ db h. elim (Option-cases (lookup a db.accounts)) [
    | inl e ↦ rw (select_account, e) h
    | inr (x, e) ↦ rw (select_account, e) h
  ])

  pub apply-Keeps : (a : ℕ) (g : ℤ) (m : ℕ) → Keeps P (apply_monthly_allowance a g m)
  unfolding apply_monthly_allowance
  apply-Keeps a g m =
      bind-Keeps (select-Keeps a)
        (λ x. bind-Keeps (allowance-Keeps x.allowance_managed a _ m) (λ b. pure-Keeps _))

  found-Keeps : (f : FederatedIdentity) (known : Option ℕ) → Keeps P (found_or_provision f known)
  unfolding found_or_provision
  found-Keeps f (some a) = pure-Keeps _
  found-Keeps f none = provision-Keeps f

  pub resolve-Keeps :
      (month_of : ℕ → ℕ) (f : FederatedIdentity) (g : ℤ) (now : ℕ)
      → Keeps P (resolve_end_user_account month_of f g now)
  unfolding resolve_end_user_account lookup_federated_account
  resolve-Keeps month_of f g now = bind-Keeps (refresh-Keeps f) (λ known.
      bind-Keeps (found-Keeps f known)
        (λ x. bind-Keeps (apply-Keeps x.0 g (month_of now)) (λ y. pure-Keeps _)))

  pub set-Keeps : (id : ℕ) (f : Account → Account) → Keeps P (set_account id f)
  unfolding set_account update_account
  set-Keeps id f =
      bind-Keeps
        (statement-Keeps _ (λ db h. elim (Option-cases (lookup id db.accounts)) [
          | inl e ↦ rw (update_account, e) h
          | inr (x, e) ↦
              s.aside db (update_account id f db).1 (rw (update_account, e) refl)
                (rw (update_account, e) refl) h
        ]))
        (λ b. require-Keeps b _)
