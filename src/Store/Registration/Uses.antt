-- ===== src/Store/Registration/Uses.antt =====
-- internal/store/credits.go: the uses of a registration token over any calls.
use local_ai_proxy.Prelude.{
  ℕ, ◌+◌, ◌≡◌, refl, Bool, true, false, not, ◌||◌, Option, String, arith, ◌==◌, eq_key, ℕ_key,
  String_key, if◌then◌else◌, inl, inr, Option-cases, Bool-cases,
}
use local_ai_proxy.Prelude.Int.{ℤ, pos, ◌+ℤ◌, ◌≤ℤ◌, ltb_ℤ, int_laws}
use local_ai_proxy.Prelude.Dict.{lookup}
use local_ai_proxy.Prelude.Rows.{find_row, find_row-holds, find_row-lookup}
use local_ai_proxy.Store.Directory.{RegistrationToken, User}
use local_ai_proxy.Store.Sql.{Account, Db, statement}
use local_ai_proxy.Store.Leads.{Leads, statement-Leads}
use local_ai_proxy.Store.Keeps.{Keeps, statement-Keeps, bind-Keeps}
use local_ai_proxy.Store.Ledger.{update_balance, insert_transaction}
use local_ai_proxy.Store.Users.{is_some, only_if, insert_user, has_email}
use local_ai_proxy.Store.Keys.{insert_key, has_key_hash, refers_to}
use local_ai_proxy.Store.Registration.{
  insert_account, insert_balance, revoke_token, may_consume, consume_token, grant_credits,
}
use local_ai_proxy.Store.Registration.Tokens.{
  IsLimited, updated-IsLimited, revoked-IsLimited, ids-IsUnique,
}

-- What a use of a token by an id owes the token.
abbrev pub owed_by : ℕ → ℕ → ℕ
owed_by token k = if k == token then 1 else 0

module _ (token : ℕ) (max_uses : ℤ) where
  pub revoke_token-IsLimited :
      (k : ℕ) (db : Db)
      → IsLimited token max_uses 0 db
      → IsLimited token max_uses 0 (revoke_token k db).1
  unfolding revoke_token
  revoke_token-IsLimited k db h = elim (Option-cases (lookup k db.directory.tokens)) [
    | inl e ↦ rw (revoke_token, e) h
    | inr (x, e) ↦
        rw (revoke_token, e)
          (revoked-IsLimited token max_uses k x (record x { revoked = true }) db e refl refl h)
  ]

  may_consume-lt :
      (hash : String) (now : ℕ) (x : RegistrationToken)
      → may_consume hash now x ≡ true
      → (x.uses +ℤ pos 1) ≤ℤ x.max_uses
  may_consume-lt hash now x h =
      let less : ltb_ℤ x.uses x.max_uses ≡ true = ground arith in grind (int_laws, less)

  pub consume_token-Leads :
      (hash : String) (now : ℕ)
      → Leads
          (IsLimited token max_uses 0)
          (statement (consume_token hash now))
          (λ x. IsLimited token max_uses (owed_by token x.0))
  unfolding consume_token
  consume_token-Leads hash now = statement-Leads _ (λ db h.
      elim (Option-cases (find_row (may_consume hash now) db.directory.tokens)) [
        | inl e ↦ rw (consume_token, e) tt
        | inr ((k, x), e) ↦
            rw (consume_token, e)
              (updated-IsLimited token max_uses k x (record x { uses = x.uses +ℤ pos 1 })
                (owed_by token k) db
                (find_row-lookup (may_consume hash now) db.directory.tokens k x
                  (ids-IsUnique token max_uses 0 db h) e)
                refl
                (may_consume-lt hash now x
                  (find_row-holds (may_consume hash now) db.directory.tokens k x e))
                (λ same. rw ((eq_key k token).1 same) refl)
                (λ other. ground (arith, other, eq_key k token)) h)
      ])

  module _ (owed : ℕ) where
    pub insert_account-Keeps :
        (a : Account) → Keeps (IsLimited token max_uses owed) (statement (insert_account a))
    unfolding insert_account IsLimited
    insert_account-Keeps a = statement-Keeps _ (λ db h.
        elim (Option-cases (lookup (db.directory.account_seq + 1) db.accounts)) [
          | inl e ↦ rw (insert_account, e) h
          | inr (x, e) ↦ rw (insert_account, e) h
        ])

    pub insert_balance_row :
        (account : ℕ) (db : Db)
        → IsLimited token max_uses owed db
        → IsLimited token max_uses owed (insert_balance account db).1
    unfolding insert_balance IsLimited
    insert_balance_row account db h = elim (Option-cases (lookup account db.balances)) [
      | inl e ↦ rw (insert_balance, e) h
      | inr (x, e) ↦ rw (insert_balance, e) h
    ]

    pub grant_credits-Keeps :
        (c : Bool) (account : ℕ) (credit_grant : ℤ)
        → Keeps (IsLimited token max_uses owed) (only_if c (grant_credits account credit_grant))
    unfolding only_if grant_credits update_balance insert_transaction IsLimited
    grant_credits-Keeps false account credit_grant = record { run = λ w h. h }
    grant_credits-Keeps true account credit_grant = record {
      run = λ w h.
          (bind-Keeps {P = IsLimited token max_uses owed}
              (statement-Keeps (update_balance account (λ b. record b { balance = credit_grant }))
                (λ db k. elim (Option-cases (lookup account db.balances)) [
                  | inl e ↦ rw (update_balance, e) k
                  | inr (x, e) ↦ rw (update_balance, e) k
                ]))
              (λ t. statement-Keeps _ (λ db k. k))).run
            w h;
    }

    pub insert_key-Keeps :
        (hash : String) (rate_limit : ℤ) (user account : Option ℕ)
        → Keeps
            (IsLimited token max_uses owed)
            (statement (insert_key hash rate_limit user account))
    unfolding insert_key IsLimited
    insert_key-Keeps hash rate_limit user account = statement-Keeps _ (λ db h.
        elim (Bool-cases (
          is_some (lookup (db.directory.key_seq + 1) db.directory.keys)
          || is_some (find_row (has_key_hash hash) db.directory.keys)
          || not (refers_to user db.directory.users)
          || not (refers_to account db.accounts))) [
            | inl e ↦ rw (insert_key, e) h
            | inr e ↦ rw (insert_key, e) h
          ])

    pub insert_user-Keeps :
        (u : User) → Keeps (IsLimited token max_uses owed) (statement (insert_user u))
    unfolding insert_user IsLimited
    insert_user-Keeps u = statement-Keeps _ (λ db h.
        elim (Bool-cases (
          is_some (lookup (db.directory.user_seq + 1) db.directory.users)
          || is_some (find_row (has_email u.email) db.directory.users))) [
            | inl e ↦ rw (insert_user, e) h
            | inr e ↦ rw (insert_user, e) h
          ])
