-- ===== src/Store/Registration/Calls.antt =====
-- internal/store: any sequence of the calls that open accounts or write registration tokens, each
-- at its time and under any failures of the driver.
use local_ai_proxy.Prelude.{
  ℕ, ◌≡◌, refl, subst, Bool, Option, none, some, String, List, [], ◌∷◌, arith, ℕ_key, String_key,
}
use local_ai_proxy.Prelude.Int.{ℤ, pos, ◌≤ℤ◌, int_laws}
use local_ai_proxy.Prelude.Dict.{lookup, IsUnique}
use local_ai_proxy.Store.Directory.{RegistrationToken}
use local_ai_proxy.Store.Sql.{Db, World, statement}
use local_ai_proxy.Store.Leads.{Leads, statement-Leads, bind-Leads, pure-Leads}
use local_ai_proxy.Store.Keeps.{
  Keeps, statement-Keeps, pure-Keeps, bind-Keeps, require-Keeps, clock-Keeps, transaction-Keeps,
  Keeps-Leads, transaction-Kept,
}
use local_ai_proxy.Store.Registration.{
  insert_balance_if_missing, insert_event, finish_user, register_user, create_admin_bootstrap,
  create_registration_token, revoke_registration_token, register_service_account,
}
use local_ai_proxy.Store.Users.AdminSteps.{or_email_exists-Keeps}
use local_ai_proxy.Store.Registration.Tokens.{
  opened_with, IsLimited, rollback-IsLimited, insert_token-IsLimited,
}
use local_ai_proxy.Store.Registration.Uses.{
  owed_by, revoke_token-IsLimited, consume_token-Leads, insert_account-Keeps, insert_balance_row,
  grant_credits-Keeps, insert_key-Keeps, insert_user-Keeps,
}

pub data TokenCall : Type 0 where
  issues : String → ℤ → ℤ → Option ℕ → TokenCall
  withdraws : ℕ → TokenCall
  opens_service : String → String → ℤ → TokenCall
  opens_user opens_admin : String → String → TokenCall

unfoldable pub perform : TokenCall → World → World
perform (issues hash credit_grant max_uses expiry) w =
    (create_registration_token hash credit_grant max_uses expiry w).1
perform (withdraws id) w = (revoke_registration_token id w).1
perform (opens_service token key rate_limit) w = (register_service_account token key rate_limit w).1
perform (opens_user email hash) w = (register_user email hash w).1
perform (opens_admin email hash) w = (create_admin_bootstrap email hash w).1

pub record Moment : Type 0 where
  pub at : ℕ
  pub faults : List Bool

-- The latest call stands first.
unfoldable pub run : List (Moment × TokenCall) → World → World
run [] w = w
run ((t, c) ∷ calls) w = perform c (record (run calls w) { now = t.at; faults = t.faults })

module _ (token : ℕ) (max_uses : ℤ) where
  -- The account's row of the audit trail pays what is owed.
  service_event-Leads :
      (k account : ℕ)
      → Leads
          (IsLimited token max_uses (owed_by token k))
          (statement (
            insert_event (record {
              kind = "service";
              account_id = some account;
              user_id = none;
              token_id = some k;
              source = "registration_token";
            })))
          (λ t. IsLimited token max_uses 0)
  unfolding insert_event IsLimited opened_with
  service_event-Leads k account = statement-Leads _ (λ db (unique, t, row, top, low, high).
      (unique, t, row, top, subst (λ n. pos n ≤ℤ t.uses) (omega arith) low, high))

  service-Kept :
      (hash key : String) (rate_limit : ℤ)
      → Keeps (IsLimited token max_uses 0) (register_service_account hash key rate_limit)
  unfolding register_service_account
  service-Kept hash key rate_limit = transaction-Kept (rollback-IsLimited token max_uses) (
      bind-Leads (Keeps-Leads clock-Keeps) (λ now.
        bind-Leads (consume_token-Leads token max_uses hash now) (λ x.
          bind-Leads (Keeps-Leads (insert_account-Keeps token max_uses (owed_by token x.0) _))
            (λ account.
              bind-Leads
                (Keeps-Leads (
                  statement-Keeps _
                    (insert_balance_row token max_uses (owed_by token x.0) account)))
                (λ t.
                  bind-Leads
                    (Keeps-Leads
                      (grant_credits-Keeps token max_uses (owed_by token x.0) _ account x.1))
                    (λ t.
                      bind-Leads
                        (Keeps-Leads (insert_key-Keeps token max_uses (owed_by token x.0) _ _ _ _))
                        (λ id.
                          bind-Leads (service_event-Leads x.0 account)
                            (λ t. pure-Leads _ (λ db h. h)))))))))

  user_event-Keeps :
      (source : String) (account user : ℕ)
      → Keeps (IsLimited token max_uses 0) (finish_user source account user)
  unfolding finish_user insert_balance_if_missing insert_event IsLimited opened_with
  user_event-Keeps source account user =
      bind-Keeps (statement-Keeps _ (insert_balance_row token max_uses 0 account)) (λ t.
        statement-Keeps _ (λ db (unique, t, row, top, low, high).
          (unique, t, row, top, subst (λ n. pos n ≤ℤ t.uses) (omega arith) low, high)))

  user-Keeps : (email hash : String) → Keeps (IsLimited token max_uses 0) (register_user email hash)
  unfolding register_user
  user-Keeps email hash = transaction-Keeps (rollback-IsLimited token max_uses) (
      bind-Keeps (insert_account-Keeps token max_uses 0 _) (λ a.
        bind-Keeps (insert_user-Keeps token max_uses 0 _)
          (λ u. bind-Keeps (user_event-Keeps "public_signup" a u) (λ t. pure-Keeps _))))

  admin-Keeps :
      (email hash : String) → Keeps (IsLimited token max_uses 0) (create_admin_bootstrap email hash)
  unfolding create_admin_bootstrap
  admin-Keeps email hash = transaction-Keeps (rollback-IsLimited token max_uses) (
      bind-Keeps (insert_account-Keeps token max_uses 0 _) (λ a.
        bind-Keeps (or_email_exists-Keeps _ (insert_user-Keeps token max_uses 0 _))
          (λ u. bind-Keeps (user_event-Keeps "admin_bootstrap" a u) (λ t. pure-Keeps _))))

  perform-IsLimited :
      (c : TokenCall) (w : World)
      → IsLimited token max_uses 0 w.db
      → IsLimited token max_uses 0 (perform c w).db
  unfolding perform create_registration_token revoke_registration_token
  perform-IsLimited (issues hash credit_grant top expiry) w h =
      (statement-Keeps _ (insert_token-IsLimited token max_uses _)).run w h
  perform-IsLimited (withdraws id) w h =
      (bind-Keeps (statement-Keeps _ (revoke_token-IsLimited token max_uses id))
          (λ b. require-Keeps b _)).run
        w h
  perform-IsLimited (opens_service hash key rate_limit) w h =
      (service-Kept hash key rate_limit).run w h
  perform-IsLimited (opens_user email hash) w h = (user-Keeps email hash).run w h
  perform-IsLimited (opens_admin email hash) w h = (admin-Keeps email hash).run w h

  run-IsLimited :
      (calls : List (Moment × TokenCall)) (w : World)
      → IsLimited token max_uses 0 w.db
      → IsLimited token max_uses 0 (run calls w).db
  unfolding run
  run-IsLimited [] w h = h
  run-IsLimited ((t, c) ∷ calls) w h =
      perform-IsLimited c (record (run calls w) { now = t.at; faults = t.faults })
        (run-IsLimited calls w h)

  limited-le :
      (db : Db)
      → IsLimited token max_uses 0 db
      → pos (opened_with token db.directory.events) ≤ℤ max_uses
  unfolding IsLimited
  limited-le db (unique, t, row, top, low, high) = grind (int_laws, low, high)

-- A registration token that has been used for each service account opened with it, and not more often
-- than it may, opens no more service accounts than it may: over any calls that issue, use or revoke
-- tokens or register users, whichever calls of the database fail.
pub run-opened_with :
    (token : ℕ) (t : RegistrationToken) (calls : List (Moment × TokenCall)) (w : World)
    → IsUnique w.db.directory.tokens
    → lookup token w.db.directory.tokens ≡ some t
    → pos (opened_with token w.db.directory.events) ≤ℤ t.uses
    → t.uses ≤ℤ t.max_uses
    → pos (opened_with token (run calls w).db.directory.events) ≤ℤ t.max_uses
unfolding IsLimited
run-opened_with token t calls w unique row low high = limited-le token t.max_uses (run calls w).db (
    run-IsLimited token t.max_uses calls w
      (unique, t, row, refl, subst (λ n. pos n ≤ℤ t.uses) (omega arith) low, high))
