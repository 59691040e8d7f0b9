-- ===== src/Store/Users/AdminSteps.antt =====
-- internal/store/store.go: what each step does to the number of active admins.
use local_ai_proxy.Prelude.{
  ℕ, ◌+◌, ◌≤◌, ◌<◌, ◌≡◌, Bool, true, false, not, ◌&&◌, String, arith, ◌==◌, ℕ_key, String_key,
  if◌then◌else◌, inl, inr, Option-cases,
}
use local_ai_proxy.Prelude.Dict.{lookup}
use local_ai_proxy.Prelude.Rows.{count_rows, count_rows-insert, find_row}
use local_ai_proxy.Store.Directory.{User}
use local_ai_proxy.Store.Sql.{Result, ok, err, Db, World, Sql, statement, rollback}
use local_ai_proxy.Store.Keeps.{Keeps, statement-Keeps, pure-Keeps, bind-Keeps, transaction-Keeps}
use local_ai_proxy.Store.Users.{
  has_email, is_active_admin, insert_user, update_user, deactivate_user_guarded,
  update_user_role_guarded,
}
use local_ai_proxy.Store.Users.Outcomes.{
  Did, Changed, Deactivated, Assigned, deactivate_user_guarded-Did, update_user_role_guarded-Did,
}
use local_ai_proxy.Store.Registration.{
  new_account, conflict_of, insert_account, insert_balance, insert_balance_if_missing, insert_event,
  finish_user, or_email_exists, relabel, register_user, create_admin_bootstrap,
}

abbrev pub active_admins : Db → ℕ
active_admins db = count_rows is_active_admin db.directory.users

abbrev pub HasAdmin : Db → Type 0
HasAdmin db = 1 ≤ active_admins db

pub insert_user-HasAdmin : (u : User) (db : Db) → HasAdmin db → HasAdmin (insert_user u db).1
unfolding insert_user
insert_user-HasAdmin u db h =
    elim (Option-cases (lookup (db.directory.user_seq + 1) db.directory.users)) [
      | inr (v, e) ↦ rw (insert_user, e) h
      | inl e ↦ elim (Option-cases (find_row (has_email u.email) db.directory.users)) [
        | inr (v, f) ↦ rw (insert_user, e, f) h
        | inl f ↦
            rw (insert_user, e, f)
              (grind (
                arith,
                h,
                e,
                count_rows-insert is_active_admin (db.directory.user_seq + 1) u db.directory.users,
              ))
      ]
    ]

-- An update that makes no active admin less.
pub update_user-HasAdmin :
    (id : ℕ) (f : User → User) (db : Db)
    → ((u : User) → is_active_admin u ≡ true → is_active_admin (f u) ≡ true)
    → HasAdmin db
    → HasAdmin (update_user id f db).1
unfolding update_user
update_user-HasAdmin id f db more h = elim (Option-cases (lookup id db.directory.users)) [
  | inl e ↦ rw (update_user, e) h
  | inr (u, e) ↦
      rw (update_user, e)
        (kept_count (is_active_admin u) (is_active_admin (f u)) (more u)
          (let a = count_rows-insert is_active_admin id (f u) db.directory.users in rw e at a) h)
]
  where
    kept_count :
        {n m : ℕ} (b c : Bool)
        → (b ≡ true → c ≡ true)
        → m + (if b then 1 else 0) ≡ n + (if c then 1 else 0)
        → 1 ≤ n
        → 1 ≤ m
    kept_count b c more e h = ground arith

pub rollback-HasAdmin : (before after : Db) → HasAdmin before → HasAdmin (rollback before after)
unfolding rollback
rollback-HasAdmin before after h = h

Did-HasAdmin :
    (C : Db → Type 0) (before : Db) (r : Result (Unit {0}) × World)
    → Did C before r
    → HasAdmin before
    → ((db : Db) → C db → HasAdmin db)
    → HasAdmin r.1.db
Did-HasAdmin C before (ok t, w) d h k = k w.db d
Did-HasAdmin C before (err e, w) d h k = rw (d.users) h

-- A change of a row that is guarded where it may end an active admin.
Changed-HasAdmin :
    (g c : Bool) (id : ℕ) (f : User → User) (before : Db) (u : User) (after : Db)
    → (is_active_admin u ≡ true → g ≡ false → is_active_admin (f u) ≡ true)
    → HasAdmin before
    → Changed g c id f before u after
    → HasAdmin after
Changed-HasAdmin g c id f before u after safe h (e, guard, users, sessions) = rw users (
    kept_count g (is_active_admin u) (is_active_admin (f u)) safe guard
      (let a = count_rows-insert is_active_admin id (f u) before.directory.users in rw e at a) h)
  where
    kept_count :
        {n m : ℕ} (g b c : Bool)
        → (b ≡ true → g ≡ false → c ≡ true)
        → (g ≡ true → 1 < n)
        → m + (if b then 1 else 0) ≡ n + (if c then 1 else 0)
        → 1 ≤ n
        → 1 ≤ m
    kept_count g b c safe guard e h = ground arith

pub deactivate-HasAdmin : (id : ℕ) → Keeps HasAdmin (deactivate_user_guarded id)
deactivate-HasAdmin id = record {
  run = λ w h.
      Did-HasAdmin (Deactivated id w.db) w.db (deactivate_user_guarded id w)
        (deactivate_user_guarded-Did id w) h
        (λ db d.
          Changed-HasAdmin (is_active_admin d.0) d.0.is_active id
            (λ v. record v { is_active = false }) w.db d.0 db (λ on off. absurd (cc (on, off))) h
            d.1);
}

pub assign-HasAdmin : (id : ℕ) (role : String) → Keeps HasAdmin (update_user_role_guarded id role)
assign-HasAdmin id role = record {
  run = λ w h.
      Did-HasAdmin (Assigned id role w.db) w.db (update_user_role_guarded id role w)
        (update_user_role_guarded-Did id role w) h (assigned w.db h);
}
  where
    assigned :
        (before : Db) → HasAdmin before → (db : Db) → Assigned id role before db → HasAdmin db
    assigned before h db (u, inl (same, found, e)) = rw e h
    assigned before h db (u, inr (ne, d)) =
        Changed-HasAdmin (is_active_admin u && not (role == "admin")) true id
          (λ v. record v { role = role }) before u db (λ on off. ground arith) h d

finish_user-HasAdmin : (source : String) (a u : ℕ) → Keeps HasAdmin (finish_user source a u)
unfolding finish_user insert_balance_if_missing insert_balance insert_event
finish_user-HasAdmin source a u =
    bind-Keeps
      (statement-Keeps _ (λ db h. elim (Option-cases (lookup a db.balances)) [
        | inl e ↦ rw (insert_balance, e) h
        | inr (b, e) ↦ rw (insert_balance, e) h
      ]))
      (λ t. statement-Keeps _ (λ db h. h))

insert_account-HasAdmin :
    (managed : Bool) → Keeps HasAdmin (statement (insert_account (new_account managed)))
unfolding insert_account
insert_account-HasAdmin managed = statement-Keeps _ (λ db h.
    elim (Option-cases (lookup (db.directory.account_seq + 1) db.accounts)) [
      | inl e ↦ rw (insert_account, e) h
      | inr (b, e) ↦ rw (insert_account, e) h
    ])

pub or_email_exists-Keeps :
    {A : Type 0} {P : Db → Type 0} (m : Sql A) → Keeps P m → Keeps P (or_email_exists m)
unfolding or_email_exists
or_email_exists-Keeps {A} {P} m h = record { run = λ w p. relabeled (m w) (h.run w p) }
  where
    relabeled : (r : Result A × World) → P r.1.db → P (relabel conflict_of r).1.db
    relabeled (ok x, w) p = p
    relabeled (err e, w) p = p

pub register-HasAdmin : (email hash : String) → Keeps HasAdmin (register_user email hash)
unfolding register_user
register-HasAdmin email hash = transaction-Keeps rollback-HasAdmin (
    bind-Keeps (insert_account-HasAdmin false) (λ a.
      bind-Keeps (statement-Keeps _ (λ db h. insert_user-HasAdmin _ db h))
        (λ u. bind-Keeps (finish_user-HasAdmin "public_signup" a u) (λ t. pure-Keeps _))))

pub bootstrap-HasAdmin : (email hash : String) → Keeps HasAdmin (create_admin_bootstrap email hash)
unfolding create_admin_bootstrap
bootstrap-HasAdmin email hash = transaction-Keeps rollback-HasAdmin (
    bind-Keeps (insert_account-HasAdmin false) (λ a.
      bind-Keeps (or_email_exists-Keeps _ (statement-Keeps _ (λ db h. insert_user-HasAdmin _ db h)))
        (λ u. bind-Keeps (finish_user-HasAdmin "admin_bootstrap" a u) (λ t. pure-Keeps _))))
