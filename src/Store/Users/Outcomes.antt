-- ===== src/Store/Users/Outcomes.antt =====
-- internal/store/store.go: what each call on the users and sessions has done, by how it ended.
use local_ai_proxy.Prelude.{
  ℕ, ◌<◌, ◌≡◌, ◌≢◌, refl, ap, eq_key, ◌∙◌, Bool, true, false, not, ◌&&◌, ◌||◌, ◌⊎◌, some, String,
  arith, ◌==◌, ℕ_key, String_key, if◌then◌else◌, inl, inr, Bool-cases,
}
use local_ai_proxy.Prelude.Dict.{lookup, insert}
use local_ai_proxy.Prelude.Rows.{keep_rows, count_rows}
use local_ai_proxy.Store.Directory.{User}
use local_ai_proxy.Store.Sql.{
  Result, ok, err, Db, World, Sql, ◌>>=◌, require, statement, transaction, rollback, Ending,
}
use local_ai_proxy.Store.Leads.{
  Leads, Ends, Finishes, statement-Leads, pure-Leads, bind-Leads, require-Leads,
  transaction-Finishes,
}
use local_ai_proxy.Store.Users.{
  is_active_admin, only_if, lock_admins, select_user, count_active_admins, require_another_admin,
  update_user, set_user, is_of_another, purge_sessions, deactivate_user_guarded, change_role,
  change_role_if, update_user_role_guarded, with_users,
}

-- The users and the sessions are those from before.
pub record AreSame (before after : Db) : Type 0 where
  pub users : after.directory.users ≡ before.directory.users
  pub sessions : after.directory.sessions ≡ before.directory.sessions

only_if-Leads :
    {P : Db → Type 0} {Q : Unit {0} → Db → Type 0} (c : Bool) (m : Sql (Unit {0}))
    → (c ≡ true → Leads P m Q)
    → (c ≡ false → (db : Db) → P db → Q tt db)
    → Leads P (only_if c m) Q
unfolding only_if
only_if-Leads true m h k = record { run = λ w p. (h refl).run w p }
only_if-Leads false m h k = record { run = λ w p. k refl w.db p }

-- The tables are those from before, and a row is there.
abbrev Found : ℕ → Db → User → Db → Type 0
Found id before u db = (db ≡ before) × (lookup id before.directory.users ≡ some u)

-- The same, and if `c` then another active admin is there.
abbrev Spared : Bool → ℕ → Db → User → Db → Type 0
Spared c id before u db =
    (db ≡ before)
    × (lookup id before.directory.users ≡ some u)
    × (c ≡ true → 1 < count_rows is_active_admin before.directory.users)

lock-Leads : (before : Db) → Leads (λ db. db ≡ before) (statement lock_admins) (λ t db. db ≡ before)
unfolding lock_admins
lock-Leads before = statement-Leads _ (λ db e. e)

select-Leads :
    (id : ℕ) (before : Db)
    → Leads (λ db. db ≡ before) (statement (select_user id)) (Found id before)
unfolding select_user
select-Leads id before = statement-Leads _ (λ db e. ground arith)

-- The number of active admins has been read.
abbrev Counted : ℕ → Db → User → ℕ → Db → Type 0
Counted id before u n db =
    Found id before u db × (n ≡ count_rows is_active_admin before.directory.users)

another-Leads :
    (c : Bool) (id : ℕ) (before : Db) (u : User)
    → Leads (Found id before u) (only_if c require_another_admin) (λ t. Spared c id before u)
unfolding require_another_admin count_active_admins
another-Leads c id before u =
    only_if-Leads _ _
      (λ on.
        bind-Leads {R = Counted id before u} (statement-Leads _ (λ db f. (f, rw f.0 refl)))
          (λ n. require-Leads _ _ (λ more db f. (f.0.0, f.0.1, λ same. ground arith))))
      (λ off db f. (f.0, f.1, λ on. absurd (cc on)))

-- A call has failed and changed nothing, or it has answered and C holds of the tables.
abbrev pub Did : (Db → Type 0) → Db → Result (Unit {0}) × World → Type 0
Did C before (ok t, w) = C w.db
Did C before (err e, w) = AreSame before w.db

pub transaction-Did :
    (C : Db → Type 0) (body : Sql (Ending (Unit {0}))) (w : World)
    → Leads (λ db. db ≡ w.db) body (Ends (λ t. C) (λ t. ⊥))
    → Did C w.db (transaction body w)
unfolding rollback
transaction-Did C body w h =
    did (transaction body w) (transaction-Finishes (λ t. C) (λ t. ⊥) body w h)
  where
    did :
        (r : Result (Unit {0}) × World) → Finishes (λ t. C) (λ t. ⊥) w.db r.0 r.1.db → Did C w.db r
    did (ok t, v) (inl c) = c
    did (ok t, v) (inr f) = absurd f.0
    did (err e, v) (after, same) = record { users = rw same refl; sessions = rw same refl }

-- The row of a user has become `f` of it, if `g` not for the only active admin, and if `c` the
-- sessions of the user are gone.
abbrev pub Changed : Bool → Bool → ℕ → (User → User) → Db → User → Db → Type 0
Changed g c id f before u after =
    (lookup id before.directory.users ≡ some u)
    × (g ≡ true → 1 < count_rows is_active_admin before.directory.users)
    × (after.directory.users ≡ insert id (f u) before.directory.users)
    × (after.directory.sessions ≡ (
        if c
        then keep_rows (is_of_another id) before.directory.sessions
        else before.directory.sessions))

abbrev pub Deactivated : ℕ → Db → Db → Type 0
Deactivated id before after =
    (u : User) × Changed (is_active_admin u) u.is_active id (λ v. record v { is_active = false })
      before u after

-- The same after the update of the row, which `f` is of.
abbrev Updated : Bool → ℕ → (User → User) → Db → User → Db → Type 0
Updated c id f before u db =
    (lookup id before.directory.users ≡ some u)
    × (c ≡ true → 1 < count_rows is_active_admin before.directory.users)
    × (db ≡ with_users (insert id (f u) before.directory.users) before)

set_row :
    (id : ℕ) (f : User → User) (before : Db) (u : User)
    → lookup id before.directory.users ≡ some u
    → (update_user id f before).1 ≡ with_users (insert id (f u) before.directory.users) before
unfolding update_user
set_row id f before u e = rw (update_user, e) refl

set-Leads :
    (c : Bool) (id : ℕ) (f : User → User) (before : Db) (u : User)
    → Leads (Spared c id before u) (statement (set_user id f)) (λ t. Updated c id f before u)
unfolding set_user update_user
set-Leads c id f before u =
    statement-Leads _
      (λ db s. (s.1, s.2, ap (λ d. (update_user id f d).1) s.0 ∙ set_row id f before u s.1))

purge-Leads :
    (g c : Bool) (id : ℕ) (f : User → User) (before : Db) (u : User)
    → Leads
        (Updated g id f before u)
        (only_if c (statement (purge_sessions id)))
        (λ t. Changed g c id f before u)
unfolding purge_sessions
purge-Leads g c id f before u =
    only_if-Leads _ _ (λ on. statement-Leads _ (λ db s. (s.0, s.1, rw s.2 refl, rw (s.2, on) refl)))
      (λ off db s. (s.0, s.1, rw s.2 refl, rw (s.2, off) refl))

-- DeactivateUserGuarded
pub deactivate_user_guarded-Did :
    (id : ℕ) (w : World) → Did (Deactivated id w.db) w.db (deactivate_user_guarded id w)
unfolding deactivate_user_guarded
deactivate_user_guarded-Did id w = transaction-Did (Deactivated id w.db) _ w (
    bind-Leads (lock-Leads w.db) (λ t. bind-Leads (select-Leads id w.db) (λ u.
      bind-Leads (another-Leads (is_active_admin u) id w.db u) (λ t.
        bind-Leads (set-Leads (is_active_admin u) id (λ v. record v { is_active = false }) w.db u)
          (λ t.
            bind-Leads
              (purge-Leads (is_active_admin u) u.is_active id (λ v. record v { is_active = false })
                w.db u)
              (λ t. pure-Leads _ (λ db s. (u, s))))))))

-- The role is `new_role` from before, and nothing has changed, or it has changed to that.
abbrev pub Assigned : ℕ → String → Db → Db → Type 0
Assigned id new_role before after =
    (u : User) × (((u.role ≡ new_role)
        × (lookup id before.directory.users ≡ some u)
        × (after ≡ before))
      ⊎ ((u.role ≢ new_role)
          × Changed (is_active_admin u && not (new_role == "admin")) true id
              (λ v. record v { role = new_role }) before u after))

abbrev Ended : ℕ → String → Db → Ending (Unit {0}) → Db → Type 0
Ended id new_role before = Ends (λ t. Assigned id new_role before) (λ t. ⊥)

change_role-Leads :
    (id : ℕ) (new_role : String) (before : Db) (u : User)
    → u.role ≢ new_role
    → Leads (Found id before u) (change_role id new_role u) (Ended id new_role before)
unfolding change_role purge_sessions
change_role-Leads id new_role before u ne =
    bind-Leads (another-Leads (is_active_admin u && not (new_role == "admin")) id before u) (λ t.
      bind-Leads
        (set-Leads (is_active_admin u && not (new_role == "admin")) id
          (λ v. record v { role = new_role }) before u)
        (λ t.
          bind-Leads
            {R = λ t.
              Changed (is_active_admin u && not (new_role == "admin")) true id
                (λ v. record v { role = new_role }) before u}
            (statement-Leads _ (λ db s. (s.0, s.1, rw s.2 refl, rw s.2 refl)))
            (λ t. pure-Leads _ (λ db s. (u, inr (ne, s))))))

change_role_if-Leads :
    (id : ℕ) (new_role : String) (before : Db) (u : User) (same : Bool)
    → (u.role == new_role) ≡ same
    → Leads (Found id before u) (change_role_if same id new_role u) (Ended id new_role before)
unfolding change_role_if
change_role_if-Leads id new_role before u true e =
    pure-Leads _ (λ db f. (u, inl ((eq_key u.role new_role).0 e, f.1, f.0)))
change_role_if-Leads id new_role before u false e =
    change_role-Leads id new_role before u (ground (arith, e, eq_key u.role new_role))

-- UpdateUserRoleGuarded
pub update_user_role_guarded-Did :
    (id : ℕ) (new_role : String) (w : World)
    → Did (Assigned id new_role w.db) w.db (update_user_role_guarded id new_role w)
unfolding update_user_role_guarded ◌>>=◌ require
update_user_role_guarded-Did id new_role w =
    elim (Bool-cases (new_role == "admin" || new_role == "user")) [
      | inr e ↦ rw (update_user_role_guarded, e) (record { users = refl; sessions = refl })
      | inl e ↦
          rw (update_user_role_guarded, e)
            (transaction-Did (Assigned id new_role w.db) _ w (
              bind-Leads (lock-Leads w.db) (λ t.
                bind-Leads (select-Leads id w.db)
                  (λ u. change_role_if-Leads id new_role w.db u (u.role == new_role) refl))))
    ]
