-- ===== src/Store/Users/Passwords.antt =====
-- internal/store/store.go: what a change of a password has done, by how it ended.
use local_ai_proxy.Prelude.{
  ℕ, ◌≡◌, refl, sym, ap, ◌∙◌, Bool, true, some, String, ℕ_key, String_key, inl, inr, Option-cases,
}
use local_ai_proxy.Prelude.Dict.{lookup, insert}
use local_ai_proxy.Prelude.Rows.{keep_rows}
use local_ai_proxy.Store.Directory.{User}
use local_ai_proxy.Store.Sql.{Db, World, statement}
use local_ai_proxy.Store.Leads.{Leads, statement-Leads, pure-Leads, bind-Leads, require-Leads}
use local_ai_proxy.Store.Users.{
  update_user, is_of_another_or_kept, purge_other_sessions,
  update_user_password_and_revoke_sessions, with_users,
}
use local_ai_proxy.Store.Users.Outcomes.{Did, transaction-Did}

-- The password of the user is the new one, and a session of the user is left only if it is kept.
abbrev pub Rekeyed : ℕ → String → String → Db → Db → Type 0
Rekeyed id password_hash kept before after =
    (u : User) × (lookup id before.directory.users ≡ some u)
    × (after.directory.users
        ≡ insert id (record u { password_hash = password_hash }) before.directory.users)
    × (after.directory.sessions
        ≡ keep_rows (is_of_another_or_kept id kept) before.directory.sessions)

abbrev PasswordSet : ℕ → String → Db → Bool → Db → Type 0
PasswordSet id password_hash before affected db =
    affected ≡ true
    → (u : User) × (lookup id before.directory.users ≡ some u)
      × (db
          ≡ with_users
              (insert id (record u { password_hash = password_hash }) before.directory.users)
              before)

password-Leads :
    (id : ℕ) (password_hash : String) (before : Db)
    → Leads
        (λ db. db ≡ before)
        (statement (update_user id (λ u. record u { password_hash = password_hash })))
        (PasswordSet id password_hash before)
unfolding update_user
password-Leads id password_hash before = statement-Leads _ (λ db same.
    elim (Option-cases (lookup id db.directory.users)) [
      | inl e ↦ rw (update_user, e) (λ on. absurd (cc on))
      | inr (u, e) ↦
          rw (update_user, e)
            (λ on. (u, ap (λ d. lookup id d.directory.users) (sym same) ∙ e, rw same refl))
    ])

-- UpdateUserPasswordAndRevokeSessions
pub update_user_password_and_revoke_sessions-Did :
    (id : ℕ) (password_hash kept : String) (w : World)
    → Did
        (Rekeyed id password_hash kept w.db)
        w.db
        (update_user_password_and_revoke_sessions id password_hash kept w)
unfolding update_user_password_and_revoke_sessions purge_other_sessions
update_user_password_and_revoke_sessions-Did id password_hash kept w =
    transaction-Did (Rekeyed id password_hash kept w.db) _ w (
      bind-Leads (password-Leads id password_hash w.db) (λ affected.
        bind-Leads {R = λ t. PasswordSet id password_hash w.db true}
          (require-Leads _ _ (λ on db s. let a = s in rw on at a))
          (λ t.
            bind-Leads {R = λ t. Rekeyed id password_hash kept w.db}
              (statement-Leads _
                (λ db s. let (u, e, now) = s refl in (u, e, rw now refl, rw now refl)))
              (λ t. pure-Leads _ (λ db s. s)))))
