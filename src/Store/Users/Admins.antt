-- ===== src/Store/Users/Admins.antt =====
-- internal/store/store.go: an active admin always remains.
use local_ai_proxy.Prelude.{
  ℕ, ◌+◌, ◌≤◌, ◌≡◌, Bool, true, not, ◌||◌, String, List, [], ◌∷◌, arith, ℕ_key, String_key, inl,
  inr, Option-cases, Bool-cases,
}
use local_ai_proxy.Prelude.Dict.{Dict, lookup, delete}
use local_ai_proxy.Prelude.Rows.{find_row, keep_rows}
use local_ai_proxy.Store.Directory.{User, Session}
use local_ai_proxy.Store.Sql.{ok, Db, World, statement}
use local_ai_proxy.Store.Keeps.{
  Keeps, statement-Keeps, pure-Keeps, bind-Keeps, require-Keeps, transaction-Keeps,
}
use local_ai_proxy.Store.Users.{
  is_some, has_token, has_email, is_active_admin, update_user, update_email, purge_other_sessions,
  insert_session, purge_sessions, with_sessions, is_of_another, is_of_another_or_kept, create_user,
  update_user_profile, update_user_password, set_user_active, create_session, delete_session,
  delete_user_sessions, delete_user_sessions_except, update_user_password_and_revoke_sessions,
}
use local_ai_proxy.Store.Users.Calls.{
  UserCall, creates, registers, bootstraps, edits, sets_password, activates, deactivates, assigns,
  opens_session, closes_session, closes_all, closes_others, changes_password, perform, run,
}
use local_ai_proxy.Store.Users.AdminSteps.{
  active_admins, HasAdmin, update_user-HasAdmin, insert_user-HasAdmin, deactivate-HasAdmin,
  assign-HasAdmin, register-HasAdmin, bootstrap-HasAdmin, rollback-HasAdmin,
}

set_user-Keeps :
    (id : ℕ) (f : User → User)
    → ((u : User) → is_active_admin u ≡ true → is_active_admin (f u) ≡ true)
    → Keeps HasAdmin (statement (update_user id f))
set_user-Keeps id f more = statement-Keeps _ (λ db h. update_user-HasAdmin id f db more h)

update_email-HasAdmin :
    (id : ℕ) (email : String) (db : Db) → HasAdmin db → HasAdmin (update_email id email db).1
unfolding update_email
update_email-HasAdmin id email db h =
    elim (Option-cases (find_row (has_email email) (delete id db.directory.users))) [
      | inr (r, e) ↦ elim (Option-cases (lookup id db.directory.users)) [
        | inl n ↦ rw (update_email, e, n) h
        | inr (u, n) ↦ rw (update_email, e, n) h
      ]
      | inl e ↦
          rw (update_email, e)
            (update_user-HasAdmin id (λ u. record u { email = email }) db (λ u on. on) h)
    ]

open_session-HasAdmin : (s : Session) (db : Db) → HasAdmin db → HasAdmin (insert_session s db).1
unfolding insert_session
open_session-HasAdmin s db h =
    elim (Bool-cases (
      is_some (lookup (db.directory.session_seq + 1) db.directory.sessions)
      || is_some (find_row (has_token s.token_hash) db.directory.sessions)
      || not (is_some (lookup s.user_id db.directory.users)))) [
        | inl e ↦ rw (insert_session, e) h
        | inr e ↦ rw (insert_session, e) h
      ]

sessions-HasAdmin :
    (f : Db → Dict ℕ Session) → Keeps HasAdmin (statement (λ db. (ok tt, with_sessions (f db) db)))
sessions-HasAdmin f = statement-Keeps _ (λ db k. k)

-- Each call keeps that there is an active admin.
perform-HasAdmin : (c : UserCall) (w : World) → HasAdmin w.db → HasAdmin (perform c w).db
unfolding perform create_user update_user_profile update_user_password set_user_active
    create_session delete_session delete_user_sessions delete_user_sessions_except
    update_user_password_and_revoke_sessions purge_sessions purge_other_sessions
perform-HasAdmin (creates email hash) w h =
    (statement-Keeps _ (λ db k. insert_user-HasAdmin _ db k)).run w h
perform-HasAdmin (registers email hash) w h = (register-HasAdmin email hash).run w h
perform-HasAdmin (bootstraps email hash) w h = (bootstrap-HasAdmin email hash).run w h
perform-HasAdmin (edits id email) w h =
    (bind-Keeps (statement-Keeps _ (λ db k. update_email-HasAdmin id email db k))
        (λ b. require-Keeps b _)).run
      w h
perform-HasAdmin (sets_password id hash) w h =
    (bind-Keeps (set_user-Keeps id (λ u. record u { password_hash = hash }) (λ u on. on))
        (λ b. require-Keeps b _)).run
      w h
perform-HasAdmin (activates id) w h =
    (bind-Keeps (set_user-Keeps id (λ u. record u { is_active = true }) (λ u on. ground arith))
        (λ b. require-Keeps b _)).run
      w h
perform-HasAdmin (deactivates id) w h = (deactivate-HasAdmin id).run w h
perform-HasAdmin (assigns id role) w h = (assign-HasAdmin id role).run w h
perform-HasAdmin (opens_session id hash expiry) w h =
    (statement-Keeps _ (λ db k. open_session-HasAdmin _ db k)).run w h
perform-HasAdmin (closes_session hash) w h =
    (sessions-HasAdmin (λ db. keep_rows (λ s. not (has_token hash s)) db.directory.sessions)).run w
      h
perform-HasAdmin (closes_all id) w h =
    (sessions-HasAdmin (λ db. keep_rows (is_of_another id) db.directory.sessions)).run w h
perform-HasAdmin (closes_others id kept) w h =
    (sessions-HasAdmin (λ db. keep_rows (is_of_another_or_kept id kept) db.directory.sessions)).run
      w h
perform-HasAdmin (changes_password id hash kept) w h =
    (transaction-Keeps rollback-HasAdmin (
        bind-Keeps (set_user-Keeps id (λ u. record u { password_hash = hash }) (λ u on. on)) (λ b.
          bind-Keeps (require-Keeps b _)
            (λ t. bind-Keeps (statement-Keeps _ (λ db k. k)) (λ t. pure-Keeps _))))).run
      w h

-- If there is an active admin, there is one after any calls that create, edit, deactivate, promote
-- or demote users, whichever calls of the database fail.
pub run-active_admins :
    (calls : List (List Bool × UserCall)) (w : World)
    → 1 ≤ active_admins w.db
    → 1 ≤ active_admins (run calls w).db
unfolding run
run-active_admins [] w h = h
run-active_admins ((faults, c) ∷ calls) w h =
    perform-HasAdmin c (record (run calls w) { faults = faults }) (run-active_admins calls w h)
