-- ===== src/Store/Users/Calls.antt =====
-- internal/store: any sequence of the calls that write users or sessions, each under any failures
-- of the driver. SetUserActive is called to activate only, as internal/admin does.
use local_ai_proxy.Prelude.{ℕ, Bool, true, String, List, [], ◌∷◌}
use local_ai_proxy.Store.Sql.{World}
use local_ai_proxy.Store.Users.{
  create_user, update_user_profile, update_user_password, set_user_active, deactivate_user_guarded,
  update_user_role_guarded, create_session, delete_session, delete_user_sessions,
  delete_user_sessions_except, update_user_password_and_revoke_sessions,
}
use local_ai_proxy.Store.Registration.{register_user, create_admin_bootstrap}

pub data UserCall : Type 0 where
  creates registers bootstraps : String → String → UserCall
  edits : ℕ → String → UserCall
  sets_password : ℕ → String → UserCall
  activates deactivates : ℕ → UserCall
  assigns : ℕ → String → UserCall
  opens_session : ℕ → String → ℕ → UserCall
  closes_session : String → UserCall
  closes_all : ℕ → UserCall
  closes_others : ℕ → String → UserCall
  changes_password : ℕ → String → String → UserCall

unfoldable pub perform : UserCall → World → World
perform (creates email hash) w = (create_user email hash w).1
perform (registers email hash) w = (register_user email hash w).1
perform (bootstraps email hash) w = (create_admin_bootstrap email hash w).1
perform (edits id email) w = (update_user_profile id email w).1
perform (sets_password id hash) w = (update_user_password id hash w).1
perform (activates id) w = (set_user_active id true w).1
perform (deactivates id) w = (deactivate_user_guarded id w).1
perform (assigns id role) w = (update_user_role_guarded id role w).1
perform (opens_session id hash expiry) w = (create_session id hash expiry w).1
perform (closes_session hash) w = (delete_session hash w).1
perform (closes_all id) w = (delete_user_sessions id w).1
perform (closes_others id kept) w = (delete_user_sessions_except id kept w).1
perform (changes_password id hash kept) w =
    (update_user_password_and_revoke_sessions id hash kept w).1

-- The latest call stands first, with the driver's failures during it.
unfoldable pub run : List (List Bool × UserCall) → World → World
run [] w = w
run ((faults, c) ∷ calls) w = perform c (record (run calls w) { faults = faults })
