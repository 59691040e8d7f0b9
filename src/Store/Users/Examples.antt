-- ===== src/Store/Users/Examples.antt =====
-- Tests of the users of internal/store/store.go at concrete tables.
use local_ai_proxy.Prelude.{◌≤◌, ◌≡◌, refl, true, none, [], ◌∷◌, arith, ℕ_key, String_key}
use local_ai_proxy.Prelude.Dict.{lookup, insert}
use local_ai_proxy.Prelude.Rows.{count_rows, keep_rows}
use local_ai_proxy.Store.Directory.{no_directory, User}
use local_ai_proxy.Store.Sql.{
  last_active_admin, err, World, answer, statement, transaction, rollback, ◌>>=◌, pure, require,
}
use local_ai_proxy.Store.Users.{
  is_active_admin, only_if, lock_admins, select_user, count_active_admins, require_another_admin,
  set_user, update_user, purge_sessions, deactivate_user_guarded,
}
use local_ai_proxy.Store.Users.Calls.{deactivates, assigns, activates, run}
use local_ai_proxy.Store.Users.Admins.{run-active_admins}

abbrev ada : User
ada = record {
  email = "ada@example.org";
  password_hash = "a";
  role = "admin";
  is_active = true;
  account_id = none;
}

abbrev bob : User
bob = record ada { email = "bob@example.org"; password_hash = "b"; role = "user" }

abbrev two_users : World
two_users = record {
  db = record {
    accounts = [];
    balances = [];
    holds = [];
    transactions = [];
    hold_seq = 0;
    nodes = [];
    node_seq = 0;
    requests = [];
    request_seq = 0;
    directory = record no_directory {
      users = (1, ada) ∷ (2, bob) ∷ [];
      sessions = (1, record { user_id = 2; token_hash = "t"; expires_at = 100 }) ∷ [];
      user_seq = 2;
      session_seq = 1;
    };
  };
  now = 5;
  faults = [];
}

-- The only active admin stays.
last_admin_stays : (deactivate_user_guarded 1 two_users).0 ≡ err last_active_admin
unfolding deactivate_user_guarded transaction rollback statement answer ◌>>=◌ pure require only_if
    lock_admins select_user count_active_admins require_another_admin set_user update_user
    purge_sessions lookup insert count_rows keep_rows
last_admin_stays = refl

-- Another user loses the session with the flag.
bob_is_out : (deactivate_user_guarded 2 two_users).1.db.directory.sessions ≡ []
unfolding deactivate_user_guarded transaction rollback statement answer ◌>>=◌ pure require only_if
    lock_admins select_user count_active_admins require_another_admin set_user update_user
    purge_sessions lookup insert count_rows keep_rows
bob_is_out = refl

-- The admin is demoted after the other user has been promoted, while a call fails in between.
run-active_admins_example :
    1
    ≤ count_rows is_active_admin
        (run
          (([], deactivates 1) ∷ ([], assigns 2 "admin") ∷ (true ∷ [], activates 2) ∷ [])
          two_users).db.directory.users
unfolding count_rows
run-active_admins_example =
    run-active_admins
      (([], deactivates 1) ∷ ([], assigns 2 "admin") ∷ (true ∷ [], activates 2) ∷ []) two_users
      (omega arith)
