-- ===== src/UserApi/Examples.antt =====
-- Tests of internal/user at concrete users and sessions.
use local_ai_proxy.Prelude.{
  ◌≡◌, refl, true, false, false≢true, none, some, [], ◌∷◌, arith, eq_key, ℕ_key, String_key, ◌==◌,
}
use local_ai_proxy.Prelude.Int.{pos}
use local_ai_proxy.Prelude.Dict.{lookup, insert}
use local_ai_proxy.Prelude.Rows.{count_rows, find_row, keep_rows}
use local_ai_proxy.AuthLimit.{allow_login_email, try_acquire_bcrypt, release_bcrypt}
use local_ai_proxy.Store.Registration.{insert_account, new_account}
use local_ai_proxy.Store.Directory.{no_directory, User, Session}
use local_ai_proxy.Store.Sql.{
  ok, Db, World, answer, statement, transaction, rollback, ◌>>=◌, pure, require,
}
use local_ai_proxy.Store.Users.{
  has_email, only_if, lock_admins, select_user, count_active_admins, require_another_admin,
  set_user, update_user, purge_sessions, purge_other_sessions, deactivate_user_guarded, change_role,
  change_role_if, update_user_role_guarded, get_user_by_email, create_session, insert_session,
  update_user_password_and_revoke_sessions,
}
use local_ai_proxy.Store.Keys.{set_key, update_key, revoke_key}
use local_ai_proxy.Store.Keys.Calls.{sets_rate_limit, run}
use local_ai_proxy.UserApi.KeyAuth.{IsNotKey, revoked-IsNotKey}
use local_ai_proxy.UserApi.Replies.{Portal, Crypto}
use local_ai_proxy.UserApi.Sessions.{
  auth_middleware, admitted, extract_session_token, session_middleware, session_duration_for,
}
use local_ai_proxy.UserApi.Gate.{IsGated, IsNotAs, session_middleware-IsGated}
use local_ai_proxy.UserApi.Revoked.{deactivated-IsNotAs, reassigned-IsNotAs}
use local_ai_proxy.UserApi.Login.{
  LoginResponse, login, login_allowed, login_found, login_slot, login_user, login_active,
  login_compared, start_session, session_created,
}
use local_ai_proxy.UserApi.LoggedIn.{IsLogin, login-IsLogin}
use local_ai_proxy.UserApi.RoundTrip.{bearer_header, calm, login-admitted}
use local_ai_proxy.UserApi.Account.{
  change_password, password_slot, password_compared, password_hashed, ended,
}
use local_ai_proxy.UserApi.Rekeyed.{IsRekeyed, change_password-IsRekeyed, change_password-IsNotAs}

abbrev ada : User
ada = record {
  email = "ada@example.org";
  password_hash = "a";
  role = "admin";
  is_active = true;
  account_id = none;
}

abbrev bob : User
bob = record ada { email = "bob@example.org"; password_hash = "old-secret"; role = "user" }

abbrev bobs_session : Session
bobs_session = record { user_id = 2; token_hash = "t"; expires_at = 100 }

abbrev two_users : World
two_users = record {
  db = record {
    accounts = [];
    balances = [];
    holds = [];
    transactions = [];
    hold_seq = 0;
    nodes = [];
    node_seq = 0;
    requests = [];
    request_seq = 0;
    directory = record no_directory {
      users = (1, ada) ∷ (2, bob) ∷ [];
      sessions =
          (1, bobs_session)
          ∷ (2, record { user_id = 2; token_hash = "stolen"; expires_at = 100 })
          ∷ [];
      user_seq = 2;
      session_seq = 2;
    };
  };
  now = 5;
  faults = [];
}

-- A hash is the password itself.
abbrev plain : Crypto
plain = record {
  compare_password = λ hash password. hash == password;
  generate = λ password. some password;
  digest = λ token. token;
  email_digest = λ email. email;
}

abbrev portal : Portal
portal = record { world = two_users; guard = none }

session_middleware-IsGated_example :
    IsGated "t" two_users (session_middleware (λ token. token) "Bearer t" "" two_users)
unfolding extract_session_token
session_middleware-IsGated_example =
    session_middleware-IsGated (λ token. token) "Bearer t" "" two_users

deactivated-IsNotAs_example :
    IsNotAs 2
      (session_middleware (λ token. token) "Bearer t" "" (deactivate_user_guarded 2 two_users).1).0
unfolding deactivate_user_guarded transaction rollback statement answer ◌>>=◌ pure require only_if
    lock_admins select_user count_active_admins require_another_admin set_user update_user
    purge_sessions lookup insert count_rows keep_rows
deactivated-IsNotAs_example =
    deactivated-IsNotAs (λ token. token) "Bearer t" "" 2 two_users bob refl
      (deactivate_user_guarded 2 two_users).1 refl refl refl

reassigned-IsNotAs_example :
    IsNotAs 2
      (session_middleware
        (λ token. token)
        ""
        "t"
        (update_user_role_guarded 2 "admin" two_users).1).0
unfolding update_user_role_guarded change_role_if change_role transaction rollback statement answer
    ◌>>=◌ pure require only_if lock_admins select_user count_active_admins require_another_admin
    set_user update_user purge_sessions lookup insert count_rows keep_rows
reassigned-IsNotAs_example =
    reassigned-IsNotAs (λ token. token) "" "t" 2 two_users bob refl
      (update_user_role_guarded 2 "admin" two_users).1 "admin"
      (λ e. false≢true ((eq_key "user" "admin").1 e)) refl refl

login-IsLogin_example :
    IsLogin plain "bob@example.org" "old-secret" two_users
      (login plain (some "fresh") "bob@example.org" "old-secret" portal)
login-IsLogin_example = login-IsLogin plain (some "fresh") "bob@example.org" "old-secret" portal

abbrev bobs_login : LoginResponse
bobs_login = record { token = "fresh"; expires_in = 604800; user_id = 2; role = "user" }

-- The tables after the login, when an account has been opened since.
abbrev logged_in : Db
logged_in =
    (statement (insert_account (new_account false))
      (login plain (some "fresh") "bob@example.org" "old-secret" portal).1.world).1.db

login-admitted_example :
    (u : User) × (s : Session) × (find_row
        (has_email "bob@example.org")
        two_users.db.directory.users
      ≡ some (2, u))
    × ((session_middleware (λ token. token) (bearer_header "fresh") "" (calm logged_in 7)).0
        ≡ ok (admitted 2 u s))
unfolding login login_allowed login_found login_slot login_user login_active login_compared
    start_session session_created allow_login_email try_acquire_bcrypt release_bcrypt
    get_user_by_email create_session insert_session statement answer lookup insert find_row
    session_duration_for insert_account
login-admitted_example =
    login-admitted plain (some "fresh") "bob@example.org" "old-secret" portal
      (login plain (some "fresh") "bob@example.org" "old-secret" portal).1 200 bobs_login 7
      logged_in (refl, (refl, tt)) refl (λ e. false≢true ((eq_key "fresh" "").1 e)) (omega arith)
      refl refl

change_password-IsRekeyed_example :
    IsRekeyed plain 2 bob bobs_session "old-secret" "new-secret" two_users.db
      (change_password plain 2 bob bobs_session "old-secret" "new-secret" portal)
change_password-IsRekeyed_example =
    change_password-IsRekeyed plain 2 bob bobs_session "old-secret" "new-secret" portal

change_password-IsNotAs_example :
    IsNotAs 2
      (session_middleware
        (λ token. token)
        "Bearer stolen"
        ""
        (change_password plain 2 bob bobs_session "old-secret" "new-secret" portal).1.world).0
unfolding change_password password_slot password_compared password_hashed ended try_acquire_bcrypt
    release_bcrypt update_user_password_and_revoke_sessions update_user purge_other_sessions
    transaction rollback statement answer ◌>>=◌ pure require lookup insert keep_rows
    extract_session_token
change_password-IsNotAs_example =
    change_password-IsNotAs plain 2 bob bobs_session "old-secret" "new-secret" portal
      "Bearer stolen" ""
      (change_password plain 2 bob bobs_session "old-secret" "new-secret" portal).1.world 200
      (change_password plain 2 bob bobs_session "old-secret" "new-secret" portal).1 refl
      (λ e. false≢true ((eq_key "stolen" "t").1 e)) refl

-- The same tables with a key.
abbrev one_key : World
one_key = record two_users {
  db = record two_users.db {
    directory = record two_users.db.directory {
      keys =
          (
            1,
            record {
              key_hash = "sk";
              rate_limit = pos 60;
              revoked = false;
              user_id = some 2;
              account_id = none;
              session_token_limit = none;
              trust_user_headers = false;
            },
          )
          ∷ [];
      key_seq = 1;
    };
  };
}

-- The key is limited anew after it has been revoked.
revoked-IsNotKey_example :
    IsNotKey 1
      (auth_middleware
        (λ token. token)
        "Bearer sk"
        (record (run (([], sets_rate_limit 1 (pos 90)) ∷ []) (revoke_key 1 one_key).1) {
          faults = [];
        })).0
unfolding revoke_key set_key update_key lookup insert statement answer ◌>>=◌ require
revoked-IsNotKey_example =
    revoked-IsNotKey (λ token. token) "Bearer sk" 1 (([], sets_rate_limit 1 (pos 90)) ∷ []) []
      one_key (refl, tt) refl
