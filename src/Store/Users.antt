-- ===== src/Store/Users.antt =====
-- internal/store/store.go: the users and their sessions. The advisory lock of the guarded updates
-- makes each of their transactions one step. No caller gives a user an account that does not
-- exist, so that constraint is left out; the other constraints of the tables are not.
pub mod Outcomes
pub mod Passwords
pub mod Calls
pub mod AdminSteps
pub mod Admins
mod Examples
use local_ai_proxy.Prelude.{
  ℕ, ◌+◌, Bool, true, false, not, ◌&&◌, ◌||◌, Option, none, some, String, leb, if◌then◌else◌, ◌==◌,
  ℕ_key, String_key,
}
use local_ai_proxy.Prelude.Dict.{Dict, lookup, insert, delete}
use local_ai_proxy.Prelude.Rows.{keep_rows, find_row, count_rows}
use local_ai_proxy.Store.Directory.{User, Session, Directory}
use local_ai_proxy.Store.Sql.{
  Error, unavailable, user_not_found, last_active_admin, invalid_role, violation, Result, ok, err,
  Db, World, Sql, ◌>>=◌, ◌>>◌, pure, require, statement, Ending, commits, transaction,
}

abbrev pub with_users : Dict ℕ User → Db → Db
with_users rows db = record db { directory = record db.directory { users = rows } }

abbrev pub with_sessions : Dict ℕ Session → Db → Db
with_sessions rows db = record db { directory = record db.directory { sessions = rows } }

-- `if c { if _, err := tx.Exec(…); err != nil { return err } }`
unfoldable pub only_if : Bool → Sql (Unit {0}) → Sql (Unit {0})
only_if true m w = m w
only_if false m w = (ok tt, w)

abbrev pub is_some {ℓ} : {A : Type ℓ} → Option A → Bool
is_some none = false
is_some (some a) = true

abbrev pub has_email : String → User → Bool
has_email email u = u.email == email

-- `INSERT INTO users … RETURNING id`; the id and the email are unique.
unfoldable pub insert_user : User → Db → Result ℕ × Db
insert_user u db =
    let id = db.directory.user_seq + 1 in
    let counted = record db { directory = record db.directory { user_seq = id } } in
    if is_some (lookup id db.directory.users)
      || is_some (find_row (has_email u.email) db.directory.users)
    then (err violation, counted)
    else (ok id, with_users (insert id u db.directory.users) counted)

-- `UPDATE users SET … WHERE id = $1`, with whether there was a row.
unfoldable pub update_user : ℕ → (User → User) → Db → Result Bool × Db
update_user id f db = elim (lookup id db.directory.users) [
  | none ↦ (ok false, db)
  | some u ↦ (ok true, with_users (insert id (f u) db.directory.users) db)
]

-- The same of an email, which no other row may have.
unfoldable pub update_email : ℕ → String → Db → Result Bool × Db
update_email id email db =
    if is_some (find_row (has_email email) (delete id db.directory.users))
    then (if is_some (lookup id db.directory.users) then (err violation, db) else (ok false, db))
    else update_user id (λ u. record u { email = email }) db

-- CreateUser
unfoldable pub create_user : String → String → Sql ℕ
create_user email password_hash = statement (
    insert_user (record {
      email = email;
      password_hash = password_hash;
      role = "user";
      is_active = true;
      account_id = none;
    }))

-- GetUserByEmail; no row is no error.
unfoldable pub get_user_by_email : String → Sql (Option (ℕ × User))
get_user_by_email email = statement (λ db. (ok (find_row (has_email email) db.directory.users), db))

-- GetUserByID
unfoldable pub get_user_by_id : ℕ → Sql (Option User)
get_user_by_id id = statement (λ db. (ok (lookup id db.directory.users), db))

-- UpdateUserProfile; a name is not kept.
unfoldable pub update_user_profile : ℕ → String → Sql (Unit {0})
update_user_profile id email = do
  affected ← statement (update_email id email)
  require affected user_not_found

-- UpdateUserPassword
unfoldable pub update_user_password : ℕ → String → Sql (Unit {0})
update_user_password id password_hash = do
  affected ← statement (update_user id (λ u. record u { password_hash = password_hash }))
  require affected user_not_found

-- SetUserActive
unfoldable pub set_user_active : ℕ → Bool → Sql (Unit {0})
set_user_active id active = do
  affected ← statement (update_user id (λ u. record u { is_active = active }))
  require affected user_not_found

abbrev pub is_active_admin : User → Bool
is_active_admin u = u.role == "admin" && u.is_active

-- `SELECT pg_advisory_xact_lock(hashtext('admin_mutations'))`
unfoldable pub lock_admins : Db → Result (Unit {0}) × Db
lock_admins db = (ok tt, db)

-- `SELECT role, is_active FROM users WHERE id = $1 FOR UPDATE`
unfoldable pub select_user : ℕ → Db → Result User × Db
select_user id db = elim (lookup id db.directory.users) [
  | none ↦ (err user_not_found, db)
  | some u ↦ (ok u, db)
]

unfoldable pub count_active_admins : Db → Result ℕ × Db
count_active_admins db = (ok (count_rows is_active_admin db.directory.users), db)

unfoldable pub require_another_admin : Sql (Unit {0})
require_another_admin = do
  active_admins ← statement count_active_admins
  require (not (leb active_admins 1)) last_active_admin

-- `UPDATE users SET … WHERE id = $1` of a row that is there
unfoldable pub set_user : ℕ → (User → User) → Db → Result (Unit {0}) × Db
set_user id f db = (ok tt, (update_user id f db).1)

abbrev pub is_of_another : ℕ → Session → Bool
is_of_another id s = not (s.user_id == id)

abbrev pub is_of_another_or_kept : ℕ → String → Session → Bool
is_of_another_or_kept id kept s = not (s.user_id == id) || s.token_hash == kept

-- `DELETE FROM user_sessions WHERE user_id = $1`
unfoldable pub purge_sessions : ℕ → Db → Result (Unit {0}) × Db
purge_sessions id db =
    (ok tt, with_sessions (keep_rows (is_of_another id) db.directory.sessions) db)

-- `DELETE FROM user_sessions WHERE user_id = $1 AND token_hash <> $2`
unfoldable pub purge_other_sessions : ℕ → String → Db → Result (Unit {0}) × Db
purge_other_sessions id kept db =
    (ok tt, with_sessions (keep_rows (is_of_another_or_kept id kept) db.directory.sessions) db)

-- DeactivateUserGuarded
unfoldable pub deactivate_user_guarded : ℕ → Sql (Unit {0})
deactivate_user_guarded id = transaction do
  statement lock_admins
  current ← statement (select_user id)
  only_if (is_active_admin current) require_another_admin
  statement (set_user id (λ u. record u { is_active = false }))
  only_if current.is_active (statement (purge_sessions id))
  pure (commits tt)

unfoldable pub change_role : ℕ → String → User → Sql (Ending (Unit {0}))
change_role id new_role current = do
  only_if (is_active_admin current && not (new_role == "admin")) require_another_admin
  statement (set_user id (λ u. record u { role = new_role }))
  statement (purge_sessions id)
  pure (commits tt)

-- The role is new, or the transaction ends with nothing done.
unfoldable pub change_role_if : Bool → ℕ → String → User → Sql (Ending (Unit {0}))
change_role_if true id new_role current = pure (commits tt)
change_role_if false id new_role current = change_role id new_role current

-- UpdateUserRoleGuarded
unfoldable pub update_user_role_guarded : ℕ → String → Sql (Unit {0})
update_user_role_guarded id new_role = do
  require (new_role == "admin" || new_role == "user") invalid_role
  transaction do
    statement lock_admins
    current ← statement (select_user id)
    change_role_if (current.role == new_role) id new_role current

abbrev pub has_token : String → Session → Bool
has_token hash s = s.token_hash == hash

-- `INSERT INTO user_sessions …`; the id and the hash are unique, and the user exists.
unfoldable pub insert_session : Session → Db → Result (Unit {0}) × Db
insert_session s db =
    let id = db.directory.session_seq + 1 in
    let counted = record db { directory = record db.directory { session_seq = id } } in
    if is_some (lookup id db.directory.sessions)
      || is_some (find_row (has_token s.token_hash) db.directory.sessions)
      || not (is_some (lookup s.user_id db.directory.users))
    then (err violation, counted)
    else (ok tt, with_sessions (insert id s db.directory.sessions) counted)

-- CreateSession
unfoldable pub create_session : ℕ → String → ℕ → Sql (Unit {0})
create_session user_id token_hash expires_at = statement (
    insert_session (record { user_id = user_id; token_hash = token_hash; expires_at = expires_at }))

-- GetSessionByTokenHash; no row is no error.
unfoldable pub get_session_by_token_hash : String → Sql (Option (ℕ × Session))
get_session_by_token_hash hash =
    statement (λ db. (ok (find_row (has_token hash) db.directory.sessions), db))

-- DeleteSession
unfoldable pub delete_session : String → Sql (Unit {0})
delete_session hash = statement (λ db.
    (ok tt, with_sessions (keep_rows (λ s. not (has_token hash s)) db.directory.sessions) db))

-- DeleteUserSessions
unfoldable pub delete_user_sessions : ℕ → Sql (Unit {0})
delete_user_sessions user_id = statement (purge_sessions user_id)

-- DeleteUserSessionsExcept
unfoldable pub delete_user_sessions_except : ℕ → String → Sql (Unit {0})
delete_user_sessions_except user_id kept = statement (purge_other_sessions user_id kept)

-- UpdateUserPasswordAndRevokeSessions
unfoldable pub update_user_password_and_revoke_sessions : ℕ → String → String → Sql (Unit {0})
update_user_password_and_revoke_sessions id password_hash kept = transaction do
  affected ← statement (update_user id (λ u. record u { password_hash = password_hash }))
  require affected user_not_found
  statement (purge_other_sessions id kept)
  pure (commits tt)
