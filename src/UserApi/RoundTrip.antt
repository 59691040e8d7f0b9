-- ===== src/UserApi/RoundTrip.antt =====
-- internal/user: the token that a login answers with is admitted.
use local_ai_proxy.Prelude.{
  ℕ, ◌+◌, ◌≤◌, ◌≡◌, ◌≢◌, ap, subst, ◌∙◌, true, false, Option, some, String, [], ◌++◌, arith, ltb,
  ◌==◌, eq_key, eq_self, ℕ_key, String_key,
}
use local_ai_proxy.Prelude.Dict.{lookup, IsUnique}
use local_ai_proxy.Prelude.Text.{chars, text, text-chars}
use local_ai_proxy.Prelude.Rows.{find_row, find_row-insert_new, find_row-lookup}
use local_ai_proxy.Store.Directory.{User, Session}
use local_ai_proxy.Store.Sql.{ok, Db, World, ◌>>=◌, pure, clock, statement, answer}
use local_ai_proxy.Store.Users.{has_email, has_token, get_session_by_token_hash, get_user_by_id}
use local_ai_proxy.UserApi.Replies.{replies, Portal, Crypto}
use local_ai_proxy.UserApi.Login.{LoginResponse, login}
use local_ai_proxy.UserApi.LoggedIn.{session_for, HasOpened, IsLogin, login-IsLogin}
use local_ai_proxy.UserApi.Sessions.{
  caught, admitted, admit_if, gate_of, load_user, check_expiry, check_session, session_with_hash,
  session_middleware, session_duration_for, extract_session_token,
}

-- The header of a request that carries a token
abbrev pub bearer_header : String → String
bearer_header token = text (chars "Bearer " ++ chars token)

extract-bearer_header :
    (token session_header : String)
    → extract_session_token (bearer_header token) session_header ≡ token
unfolding extract_session_token
extract-bearer_header token session_header = text-chars (text (chars token)) ∙ text-chars token

-- A session that is in the table, has not expired and is of an active user, when no call fails
abbrev pub calm : Db → ℕ → World
calm db now = record { db = db; now = now; faults = [] }

session_with_hash_lem :
    (hash : String) (db : Db) (now k : ℕ) (s : Session) (u : User)
    → find_row (has_token hash) db.directory.sessions ≡ some (k, s)
    → now ≤ s.expires_at
    → lookup s.user_id db.directory.users ≡ some u
    → (session_with_hash hash (calm db now)).0 ≡ ok (admit_if u.is_active s u)
unfolding session_with_hash caught get_session_by_token_hash ◌>>=◌ pure clock check_session
    check_expiry load_user get_user_by_id gate_of statement answer
session_with_hash_lem hash db now k s u found early row =
    let fresh : ltb s.expires_at now ≡ false = ground (arith, early) in
    rw (session_with_hash, found) (simp (fresh, row))

-- A session that has been opened for an active user is admitted under its token.
opened-admitted :
    (lib : Crypto) (raw : String) (id : ℕ) (u : User) (opened now : ℕ) (before after later : Db)
    → raw ≢ ""
    → lookup id before.directory.users ≡ some u
    → u.is_active ≡ true
    → now ≤ opened + session_duration_for u.role
    → HasOpened (session_for lib raw id u opened) before after
    → find_row (has_token (lib.digest raw)) later.directory.sessions
      ≡ find_row (has_token (lib.digest raw)) after.directory.sessions
    → lookup id later.directory.users ≡ lookup id after.directory.users
    → (session_middleware lib.digest (bearer_header raw) "" (calm later now)).0
      ≡ ok (admitted id u (session_for lib raw id u opened))
unfolding session_middleware admit_if
opened-admitted lib raw id u opened now before after later filled row active early
      (k, new_id, free, rows, users) same_session same_user =
    let s : Session = session_for lib raw id u opened in
    let found : find_row (has_token (lib.digest raw)) later.directory.sessions ≡ some (k, s) =
      same_session
      ∙ ap (λ m. find_row (has_token (lib.digest raw)) m) rows
      ∙ find_row-insert_new (has_token (lib.digest raw)) k s before.directory.sessions free new_id
          (eq_self (lib.digest raw)) in
    let answer : (session_with_hash (lib.digest raw) (calm later now)).0
        ≡ ok (admit_if u.is_active s u) =
      session_with_hash_lem (lib.digest raw) later now k s u found early
        (same_user ∙ ap (λ m. lookup id m) users ∙ row) in
    let unmissing : (raw == "") ≡ false = ground (arith, filled, eq_key raw "") in
    rw (session_middleware, extract-bearer_header raw "", unmissing)
      (answer ∙ ap (λ b. ok (admit_if b s u)) active)

-- If no two users have the same id and the token is not empty: as long as a search for the token's
-- hash finds the row that it finds after the login, and the user's row is the one after the login,
-- whatever else has become of the tables, and until the session expires, the token of the login is
-- admitted as the user with the email of the login, when no call of the database fails.
pub login-admitted :
    (lib : Crypto) (token : Option String) (email password : String) (p q : Portal) (status : ℕ)
    (r : LoginResponse) (now : ℕ) (later : Db)
    → IsUnique p.world.db.directory.users
    → login lib token email password p ≡ (replies status r, q)
    → r.token ≢ ""
    → now ≤ p.world.now + session_duration_for r.role
    → find_row (has_token (lib.digest r.token)) later.directory.sessions
      ≡ find_row (has_token (lib.digest r.token)) q.world.db.directory.sessions
    → lookup r.user_id later.directory.users ≡ lookup r.user_id q.world.db.directory.users
    → (u : User) × (s : Session) × (find_row (has_email email) p.world.db.directory.users
        ≡ some (r.user_id, u))
      × ((session_middleware lib.digest (bearer_header r.token) "" (calm later now)).0
          ≡ ok (admitted r.user_id u s))
login-admitted lib token email password p q status r now later unique h filled early sessions
      users =
    let (u, row, active, matches, role, opened) : IsLogin lib email password p.world
        (replies status r, q) =
      subst (IsLogin lib email password p.world) h (login-IsLogin lib token email password p) in
    (
      u,
      session_for lib r.token r.user_id u p.world.now,
      row,
      opened-admitted lib r.token r.user_id u p.world.now now p.world.db q.world.db later filled
          (find_row-lookup (has_email email) p.world.db.directory.users r.user_id u unique row)
          active (subst (λ x. now ≤ p.world.now + session_duration_for x) role early) opened
          sessions users,
    )
