-- ===== src/UserApi/LoggedIn.antt =====
-- internal/user: what a login has done, and that the session which it opens is admitted.
use local_ai_proxy.Prelude.{
  ℕ, ◌+◌, ◌≡◌, refl, sym, ap, subst, ◌∙◌, Bool, true, false, not, ◌||◌, Option, none, some, String,
  ◌==◌, ℕ_key, String_key, inl, inr, Option-cases, Bool-cases,
}
use local_ai_proxy.Prelude.Dict.{lookup, insert}
use local_ai_proxy.Prelude.Rows.{find_row}
use local_ai_proxy.RateLimit.Tokens.{Verdict, allowed, denied}
use local_ai_proxy.AuthLimit.{Guard, allow_login_email, try_acquire_bcrypt, release_bcrypt}
use local_ai_proxy.Store.Directory.{User, Session}
use local_ai_proxy.Store.Sql.{Error, Result, ok, err, Db, World, statement}
use local_ai_proxy.Store.Leads.{statement_cases}
use local_ai_proxy.Store.Statements.{statement-answers}
use local_ai_proxy.Store.Users.{
  is_some, has_email, has_token, insert_session, create_session, get_user_by_email,
}
use local_ai_proxy.UserApi.Replies.{Reply, failure, throttled, replies, Portal, Crypto}
use local_ai_proxy.UserApi.Login.{
  LoginResponse, session_created, start_session, login_compared, login_active, login_user,
  login_slot, login_found, login_allowed, login,
}
use local_ai_proxy.UserApi.Sessions.{session_duration_for}

-- The session of a user that a login opens at a time.
abbrev pub session_for : Crypto → String → ℕ → User → ℕ → Session
session_for lib raw id u now = record {
  user_id = id;
  token_hash = lib.digest raw;
  expires_at = now + session_duration_for u.role;
}

-- A new session is in the table, under an id and a hash that no session had, and no user has changed.
abbrev pub HasOpened : Session → Db → Db → Type 0
HasOpened s before after =
    (id : ℕ) × (lookup id before.directory.sessions ≡ none)
    × (find_row (has_token s.token_hash) before.directory.sessions ≡ none)
    × (after.directory.sessions ≡ insert id s before.directory.sessions)
    × (after.directory.users ≡ before.directory.users)

-- The login has failed, and no user and no session has changed; or the email is that of an active
-- user whose password it is, and the session of the token that is sent has been opened.
abbrev pub IsLogin : Crypto → String → String → World → Reply LoginResponse × Portal → Type 0
IsLogin lib email password w (failure status code, p) =
    (p.world.db.directory.users ≡ w.db.directory.users)
    × (p.world.db.directory.sessions ≡ w.db.directory.sessions)
IsLogin lib email password w (throttled retry_after, p) = p.world.db ≡ w.db
IsLogin lib email password w (replies status r, p) =
    (u : User) × (find_row (has_email email) w.db.directory.users ≡ some (r.user_id, u))
    × (u.is_active ≡ true)
    × (lib.compare_password u.password_hash password ≡ true)
    × (r.role ≡ u.role)
    × HasOpened (session_for lib r.token r.user_id u w.now) w.db p.world.db

-- What INSERT INTO user_sessions does, if it does not fail.
insert_session-HasOpened :
    (s : Session) (db : Db)
    → (insert_session s db).0 ≡ ok tt
    → HasOpened s db (insert_session s db).1
unfolding insert_session
insert_session-HasOpened s db h =
    elim (Option-cases (lookup (db.directory.session_seq + 1) db.directory.sessions)) [
      | inr (x, a) ↦ absurd (let e = h in cc (rw (insert_session, a) at e))
      | inl a ↦ elim (Option-cases (find_row (has_token s.token_hash) db.directory.sessions)) [
        | inr (x, b) ↦ absurd (let e = h in cc (rw (insert_session, a, b) at e))
        | inl b ↦ elim (Option-cases (lookup s.user_id db.directory.users)) [
          | inl c ↦ absurd (let e = h in cc (rw (insert_session, a, b, c) at e))
          | inr (x, c) ↦
              rw (insert_session, a, b, c) (db.directory.session_seq + 1, a, refl, refl, refl)
        ]
      ]
    ]

insert_session-failure :
    (s : Session) (db : Db) (e : Error)
    → (insert_session s db).0 ≡ err e
    → ((insert_session s db).1.directory.users ≡ db.directory.users)
      × ((insert_session s db).1.directory.sessions ≡ db.directory.sessions)
unfolding insert_session
insert_session-failure s db e h =
    elim (Bool-cases (
      is_some (lookup (db.directory.session_seq + 1) db.directory.sessions)
      || is_some (find_row (has_token s.token_hash) db.directory.sessions)
      || not (is_some (lookup s.user_id db.directory.users)))) [
        | inl a ↦ rw (insert_session, a) (refl, refl)
        | inr a ↦ absurd (let k = h in cc (rw (insert_session, a) at k))
      ]

abbrev SameRows : Db → Db → Type 0
SameRows before after =
    (after.directory.users ≡ before.directory.users)
    × (after.directory.sessions ≡ before.directory.sessions)

statement-HasOpened :
    (s : Session) (v : World)
    → (statement (insert_session s) v).0 ≡ ok tt
    → HasOpened s v.db (statement (insert_session s) v).1.db
statement-HasOpened s v h =
    let (answered, tables) = statement-answers (insert_session s) v tt h in
    subst (λ d. HasOpened s v.db d) (sym tables) (insert_session-HasOpened s v.db answered)

statement_fails :
    (s : Session) (v : World) (e : Error)
    → (statement (insert_session s) v).0 ≡ err e
    → SameRows v.db (statement (insert_session s) v).1.db
statement_fails s v e h =
    let (x, later, cases) = statement_cases (insert_session s) v in
    elim cases [
      | inl (f, kept) ↦ rw (f, kept) (refl, refl)
      | inr (f, kept) ↦
          let (users, sessions) = insert_session-failure s v.db e (sym (ap (λ r. r.0) f) ∙ h) in
          rw (f, kept) (users, sessions)
    ]

module _ (lib : Crypto) (email password : String) (w : World) (id : ℕ) (u : User)
    (row : find_row (has_email email) w.db.directory.users ≡ some (id, u))
    (active : u.is_active ≡ true)
    (matches : lib.compare_password u.password_hash password ≡ true) where
  created-IsLogin :
      (raw : String) (g : Option Guard) (r : Result (Unit {0}) × World)
      → (r.0 ≡ ok tt → HasOpened (session_for lib raw id u w.now) w.db r.1.db)
      → ((e : Error) → r.0 ≡ err e → SameRows w.db r.1.db)
      → IsLogin lib email password w (session_created raw id u g r)
  unfolding session_created
  created-IsLogin raw g (ok t, v) h k = (u, row, active, matches, refl, h refl)
  created-IsLogin raw g (err e, v) h k = k e refl

  start_session-IsLogin :
      (token : Option String) (g : Option Guard) (v : World)
      → v.db ≡ w.db
      → v.now ≡ w.now
      → IsLogin lib email password w (start_session lib token id u g v)
  unfolding start_session create_session
  start_session-IsLogin none g v same now = rw same (refl, refl)
  start_session-IsLogin (some raw) g v same now =
      let s = session_for lib raw id u v.now in
      created-IsLogin raw g (statement (insert_session s) v)
        (λ h.
          subst
            (λ d.
              HasOpened (session_for lib raw id u w.now) d (statement (insert_session s) v).1.db)
            same
            (subst
              (λ t.
                HasOpened (session_for lib raw id u t) v.db (statement (insert_session s) v).1.db)
              now (statement-HasOpened s v h)))
        (λ e h.
          subst (λ d. SameRows d (statement (insert_session s) v).1.db) same
            (statement_fails s v e h))

module _ (lib : Crypto) (token : Option String) (email password : String) (w : World) where
  compared-IsLogin :
      (b : Bool) (id : ℕ) (u : User) (g : Option Guard) (v : World)
      → find_row (has_email email) w.db.directory.users ≡ some (id, u)
      → u.is_active ≡ true
      → lib.compare_password u.password_hash password ≡ b
      → v.db ≡ w.db
      → v.now ≡ w.now
      → IsLogin lib email password w (login_compared lib b token id u g v)
  unfolding login_compared
  compared-IsLogin false id u g v row active matches same now = rw same (refl, refl)
  compared-IsLogin true id u g v row active matches same now =
      start_session-IsLogin lib email password w id u row active matches token g v same now

  active-IsLogin :
      (b : Bool) (id : ℕ) (u : User) (g : Option Guard) (v : World)
      → find_row (has_email email) w.db.directory.users ≡ some (id, u)
      → u.is_active ≡ b
      → v.db ≡ w.db
      → v.now ≡ w.now
      → IsLogin lib email password w (login_active lib b token password id u g v)
  unfolding login_active
  active-IsLogin false id u g v row active same now = rw same (refl, refl)
  active-IsLogin true id u g v row active same now =
      compared-IsLogin (lib.compare_password u.password_hash password) id u g v row active refl same
        now

  user-IsLogin :
      (found : Option (ℕ × User)) (g : Option Guard) (v : World)
      → find_row (has_email email) w.db.directory.users ≡ found
      → v.db ≡ w.db
      → v.now ≡ w.now
      → IsLogin lib email password w (login_user lib token password found g v)
  unfolding login_user
  user-IsLogin none g v row same now = rw same (refl, refl)
  user-IsLogin (some (id, u)) g v row same now =
      active-IsLogin u.is_active id u g v row refl same now

  slot-IsLogin :
      (found : Option (ℕ × User)) (slot : Bool × Option Guard) (v : World)
      → find_row (has_email email) w.db.directory.users ≡ found
      → v.db ≡ w.db
      → v.now ≡ w.now
      → IsLogin lib email password w (login_slot lib token password found slot v)
  unfolding login_slot
  slot-IsLogin found (false, g) v row same now = same
  slot-IsLogin found (true, g) v row same now = user-IsLogin found (release_bcrypt g) v row same now

  allowed-IsLogin :
      (verdict : Verdict × Option Guard)
      → IsLogin lib email password w (login_allowed lib token email password verdict w)
  unfolding login_allowed login_found get_user_by_email
  allowed-IsLogin (denied retry_after, g) = refl
  allowed-IsLogin (allowed, g) =
      let (v, now, cases) =
        statement_cases (λ db. (ok (find_row (has_email email) db.directory.users), db)) w in
      elim cases [
        | inl (e, same) ↦ rw (login_allowed, e) (rw same (refl, refl))
        | inr (e, same) ↦
            rw (login_allowed, e)
              (slot-IsLogin (find_row (has_email email) w.db.directory.users) (try_acquire_bcrypt g)
                v refl same now)
      ]

-- A login answers with a token only if the email is that of an active user and the password matches
-- the user's hash. It has then opened one session, of that user and under the token's hash, until the
-- time that goes with the user's role. On every other answer no user and no session has changed.
pub login-IsLogin :
    (lib : Crypto) (token : Option String) (email password : String) (p : Portal)
    → IsLogin lib email password p.world (login lib token email password p)
unfolding login
login-IsLogin lib token email password p = elim (Bool-cases (email == "" || password == "")) [
  | inl e ↦ rw (login, e) (refl, refl)
  | inr e ↦
      rw (login, e)
        (allowed-IsLogin lib token email password p.world
          (allow_login_email lib.email_digest email p.world.now p.guard))
]
