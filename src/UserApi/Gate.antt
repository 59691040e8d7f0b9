-- ===== src/UserApi/Gate.antt =====
-- internal/user/middleware.go: whom the session middleware admits.
use local_ai_proxy.Prelude.{
  ℕ, ◌≤◌, ◌≡◌, ◌≢◌, refl, sym, ap, ◌∙◌, Bool, true, false, not, some, String, arith, ltb, ◌==◌,
  ℕ_key, String_key, inl, inr, Option-cases, Bool-cases,
}
use local_ai_proxy.Prelude.Dict.{lookup}
use local_ai_proxy.Prelude.Rows.{find_row, keep_rows}
use local_ai_proxy.Store.Directory.{User, Session}
use local_ai_proxy.Store.Sql.{Result, ok, err, World, ◌>>=◌, pure, clock}
use local_ai_proxy.Store.Leads.{statement_cases}
use local_ai_proxy.Store.Users.{
  has_token, with_sessions, get_session_by_token_hash, delete_session, get_user_by_id,
}
use local_ai_proxy.UserApi.Sessions.{
  caught, SessionGate, refused, admitted, admit_if, gate_of, expire_session, load_user,
  check_expiry, check_session, session_with_hash, session_middleware, extract_session_token,
}

-- The middleware has refused, and no user has changed; or the token's hash is that of a session that
-- has not expired, of a user that is there and active, and the tables are as they were.
abbrev pub IsGated : String → World → Result SessionGate × World → Type 0
IsGated hash w (err e, v) = ⊥
IsGated hash w (ok (refused status code), v) = v.db.directory.users ≡ w.db.directory.users
IsGated hash w (ok (admitted id u s), v) =
    (session : ℕ) × (find_row (has_token hash) w.db.directory.sessions ≡ some (session, s))
    × (w.now ≤ s.expires_at)
    × (id ≡ s.user_id)
    × (lookup id w.db.directory.users ≡ some u)
    × (u.is_active ≡ true)
    × (v.db ≡ w.db)

admit_if-IsGated :
    (b : Bool) (hash : String) (w : World) (k : ℕ) (s : Session) (u : User) (v : World)
    → find_row (has_token hash) w.db.directory.sessions ≡ some (k, s)
    → w.now ≤ s.expires_at
    → lookup s.user_id w.db.directory.users ≡ some u
    → u.is_active ≡ b
    → v.db ≡ w.db
    → IsGated hash w (ok (admit_if b s u), v)
unfolding admit_if
admit_if-IsGated true hash w k s u v found early row active same =
    (k, found, early, refl, row, active, same)
admit_if-IsGated false hash w k s u v found early row active same = rw same refl

load_user-IsGated :
    (hash : String) (w : World) (k : ℕ) (s : Session) (v : World)
    → find_row (has_token hash) w.db.directory.sessions ≡ some (k, s)
    → w.now ≤ s.expires_at
    → v.db ≡ w.db
    → IsGated hash w (load_user s v)
unfolding load_user caught get_user_by_id ◌>>=◌ pure gate_of
load_user-IsGated hash w k s v found early same =
    let (x, now, cases) =
      statement_cases (λ db. (ok (lookup s.user_id db.directory.users), db)) v in
    elim cases [
      | inl (e, kept) ↦ rw (load_user, e) (rw (kept, same) refl)
      | inr (e, kept) ↦ elim (Option-cases (lookup s.user_id v.db.directory.users)) [
        | inl n ↦ rw (load_user, e, n) (rw (kept, same) refl)
        | inr (u, n) ↦
            rw (load_user, e, n)
              (admit_if-IsGated u.is_active hash w k s u x found early
                (ap (λ d. lookup s.user_id d.directory.users) (sym same) ∙ n) refl (kept ∙ same))
      ]
    ]

expire_session-IsGated :
    (hash : String) (w v : World) → v.db ≡ w.db → IsGated hash w (expire_session hash v)
unfolding expire_session caught delete_session ◌>>=◌ pure
expire_session-IsGated hash w v same =
    let (x, now, cases) =
      statement_cases
        (λ db.
          (ok tt, with_sessions (keep_rows (λ s. not (has_token hash s)) db.directory.sessions) db))
        v in
    elim cases [
      | inl (e, kept) ↦ rw (expire_session, e) (rw (kept, same) refl)
      | inr (e, kept) ↦ rw (expire_session, e) (rw (kept, same) refl)
    ]

session_with_hash-IsGated : (hash : String) (w : World) → IsGated hash w (session_with_hash hash w)
unfolding session_with_hash caught get_session_by_token_hash ◌>>=◌ pure clock check_session
    check_expiry
session_with_hash-IsGated hash w =
    let (v, now, cases) =
      statement_cases (λ db. (ok (find_row (has_token hash) db.directory.sessions), db)) w in
    elim cases [
      | inl (e, same) ↦ rw (session_with_hash, e) (rw same refl)
      | inr (e, same) ↦ elim (Option-cases (find_row (has_token hash) w.db.directory.sessions)) [
        | inl n ↦ rw (session_with_hash, e, n) (rw same refl)
        | inr ((k, s), n) ↦ elim (Bool-cases (ltb s.expires_at v.now)) [
          | inl late ↦ rw (session_with_hash, e, n, late) (expire_session-IsGated hash w v same)
          | inr early ↦
              rw (session_with_hash, e, n, early)
                (load_user-IsGated hash w k s v n (ground (arith, early, now)) same)
        ]
      ]
    ]

module _ (digest : String → String) (authorization session_header : String) where
  abbrev token_hash : String
  token_hash = digest (extract_session_token authorization session_header)

  -- The session middleware answers every request. It admits one only as the user of a session that is
  -- in the table under the hash of the request's token and has not expired, if that user is in the
  -- table and active, and it then leaves the tables as they were. It changes no user.
  pub session_middleware-IsGated :
      (w : World) → IsGated token_hash w (session_middleware digest authorization session_header w)
  unfolding session_middleware pure
  session_middleware-IsGated w =
      elim (Bool-cases (extract_session_token authorization session_header == "")) [
        | inl e ↦ rw (session_middleware, e) refl
        | inr e ↦ rw (session_middleware, e) (session_with_hash-IsGated token_hash w)
      ]

-- The request is not served as the user.
abbrev pub IsNotAs : ℕ → Result SessionGate → Type 0
IsNotAs id (err e) = Unit
IsNotAs id (ok (refused status code)) = Unit
IsNotAs id (ok (admitted j u s)) = j ≢ id

-- If every session that a hash finds is of another user, no token is served as the user.
gated-IsNotAs :
    (hash : String) (id : ℕ) (w : World) (r : Result SessionGate × World)
    → ((k : ℕ) (s : Session)
        → find_row (has_token hash) w.db.directory.sessions ≡ some (k, s)
        → s.user_id ≢ id)
    → IsGated hash w r
    → IsNotAs id r.0
gated-IsNotAs hash id w (err e, v) others g = tt
gated-IsNotAs hash id w (ok (refused status code), v) others g = tt
gated-IsNotAs hash id w (ok (admitted j u s), v) others (k, found, early, same, row, active, kept) =
    λ e. others k s found (sym same ∙ e)

-- If the session under the hash of the request's token is of another user, the request is not
-- served as the user.
pub no_session-IsNotAs :
    (digest : String → String) (authorization session_header : String) (id : ℕ) (w : World)
    → ((k : ℕ) (s : Session)
        → find_row
            (has_token (digest (extract_session_token authorization session_header)))
            w.db.directory.sessions
          ≡ some (k, s)
        → s.user_id ≢ id)
    → IsNotAs id (session_middleware digest authorization session_header w).0
no_session-IsNotAs digest authorization session_header id w others =
    gated-IsNotAs (token_hash digest authorization session_header) id w
      (session_middleware digest authorization session_header w) others
      (session_middleware-IsGated digest authorization session_header w)
