-- ===== src/UserApi/Rekeyed.antt =====
-- internal/user: what a change of the password has done, and whom it shuts out.
use local_ai_proxy.Prelude.{
  ℕ, ◌≡◌, ◌≢◌, refl, sym, ap, subst, ◌∙◌, Bool, true, false, ◌||◌, Option, none, some, String,
  arith, ◌==◌, eq_key, ℕ_key, String_key, inl, inr, Bool-cases,
}
use local_ai_proxy.Prelude.Rows.{find_row, find_row-holds, keep_rows, kept_row}
use local_ai_proxy.AuthLimit.{Guard, try_acquire_bcrypt, release_bcrypt}
use local_ai_proxy.Store.Directory.{User, Session}
use local_ai_proxy.Store.Sql.{Result, ok, err, Db, World}
use local_ai_proxy.Store.Users.{
  has_token, is_of_another_or_kept, update_user_password_and_revoke_sessions,
}
use local_ai_proxy.Store.Users.Outcomes.{AreSame, Did}
use local_ai_proxy.Store.Users.Passwords.{Rekeyed, update_user_password_and_revoke_sessions-Did}
use local_ai_proxy.UserApi.Sessions.{extract_session_token, session_middleware}
use local_ai_proxy.UserApi.Gate.{IsNotAs, no_session-IsNotAs}
use local_ai_proxy.UserApi.Replies.{Reply, failure, throttled, replies, Portal, Crypto}
use local_ai_proxy.UserApi.Account.{
  is_weak, ended, password_hashed, password_compared, password_slot, change_password,
}

-- The change has failed, and no user and no session has changed; or the old password is that of the
-- user in the context, the new one has a hash, which is now the user's, and of the sessions of the
-- user only the one of the request is left.
abbrev pub IsRekeyed :
    Crypto → ℕ → User → Session → String → String → Db → Reply (Unit {0}) × Portal → Type 0
IsRekeyed lib id u s old_password new_password before (failure status code, q) =
    AreSame before q.world.db
IsRekeyed lib id u s old_password new_password before (throttled retry_after, q) =
    AreSame before q.world.db
IsRekeyed lib id u s old_password new_password before (replies status t, q) =
    (lib.compare_password u.password_hash old_password ≡ true)
    × (is_weak new_password ≡ false)
    × (hash : String) × (lib.generate new_password ≡ some hash)
    × Rekeyed id hash s.token_hash before q.world.db

same_rows : (db : Db) → AreSame db db
same_rows db = record { users = refl; sessions = refl }

module _ (lib : Crypto) (id : ℕ) (u : User) (s : Session) (old_password new_password : String)
    (w : World) (strong : is_weak new_password ≡ false) where
  ended-IsRekeyed :
      (hash : String) (g : Option Guard) (r : Result (Unit {0}) × World)
      → lib.compare_password u.password_hash old_password ≡ true
      → lib.generate new_password ≡ some hash
      → Did (Rekeyed id hash s.token_hash w.db) w.db r
      → IsRekeyed lib id u s old_password new_password w.db (ended g r)
  unfolding ended
  ended-IsRekeyed hash g (ok t, v) matches new d = (matches, strong, hash, new, d)
  ended-IsRekeyed hash g (err e, v) matches new d = d

  hashed-IsRekeyed :
      (hash : Option String) (g : Option Guard)
      → lib.compare_password u.password_hash old_password ≡ true
      → lib.generate new_password ≡ hash
      → IsRekeyed lib id u s old_password new_password w.db (password_hashed id s g w hash)
  unfolding password_hashed
  hashed-IsRekeyed none g matches new = same_rows w.db
  hashed-IsRekeyed (some hash) g matches new =
      ended-IsRekeyed hash g (update_user_password_and_revoke_sessions id hash s.token_hash w)
        matches new (update_user_password_and_revoke_sessions-Did id hash s.token_hash w)

  compared-IsRekeyed :
      (b : Bool) (g : Option Guard)
      → lib.compare_password u.password_hash old_password ≡ b
      → IsRekeyed lib id u s old_password new_password w.db
          (password_compared lib b id s new_password g w)
  unfolding password_compared
  compared-IsRekeyed false g matches = same_rows w.db
  compared-IsRekeyed true g matches = hashed-IsRekeyed (lib.generate new_password) g matches refl

  slot-IsRekeyed :
      (slot : Bool × Option Guard)
      → IsRekeyed lib id u s old_password new_password w.db
          (password_slot lib id u s old_password new_password slot w)
  unfolding password_slot
  slot-IsRekeyed (false, g) = same_rows w.db
  slot-IsRekeyed (true, g) =
      compared-IsRekeyed (lib.compare_password u.password_hash old_password) (release_bcrypt g) refl

module _ (lib : Crypto) (id : ℕ) (u : User) (s : Session) (old_password new_password : String)
    (p : Portal) where
  -- A change of the password that succeeds has had the old password, stores the hash of a new one of
  -- at least eight bytes, and leaves of the user's sessions only that of the request. One that is
  -- refused or fails has changed no user and no session.
  pub change_password-IsRekeyed :
      IsRekeyed lib id u s old_password new_password p.world.db
        (change_password lib id u s old_password new_password p)
  unfolding change_password
  change_password-IsRekeyed = elim (Bool-cases (old_password == "" || new_password == "")) [
    | inl e ↦ rw (change_password, e) (same_rows p.world.db)
    | inr e ↦ elim (Bool-cases (is_weak new_password)) [
      | inl weak ↦ rw (change_password, e, weak) (same_rows p.world.db)
      | inr strong ↦
          rw (change_password, e, strong)
            (slot-IsRekeyed lib id u s old_password new_password p.world strong
              (try_acquire_bcrypt p.guard))
    ]
  ]

  -- Once a change of the password has succeeded, no request with a token other than that of the change
  -- is served as the user, while the sessions are those that the change left.
  pub change_password-IsNotAs :
      (authorization session_header : String) (v : World) (status : ℕ) (q : Portal)
      → change_password lib id u s old_password new_password p ≡ (replies status tt, q)
      → lib.digest (extract_session_token authorization session_header) ≢ s.token_hash
      → v.db.directory.sessions ≡ q.world.db.directory.sessions
      → IsNotAs id (session_middleware lib.digest authorization session_header v).0
  change_password-IsNotAs authorization session_header v status q h other same =
      let (matches, strong, hash, new, (x, row, users, sessions)) : IsRekeyed lib id u s
          old_password new_password p.world.db (replies status tt, q) =
        subst (IsRekeyed lib id u s old_password new_password p.world.db) h
          change_password-IsRekeyed in
      let token : String = lib.digest (extract_session_token authorization session_header) in
      no_session-IsNotAs lib.digest authorization session_header id v (λ k t found.
        let left : find_row (has_token token)
              (keep_rows (is_of_another_or_kept id s.token_hash) p.world.db.directory.sessions)
            ≡ some (k, t) =
          ap (λ m. find_row (has_token token) m) (sym (same ∙ sessions)) ∙ found in
        let kept : is_of_another_or_kept id s.token_hash t ≡ true =
          kept_row (has_token token) (is_of_another_or_kept id s.token_hash)
            p.world.db.directory.sessions k t left in
        let own : has_token token t ≡ true =
          find_row-holds (has_token token) v.db.directory.sessions k t found in
        ground (
          arith,
          kept,
          own,
          other,
          eq_key t.user_id id,
          eq_key t.token_hash s.token_hash,
          eq_key t.token_hash token,
        ))
