-- ===== src/UserApi/Revoked.antt =====
-- internal/user: a session that has been revoked serves nobody.
use local_ai_proxy.Prelude.{
  ℕ, ◌≡◌, ◌≢◌, sym, ap, ◌∙◌, true, not, ◌&&◌, some, String, arith, ◌==◌, eq_key, ℕ_key, String_key,
  if◌then◌else◌, inl, inr, ◌⊎◌,
}
use local_ai_proxy.Prelude.Dict.{lookup}
use local_ai_proxy.Prelude.Rows.{find_row, keep_rows, kept_row}
use local_ai_proxy.Store.Directory.{User, Session}
use local_ai_proxy.Store.Sql.{Result, ok, err, Db, World}
use local_ai_proxy.Store.Users.{
  has_token, is_active_admin, is_of_another, deactivate_user_guarded, update_user_role_guarded,
}
use local_ai_proxy.Store.Users.Outcomes.{
  Did, Changed, Deactivated, Assigned, deactivate_user_guarded-Did, update_user_role_guarded-Did,
}
use local_ai_proxy.UserApi.Sessions.{extract_session_token, session_middleware}
use local_ai_proxy.UserApi.Gate.{IsNotAs, no_session-IsNotAs}

pub did_it :
    (C : Db → Type 0) (before : Db) (r : Result (Unit {0}) × World)
    → Did C before r
    → r.0 ≡ ok tt
    → C r.1.db
did_it C before (ok t, w) d h = d
did_it C before (err e, w) d h = absurd (cc h)

purged :
    (id : ℕ) (before db : Db) (hash : String) (k : ℕ) (s : Session)
    → db.directory.sessions ≡ keep_rows (is_of_another id) before.directory.sessions
    → find_row (has_token hash) db.directory.sessions ≡ some (k, s)
    → s.user_id ≢ id
purged id before db hash k s e found =
    let kept : is_of_another id s ≡ true =
      kept_row (has_token hash) (is_of_another id) before.directory.sessions k s
        (ap (λ m. find_row (has_token hash) m) (sym e) ∙ found) in
    ground (arith, kept, eq_key s.user_id id)

module _ (digest : String → String) (authorization session_header : String) (id : ℕ) (w : World)
    (u : User) (row : lookup id w.db.directory.users ≡ some u) where
  -- Once DeactivateUserGuarded has deactivated an active user, no request is served as that user while
  -- the sessions are those that it left, whatever else has happened, also if the user has been
  -- activated again.
  pub deactivated-IsNotAs :
      (v : World)
      → u.is_active ≡ true
      → (deactivate_user_guarded id w).0 ≡ ok tt
      → v.db.directory.sessions ≡ (deactivate_user_guarded id w).1.db.directory.sessions
      → IsNotAs id (session_middleware digest authorization session_header v).0
  deactivated-IsNotAs v active h same =
      let (x, (found, guard, users, sessions)) =
        did_it (Deactivated id w.db) w.db (deactivate_user_guarded id w)
          (deactivate_user_guarded-Did id w) h in
      let user : some x ≡ some u = sym found ∙ row in
      let one : x ≡ u = cc user in
      no_session-IsNotAs digest authorization session_header id v (λ k s.
        purged id w.db v.db (digest (extract_session_token authorization session_header)) k s (
          same
          ∙ sessions
          ∙ ap
              (λ b.
                if b
                then keep_rows (is_of_another id) w.db.directory.sessions
                else w.db.directory.sessions)
              (ap (λ y. y.is_active) one ∙ active)))

  -- Once UpdateUserRoleGuarded has given a user another role, no request is served as that user while
  -- the sessions are those that it left: a session is of the role that it was opened with.
  pub reassigned-IsNotAs :
      (v : World) (new_role : String)
      → u.role ≢ new_role
      → (update_user_role_guarded id new_role w).0 ≡ ok tt
      → v.db.directory.sessions ≡ (update_user_role_guarded id new_role w).1.db.directory.sessions
      → IsNotAs id (session_middleware digest authorization session_header v).0
  reassigned-IsNotAs v new_role ne h same =
      let did =
        did_it (Assigned id new_role w.db) w.db (update_user_role_guarded id new_role w)
          (update_user_role_guarded-Did id new_role w) h in
      assigned did.0 did.1
    where
      assigned :
          (x : User)
          → (((x.role ≡ new_role)
                × (lookup id w.db.directory.users ≡ some x)
                × ((update_user_role_guarded id new_role w).1.db ≡ w.db))
              ⊎ ((x.role ≢ new_role)
                  × Changed
                      (is_active_admin x && not (new_role == "admin"))
                      true
                      id
                      (λ y. record y { role = new_role })
                      w.db
                      x
                      (update_user_role_guarded id new_role w).1.db))
          → IsNotAs id (session_middleware digest authorization session_header v).0
      assigned x (inl (is, found, e)) =
          let user : some x ≡ some u = sym found ∙ row in
          let one : x ≡ u = cc user in absurd (ne (sym (ap (λ y. y.role) one) ∙ is))
      assigned x (inr (other, (found, guard, users, sessions))) =
          no_session-IsNotAs digest authorization session_header id v (λ k s.
            purged id w.db v.db (digest (extract_session_token authorization session_header)) k s
              (same ∙ sessions))
