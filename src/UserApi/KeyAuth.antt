-- ===== src/UserApi/KeyAuth.antt =====
-- internal/auth/auth.go: a key that has been revoked authenticates no request.
use local_ai_proxy.Prelude.{
  ℕ, ◌≡◌, ◌≢◌, sym, ap, ◌∙◌, Bool, true, ◌&&◌, not, Option, none, some, String, List, arith, ◌==◌,
  ℕ_key, String_key, inl, inr, Option-cases, Bool-cases,
}
use local_ai_proxy.Prelude.Dict.{lookup, IsUnique}
use local_ai_proxy.Prelude.Rows.{find_row, find_row-holds, find_row-lookup}
use local_ai_proxy.Entities.{ApiKey}
use local_ai_proxy.Store.Directory.{KeyRow}
use local_ai_proxy.Store.Sql.{Result, ok, err, Db, World, ◌>>=◌, pure}
use local_ai_proxy.Store.Leads.{Holds, statement_cases}
use local_ai_proxy.Store.Keys.{
  is_live_key, has_key_hash, select_live_key, get_key_by_hash, revoke_key,
}
use local_ai_proxy.Store.Keys.Calls.{KeyCall, run, IsRevoked, run-IsRevoked, revoke_key-Leads}
use local_ai_proxy.UserApi.Sessions.{caught, extract_bearer, key_or_none, auth_middleware}

-- The request is not served with the key of the id.
abbrev pub IsNotKey : ℕ → Result (Option ApiKey) → Type 0
IsNotKey id (err e) = Unit
IsNotKey id (ok none) = Unit
IsNotKey id (ok (some key)) = key.id ≢ id

live_row :
    (hash : String) (id j : ℕ) (k : KeyRow) (db : Db)
    → find_row (is_live_key hash) db.directory.keys ≡ some (j, k)
    → IsRevoked id db
    → j ≢ id
live_row hash id j k db found r same =
    let row : lookup j db.directory.keys ≡ some k =
      find_row-lookup (is_live_key hash) db.directory.keys j k r.unique found in
    let both : some k ≡ some r.key = sym row ∙ ap (λ i. lookup i db.directory.keys) same ∙ r.at in
    let one : k ≡ r.key = cc both in
    let live : is_live_key hash k ≡ true =
      find_row-holds (is_live_key hash) db.directory.keys j k found in
    live_revoked (has_key_hash hash k) k.revoked live (ap (λ x. x.revoked) one ∙ r.revoked)
  where
    live_revoked : (a b : Bool) → (a && not b) ≡ true → b ≡ true → ⊥
    live_revoked a b live revoked = ground arith

module _ (digest : String → String) (authorization : String) (id : ℕ) where
  selected-IsNotKey :
      (hash : String) (db : Db)
      → IsRevoked id db
      → IsNotKey id (ok (key_or_none (select_live_key hash db).0))
  unfolding select_live_key key_or_none
  selected-IsNotKey hash db r =
      elim (Option-cases (find_row (is_live_key hash) db.directory.keys)) [
        | inl e ↦ rw (select_live_key, e) tt
        | inr ((j, k), e) ↦ rw (select_live_key, e) (live_row hash id j k db e r)
      ]

  auth_middleware-IsNotKey :
      (w : World) → IsRevoked id w.db → IsNotKey id (auth_middleware digest authorization w).0
  unfolding auth_middleware caught get_key_by_hash ◌>>=◌ pure key_or_none
  auth_middleware-IsNotKey w r = elim (Bool-cases (extract_bearer authorization == "")) [
    | inl e ↦ rw (auth_middleware, e) tt
    | inr e ↦
        let hash : String = digest (extract_bearer authorization) in
        let (v, now, cases) = statement_cases (select_live_key hash) w in
        elim cases [
          | inl (f, same) ↦ rw (auth_middleware, e, f) tt
          | inr (f, same) ↦ rw (auth_middleware, e, f) (selected-IsNotKey hash w.db r)
        ]
  ]

  -- Once RevokeKey has succeeded, no request authenticates with the key, whatever keys are made,
  -- changed and revoked since, and whichever calls of the database fail, if no two keys have the same
  -- ID.
  pub revoked-IsNotKey :
      (calls : List (List Bool × KeyCall)) (faults : List Bool) (w : World)
      → IsUnique w.db.directory.keys
      → (revoke_key id w).0 ≡ ok tt
      → IsNotKey id
          (auth_middleware digest authorization
            (record (run calls (revoke_key id w).1) { faults = faults })).0
  revoked-IsNotKey calls faults w unique h =
      auth_middleware-IsNotKey (record (run calls (revoke_key id w).1) { faults = faults })
        (run-IsRevoked id calls (revoke_key id w).1 (
          revoked (revoke_key id w).0 (revoke_key id w).1.db h
            ((revoke_key-Leads id).run w unique)))
    where
      revoked :
          (r : Result (Unit {0})) (db : Db)
          → r ≡ ok tt
          → Holds (λ t. IsRevoked id) r db
          → IsRevoked id db
      revoked (ok t) db e k = k
      revoked (err x) db e k = absurd (cc e)
