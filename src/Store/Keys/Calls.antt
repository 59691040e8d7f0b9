-- ===== src/Store/Keys/Calls.antt =====
-- internal/store/store.go: a key that has been revoked stays revoked, over any of the calls that
-- write API keys, each under any failures of the driver.
use local_ai_proxy.Prelude.{
  ℕ, ◌+◌, ◌≡◌, refl, sym, ap, ◌∙◌, Bool, true, not, ◌||◌, Option, some, String, List, [], ◌∷◌,
  arith, ◌==◌, eq_key, ℕ_key, String_key, inl, inr, Option-cases, Bool-cases,
}
use local_ai_proxy.Prelude.Int.{ℤ}
use local_ai_proxy.Prelude.Dict.{lookup, insert, IsUnique, insert-IsUnique, lookup-insert}
use local_ai_proxy.Prelude.Rows.{find_row}
use local_ai_proxy.Store.Directory.{KeyRow}
use local_ai_proxy.Store.Sql.{Db, World, statement}
use local_ai_proxy.Store.Leads.{Leads, statement-Leads, bind-Leads, require-Leads}
use local_ai_proxy.Store.Keeps.{Keeps, statement-Keeps, bind-Keeps, require-Keeps}
use local_ai_proxy.Store.Users.{is_some}
use local_ai_proxy.Store.Keys.{
  has_key_hash, refers_to, insert_key, update_key, set_key, create_key, create_key_for_user,
  create_key_for_account, create_key_for_account_only, update_key_rate_limit, revoke_key,
  set_session_token_limit, set_trust_user_headers,
}

pub data KeyCall : Type 0 where
  mints : String → ℤ → KeyCall
  mints_for_user mints_for_account_only : ℕ → String → ℤ → KeyCall
  mints_for_account : ℕ → ℕ → String → ℤ → KeyCall
  sets_rate_limit : ℕ → ℤ → KeyCall
  revokes : ℕ → KeyCall
  sets_token_limit : ℕ → Option ℤ → KeyCall
  sets_trust : ℕ → Bool → KeyCall

unfoldable pub perform : KeyCall → World → World
perform (mints hash rate_limit) w = (create_key hash rate_limit w).1
perform (mints_for_user user hash rate_limit) w = (create_key_for_user user hash rate_limit w).1
perform (mints_for_account_only account hash rate_limit) w =
    (create_key_for_account_only account hash rate_limit w).1
perform (mints_for_account user account hash rate_limit) w =
    (create_key_for_account user account hash rate_limit w).1
perform (sets_rate_limit id rate_limit) w = (update_key_rate_limit id rate_limit w).1
perform (revokes id) w = (revoke_key id w).1
perform (sets_token_limit id limit) w = (set_session_token_limit id limit w).1
perform (sets_trust id trust) w = (set_trust_user_headers id trust w).1

-- The latest call stands first, with the driver's failures during it.
unfoldable pub run : List (List Bool × KeyCall) → World → World
run [] w = w
run ((faults, c) ∷ calls) w = perform c (record (run calls w) { faults = faults })

-- The ids of the keys differ, and the key of the id is there and revoked.
pub record IsRevoked (id : ℕ) (db : Db) : Type 0 where
  pub unique : IsUnique db.directory.keys
  pub key : KeyRow
  pub at : lookup id db.directory.keys ≡ some key
  pub revoked : key.revoked ≡ true

module _ (id : ℕ) where
  insert_key-IsRevoked :
      (hash : String) (rate_limit : ℤ) (user account : Option ℕ) (db : Db)
      → IsRevoked id db
      → IsRevoked id (insert_key hash rate_limit user account db).1
  unfolding insert_key
  insert_key-IsRevoked hash rate_limit user account db h =
      elim (Option-cases (lookup (db.directory.key_seq + 1) db.directory.keys)) [
        | inr (k, e) ↦
            rw (insert_key, e)
              (record { unique = h.unique; key = h.key; at = h.at; revoked = h.revoked })
        | inl e ↦
            elim (Bool-cases (
              is_some (find_row (has_key_hash hash) db.directory.keys)
              || not (refers_to user db.directory.users)
              || not (refers_to account db.accounts))) [
                | inl b ↦
                    rw (insert_key, e, b)
                      (record { unique = h.unique; key = h.key; at = h.at; revoked = h.revoked })
                | inr b ↦
                    rw (insert_key, e, b)
                      (record {
                        unique =
                            insert-IsUnique (db.directory.key_seq + 1) _ db.directory.keys h.unique;
                        key = h.key;
                        at =
                            rw lookup-insert
                              (ground (arith, e, h.at, eq_key (db.directory.key_seq + 1) id));
                        revoked = h.revoked;
                      })
              ]
      ]

  -- A row that is written for the id is revoked too.
  written-IsRevoked :
      (j : ℕ) (x y : KeyRow) (db : Db)
      → lookup j db.directory.keys ≡ some x
      → (x.revoked ≡ true → y.revoked ≡ true)
      → IsRevoked id db
      → IsRevoked id
          (record db { directory = record db.directory { keys = insert j y db.directory.keys } })
  written-IsRevoked j x y db e keep h = elim (Bool-cases (j == id)) [
    | inl same ↦
        let both : some x ≡ some h.key =
          sym e ∙ ap (λ k. lookup k db.directory.keys) ((eq_key j id).0 same) ∙ h.at in
        let one : x ≡ h.key = cc both in
        record {
          unique = insert-IsUnique j y db.directory.keys h.unique;
          key = y;
          at = rw (lookup-insert, same) refl;
          revoked = keep (ap (λ k. k.revoked) one ∙ h.revoked);
        }
    | inr other ↦ record {
      unique = insert-IsUnique j y db.directory.keys h.unique;
      key = h.key;
      at = rw (lookup-insert, other) h.at;
      revoked = h.revoked;
    }
  ]

  set_key-Keeps :
      (j : ℕ) (f : KeyRow → KeyRow)
      → ((k : KeyRow) → k.revoked ≡ true → (f k).revoked ≡ true)
      → Keeps (IsRevoked id) (set_key j f)
  unfolding set_key update_key
  set_key-Keeps j f keep =
      bind-Keeps
        (statement-Keeps _ (λ db h. elim (Option-cases (lookup j db.directory.keys)) [
          | inl e ↦ rw (update_key, e) h
          | inr (k, e) ↦ rw (update_key, e) (written-IsRevoked j k (f k) db e (keep k) h)
        ]))
        (λ b. require-Keeps b _)

  mint-Keeps :
      (hash : String) (rate_limit : ℤ) (user account : Option ℕ)
      → Keeps (IsRevoked id) (statement (insert_key hash rate_limit user account))
  mint-Keeps hash rate_limit user account =
      statement-Keeps _ (insert_key-IsRevoked hash rate_limit user account)

  perform-IsRevoked : (c : KeyCall) (w : World) → IsRevoked id w.db → IsRevoked id (perform c w).db
  unfolding perform create_key create_key_for_user create_key_for_account
      create_key_for_account_only update_key_rate_limit revoke_key set_session_token_limit
      set_trust_user_headers
  perform-IsRevoked (mints hash rate_limit) w h = (mint-Keeps hash rate_limit _ _).run w h
  perform-IsRevoked (mints_for_user user hash rate_limit) w h =
      (mint-Keeps hash rate_limit _ _).run w h
  perform-IsRevoked (mints_for_account_only account hash rate_limit) w h =
      (mint-Keeps hash rate_limit _ _).run w h
  perform-IsRevoked (mints_for_account user account hash rate_limit) w h =
      (mint-Keeps hash rate_limit _ _).run w h
  perform-IsRevoked (sets_rate_limit j rate_limit) w h = (set_key-Keeps j _ (λ k r. r)).run w h
  perform-IsRevoked (revokes j) w h = (set_key-Keeps j _ (λ k r. refl)).run w h
  perform-IsRevoked (sets_token_limit j limit) w h = (set_key-Keeps j _ (λ k r. r)).run w h
  perform-IsRevoked (sets_trust j trust) w h = (set_key-Keeps j _ (λ k r. r)).run w h

  pub run-IsRevoked :
      (calls : List (List Bool × KeyCall)) (w : World)
      → IsRevoked id w.db
      → IsRevoked id (run calls w).db
  unfolding run
  run-IsRevoked [] w h = h
  run-IsRevoked ((faults, c) ∷ calls) w h =
      perform-IsRevoked c (record (run calls w) { faults = faults }) (run-IsRevoked calls w h)

  -- A RevokeKey that succeeds has revoked the key.
  pub revoke_key-Leads :
      Leads (λ db. IsUnique db.directory.keys) (revoke_key id) (λ t. IsRevoked id)
  unfolding revoke_key set_key update_key
  revoke_key-Leads =
      bind-Leads {R = λ b db. b ≡ true → IsRevoked id db}
        (statement-Leads _ (λ db u. elim (Option-cases (lookup id db.directory.keys)) [
          | inl e ↦ rw (update_key, e) (λ on. absurd (cc on))
          | inr (k, e) ↦
              rw (update_key, e)
                (λ on. record {
                  unique = insert-IsUnique id (record k { revoked = true }) db.directory.keys u;
                  key = record k { revoked = true };
                  at = rw lookup-insert (ground (arith, eq_key id id));
                  revoked = refl;
                })
        ]))
        (λ b. require-Leads b _ (λ on db r. r on))
