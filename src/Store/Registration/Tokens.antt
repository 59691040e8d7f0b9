-- ===== src/Store/Registration/Tokens.antt =====
-- internal/store/credits.go: a registration token opens no more accounts than it may.
use local_ai_proxy.Prelude.{
  ℕ, ◌+◌, ◌≡◌, ◌≢◌, refl, sym, ap, subst, ◌∙◌, none, some, List, [], ◌∷◌, arith, ◌==◌, eq_key,
  ℕ_key, String_key, if◌then◌else◌, inl, inr, Option-cases, Bool-cases,
}
use local_ai_proxy.Prelude.Int.{ℤ, pos, ◌+ℤ◌, ◌≤ℤ◌, int_laws}
use local_ai_proxy.Prelude.Dict.{lookup, insert, IsUnique, insert-IsUnique, lookup-insert}
use local_ai_proxy.Prelude.Rows.{find_row}
use local_ai_proxy.Store.Directory.{RegistrationToken, RegistrationEvent}
use local_ai_proxy.Store.Sql.{Db, rollback}
use local_ai_proxy.Store.Registration.{has_token_hash, insert_token}

abbrev pub is_with : ℕ → RegistrationEvent → ℕ
is_with token e = elim e.token_id [ none ↦ 0 | some t ↦ if t == token then 1 else 0 ]

-- How many service accounts a token has opened.
unfoldable pub opened_with : ℕ → List RegistrationEvent → ℕ
opened_with token [] = 0
opened_with token (e ∷ events) = is_with token e + opened_with token events

-- The ids of the tokens differ. The token has been used for each account that it has opened, and
-- `owed` times more, and not more often than it may.
unfoldable pub IsLimited : ℕ → ℤ → ℕ → Db → Type 0
IsLimited token max_uses owed db =
    IsUnique db.directory.tokens
    × (t : RegistrationToken) × (lookup token db.directory.tokens ≡ some t)
    × (t.max_uses ≡ max_uses)
    × (pos (owed + opened_with token db.directory.events) ≤ℤ t.uses)
    × (t.uses ≤ℤ max_uses)

module _ (token : ℕ) (max_uses : ℤ) where
  pub rollback-IsLimited :
      (before after : Db)
      → IsLimited token max_uses 0 before
      → IsLimited token max_uses 0 (rollback before after)
  unfolding rollback IsLimited
  rollback-IsLimited before after h = h

  pub insert_token-IsLimited :
      (x : RegistrationToken) (db : Db)
      → IsLimited token max_uses 0 db
      → IsLimited token max_uses 0 (insert_token x db).1
  unfolding insert_token IsLimited
  insert_token-IsLimited x db (unique, t, row, top, low, high) =
      elim (Option-cases (lookup (db.directory.token_seq + 1) db.directory.tokens)) [
        | inr (y, e) ↦ rw (insert_token, e) (unique, t, row, top, low, high)
        | inl e ↦ elim (Option-cases (find_row (has_token_hash x.token_hash) db.directory.tokens)) [
          | inr (y, f) ↦ rw (insert_token, e, f) (unique, t, row, top, low, high)
          | inl f ↦
              rw (insert_token, e, f)
                (
                  insert-IsUnique (db.directory.token_seq + 1) x db.directory.tokens unique,
                  t,
                  rw lookup-insert
                      (ground (arith, e, row, eq_key (db.directory.token_seq + 1) token)),
                  top,
                  low,
                  high,
                )
        ]
      ]

  -- An update of a row that keeps how often it may be used, and uses this token `owed` times more.
  pub updated-IsLimited :
      (k : ℕ) (x y : RegistrationToken) (owed : ℕ) (db : Db)
      → lookup k db.directory.tokens ≡ some x
      → y.max_uses ≡ x.max_uses
      → y.uses ≤ℤ y.max_uses
      → (k ≡ token → y.uses ≡ x.uses +ℤ pos owed)
      → (k ≢ token → owed ≡ 0)
      → IsLimited token max_uses 0 db
      → IsLimited token max_uses owed (record db {
        directory = record db.directory { tokens = insert k y db.directory.tokens };
      })
  unfolding IsLimited
  updated-IsLimited k x y owed db at same within own other (unique, t, row, top, low, high) =
      elim (Bool-cases (k == token)) [
        | inl e ↦
            let k_token : k ≡ token = (eq_key k token).0 e in
            let both : some x ≡ some t =
              sym at ∙ ap (λ j. lookup j db.directory.tokens) k_token ∙ row in
            let one : x ≡ t = cc both in
            let used : y.uses ≡ t.uses +ℤ pos owed =
              own k_token ∙ ap (λ z. z.uses +ℤ pos owed) one in
            let limit : y.max_uses ≡ max_uses = same ∙ ap (λ z. z.max_uses) one ∙ top in
            (
              insert-IsUnique k y db.directory.tokens unique,
              y,
              rw (lookup-insert, e) refl,
              limit,
              grind (int_laws, used, low),
              subst (λ m. y.uses ≤ℤ m) limit within,
            )
        | inr e ↦
            let none_owed : owed ≡ 0 = other (ground (arith, e, eq_key k token)) in
            (
              insert-IsUnique k y db.directory.tokens unique,
              t,
              rw (lookup-insert, e) row,
              top,
              rw none_owed low,
              high,
            )
      ]

  -- A row that changes in nothing that counts.
  pub revoked-IsLimited :
      (k : ℕ) (x y : RegistrationToken) (db : Db)
      → lookup k db.directory.tokens ≡ some x
      → y.max_uses ≡ x.max_uses
      → y.uses ≡ x.uses
      → IsLimited token max_uses 0 db
      → IsLimited token max_uses 0 (record db {
        directory = record db.directory { tokens = insert k y db.directory.tokens };
      })
  unfolding IsLimited
  revoked-IsLimited k x y db at same uses (unique, t, row, top, low, high) =
      elim (Bool-cases (k == token)) [
        | inl e ↦
            let k_token : k ≡ token = (eq_key k token).0 e in
            let both : some x ≡ some t =
              sym at ∙ ap (λ j. lookup j db.directory.tokens) k_token ∙ row in
            let one : x ≡ t = cc both in
            let used : y.uses ≡ t.uses = uses ∙ ap (λ z. z.uses) one in
            (
              insert-IsUnique k y db.directory.tokens unique,
              y,
              rw (lookup-insert, e) refl,
              same ∙ ap (λ z. z.max_uses) one ∙ top,
              rw used low,
              rw used high,
            )
        | inr e ↦ (
          insert-IsUnique k y db.directory.tokens unique,
          t,
          rw (lookup-insert, e) row,
          top,
          low,
          high,
        )
      ]

  pub ids-IsUnique :
      (owed : ℕ) (db : Db) → IsLimited token max_uses owed db → IsUnique db.directory.tokens
  unfolding IsLimited
  ids-IsUnique owed db h = h.0
