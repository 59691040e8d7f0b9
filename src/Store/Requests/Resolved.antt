-- ===== src/Store/Requests/Resolved.antt =====
-- internal/store/credit_requests.go: a request is resolved once.
use local_ai_proxy.Prelude.{
  ℕ, ◌+◌, ◌≤◌, ◌≡◌, ◌≢◌, refl, sym, ap, subst, ◌∙◌, Bool, true, false, ◌&&◌, some, String, List, [],
  ◌∷◌, arith, leb, ◌==◌, eq_key, eq_self, ℕ_key, inl, inr, Bool-cases, Option-cases, false≢true,
}
use local_ai_proxy.Prelude.Dict.{Dict, lookup, lookup-insert}
use local_ai_proxy.Store.Sql.{
  RequestStatus, CreditRequest, Error, request_expired, Result, ok, err, Db, World, Sql, continue,
  ◌>>=◌, pure, clock, statement,
}
use local_ai_proxy.Store.Statements.{statement-answers}
use local_ai_proxy.Store.Requests.{
  awaits, any_blocks, insert_request, is_stale_request, expire_rows, expire_stale, resolved_row,
  resolve_row, select_request, fails, explain, resolved_or_not, resolve_credit_request,
}
use local_ai_proxy.Store.Requests.Calls.{Moment, Call, run, IsKept, run-keeps}

-- The request of an ID has been resolved or has expired, and no other row will take its ID.
IsClosed : ℕ → Db → Type 0
IsClosed id db =
    (r : CreditRequest) × (lookup id db.requests ≡ some r)
    × (awaits r.status ≡ false)
    × (id ≤ db.request_seq)

insert_request-IsClosed :
    (id account month now : ℕ) (db : Db)
    → IsClosed id db
    → IsClosed id (insert_request account month now db).1
unfolding insert_request IsClosed
insert_request-IsClosed id account month now db (r, e, c, s) =
    elim (Bool-cases (any_blocks account month db.requests)) [
      | inl b ↦ rw (insert_request, b) (r, e, c, s)
      | inr b ↦ elim (Option-cases (lookup account db.accounts)) [
        | inl n ↦ rw (insert_request, b, n) (r, e, c, omega (arith, s))
        | inr (x, n) ↦
            rw (insert_request, b, n)
              (
                r,
                rw lookup-insert (ground (arith, e, s, eq_key (db.request_seq + 1) id)),
                c,
                omega (arith, s),
              )
      ]
    ]

resolve_row-IsClosed :
    (id j month now : ℕ) (status : RequestStatus) (note : String) (db : Db)
    → IsClosed id db
    → IsClosed id (resolve_row j status note month now db).1
unfolding resolve_row IsClosed
resolve_row-IsClosed id j month now status note db (r, e, c, s) =
    elim (Option-cases (lookup j db.requests)) [
      | inl n ↦ rw (resolve_row, n) (r, e, c, s)
      | inr (x, n) ↦ elim (Bool-cases (awaits x.status && leb month x.period)) [
        | inr b ↦ rw (resolve_row, n, b) (r, e, c, s)
        | inl b ↦ elim (Bool-cases (j == id)) [
          | inr d ↦ rw (resolve_row, n, b) (r, rw (lookup-insert, d) e, c, s)
          | inl d ↦
              let both : some x ≡ some r =
                sym n ∙ ap (λ k. lookup k db.requests) ((eq_key j id).0 d) ∙ e in
              let same : x ≡ r = cc both in
              absurd (
                false≢true
                  (sym (ap (λ z. awaits z.status && leb month z.period) same ∙ rw c refl) ∙ b))
        ]
      ]
    ]

expire_rows-lookup :
    (id month now : ℕ) (rows : Dict ℕ CreditRequest) (r : CreditRequest)
    → lookup id rows ≡ some r
    → awaits r.status ≡ false
    → lookup id (expire_rows month now rows) ≡ some r
unfolding expire_rows lookup
expire_rows-lookup id month now [] r e c = e
expire_rows-lookup id month now ((j, x) ∷ rows) r e c = elim (Bool-cases (j == id)) [
  | inr d ↦ rw d (expire_rows-lookup id month now rows r (rw d at e) c)
  | inl d ↦
      let found : some x ≡ some r = rw d at e in
      let same : x ≡ r = cc found in rw d (rw same (rw c refl))
]

IsClosed-kept : (id : ℕ) → IsKept (IsClosed id)
unfolding IsClosed
IsClosed-kept id = record {
  filing = λ account month now db h. insert_request-IsClosed id account month now db h;
  expiry =
      λ month now db h. (h.0, expire_rows-lookup id month now db.requests h.0 h.1 h.2, h.2, h.3);
  resolving = λ j month now status note db h. resolve_row-IsClosed id j month now status note db h;
}

-- An update that affects a row closes the row's request.
resolve_row-closes :
    (id month now : ℕ) (status : RequestStatus) (note : String) (db : Db)
    → id ≤ db.request_seq
    → awaits status ≡ false
    → (resolve_row id status note month now db).0 ≡ ok true
    → IsClosed id (resolve_row id status note month now db).1
unfolding resolve_row IsClosed
resolve_row-closes id month now status note db s c h = elim (Option-cases (lookup id db.requests)) [
  | inl n ↦ absurd (let a = h in cc (rw (resolve_row, n) at a))
  | inr (x, n) ↦ elim (Bool-cases (awaits x.status && leb month x.period)) [
    | inr b ↦ absurd (let a = h in cc (rw (resolve_row, n, b) at a))
    | inl b ↦
        rw (resolve_row, n, b)
          (resolved_row status note now x, rw (lookup-insert, eq_self id) refl, c, s)
  ]
]

-- It affects no row of a closed request.
resolve_row-closed :
    (id month now : ℕ) (status : RequestStatus) (note : String) (db : Db)
    → IsClosed id db
    → (resolve_row id status note month now db).0 ≡ ok false
unfolding resolve_row IsClosed
resolve_row-closed id month now status note db (r, e, c, s) = rw (resolve_row, e, c) refl

continue-fails :
    {A B : Type 0} (f : A → Sql B) (r : Result A × World) (y : B)
    → ((x : A) (w : World) → (f x w).0 ≢ ok y)
    → (continue f r).0 ≢ ok y
continue-fails f (ok x, w) y k h = k x w h
continue-fails f (err e, w) y k h = absurd (cc h)

fails-err : (e : Error) (w : World) → (fails e w).0 ≢ ok tt
unfolding fails
fails-err e w h = absurd (cc h)

explain-fails : (month now : ℕ) (r : CreditRequest) (w : World) → (explain month now r w).0 ≢ ok tt
unfolding explain ◌>>=◌
explain-fails month now r w = elim (Bool-cases (is_stale_request month r)) [
  | inl e ↦
      rw (explain, e)
        (continue-fails (λ x. fails request_expired) (expire_stale month now w) tt
          (λ x v. fails-err request_expired v))
  | inr e ↦ rw (explain, e) (fails-err _ w)
]

not_resolved : (id month now : ℕ) (w : World) → (resolved_or_not id month now false w).0 ≢ ok tt
unfolding resolved_or_not ◌>>=◌
not_resolved id month now w =
    continue-fails (explain month now) (statement (select_request id) w) tt
      (explain-fails month now)

-- A resolution that succeeds has affected a row, and nothing follows.
affected_row :
    (id month now : ℕ) (r : Result Bool × World)
    → (continue (resolved_or_not id month now) r).0 ≡ ok tt
    → (r.0 ≡ ok true) × ((continue (resolved_or_not id month now) r).1 ≡ r.1)
unfolding resolved_or_not pure
affected_row id month now (ok true, w) h = (refl, refl)
affected_row id month now (ok false, w) h = absurd (not_resolved id month now w h)
affected_row id month now (err e, w) h = absurd (cc h)

resolve-closes :
    (month_of : ℕ → ℕ) (id : ℕ) (status : RequestStatus) (note : String) (w : World)
    → id ≤ w.db.request_seq
    → awaits status ≡ false
    → (resolve_credit_request month_of id status note w).0 ≡ ok tt
    → IsClosed id (resolve_credit_request month_of id status note w).1.db
unfolding resolve_credit_request ◌>>=◌ clock
resolve-closes month_of id status note w s c h =
    let q = resolve_row id status note (month_of w.now) w.now in
    let affected = affected_row id (month_of w.now) w.now (statement q w) h in
    let answered = statement-answers q w true affected.0 in
    subst (λ v. IsClosed id v.db) (sym affected.1)
      (subst (IsClosed id) (sym answered.1)
        (resolve_row-closes id (month_of w.now) w.now status note w.db s c answered.0))

resolve-closed :
    (month_of : ℕ → ℕ) (id : ℕ) (status : RequestStatus) (note : String) (w : World)
    → IsClosed id w.db
    → (resolve_credit_request month_of id status note w).0 ≢ ok tt
unfolding resolve_credit_request ◌>>=◌ clock
resolve-closed month_of id status note w closed h =
    let q = resolve_row id status note (month_of w.now) w.now in
    let affected = affected_row id (month_of w.now) w.now (statement q w) h in
    let answered = statement-answers q w true affected.0 in
    absurd
      (cc (sym (resolve_row-closed id (month_of w.now) w.now status note w.db closed) ∙ answered.0))

-- Once a request has been granted or dismissed, no later call resolves it again, whatever calls
-- are made in between and whichever of them fail; so it is granted at most once.
pub resolve_once :
    (month_of : ℕ → ℕ) (calls : List (Moment × Call)) (id : ℕ)
    (status second_status : RequestStatus) (note second_note : String) (w : World)
    → id ≤ w.db.request_seq
    → awaits status ≡ false
    → (resolve_credit_request month_of id status note w).0 ≡ ok tt
    → (resolve_credit_request month_of id second_status second_note
        (run month_of calls (resolve_credit_request month_of id status note w).1)).0
      ≢ ok tt
resolve_once month_of calls id status second_status note second_note w s c h =
    let first = (resolve_credit_request month_of id status note w).1 in
    resolve-closed month_of id second_status second_note (run month_of calls first) (
      run-keeps (IsClosed id) (IsClosed-kept id) month_of calls first
        (resolve-closes month_of id status note w s c h))
