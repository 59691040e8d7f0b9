-- ===== src/Store/Requests/Open.antt =====
-- internal/store/credit_requests.go: an account has at most one open request for a month.
use local_ai_proxy.Prelude.{
  ℕ, ◌+◌, ◌≡◌, refl, sym, ap, subst, ◌∙◌, Bool, true, false, ◌&&◌, Option, none, some, String, List,
  [], ◌∷◌, leb, if◌then◌else◌, ◌==◌, eq_key, ℕ_key, inl, inr, ◌⊎◌, Bool-cases, Option-cases,
  false≢true,
}
use local_ai_proxy.Prelude.Int.{ℤ, pos, ◌+ℤ◌, ◌-ℤ◌, ◌≤ℤ◌, int_laws}
use local_ai_proxy.Prelude.Dict.{Dict, lookup}
use local_ai_proxy.Prelude.Rows.{weigh, weigh-insert, weight_of}
use local_ai_proxy.Store.Sql.{
  RequestStatus, request_pending, granted, dismissed, request_expired_status, CreditRequest, Db,
  World,
}
use local_ai_proxy.Store.Requests.Calls.{Moment, Call, run, run-keeps}
use local_ai_proxy.Store.Requests.{
  is_open, awaits, blocks, any_blocks, new_request, insert_request, is_stale_request, expired_row,
  expire_rows, resolved_row, resolve_row,
}

-- One for a request that blocks another one of the account in the month.
abbrev open_in : ℕ → ℕ → CreditRequest → ℤ
open_in account month r = if blocks account month r then pos 1 else pos 0

unfoldable pub IsOpenOnce : ℕ → ℕ → Db → Type 0
IsOpenOnce account month db = weigh (open_in account month) db.requests ≤ℤ pos 1

none_open :
    (account month : ℕ) (rows : Dict ℕ CreditRequest)
    → any_blocks account month rows ≡ false
    → weigh (open_in account month) rows ≡ pos 0
unfolding weigh
none_open account month [] h = refl
none_open account month ((id, r) ∷ rows) h = elim (Bool-cases (blocks account month r)) [
  | inl e ↦ absurd (false≢true (sym (rw e at h)))
  | inr e ↦ rw (e, none_open account month rows (rw e at h)) (omega int_laws)
]

weight-bounds :
    (account month : ℕ) (o : Option CreditRequest)
    → (pos 0 ≤ℤ weight_of (open_in account month) o)
      × (weight_of (open_in account month) o ≤ℤ pos 1)
weight-bounds account month none = (omega int_laws, omega int_laws)
weight-bounds account month (some r) = elim (Bool-cases (blocks account month r)) [
  | inl e ↦ rw (open_in, e) (omega int_laws, omega int_laws)
  | inr e ↦ rw (open_in, e) (omega int_laws, omega int_laws)
]

-- A row's weight is replaced by another one.
replaced_weight :
    (total old new : ℤ)
    → pos 0 ≤ℤ old
    → total ≤ℤ pos 1
    → new ≤ℤ pos 1
    → (total ≡ pos 0) ⊎ (new ≡ pos 0)
    → total -ℤ old +ℤ new ≤ℤ pos 1
replaced_weight total old new ho ht hn (inl e) = rw e (omega (int_laws, ho, hn))
replaced_weight total old new ho ht hn (inr e) = rw e (omega (int_laws, ho, ht))

lighter_weight : (total old new : ℤ) → new ≤ℤ old → total ≤ℤ pos 1 → total -ℤ old +ℤ new ≤ℤ pos 1
lighter_weight total old new hn ht = omega (int_laws, hn, ht)

new_weight :
    (a m account month now : ℕ) (rows : Dict ℕ CreditRequest)
    → any_blocks account month rows ≡ false
    → (weigh (open_in a m) rows ≡ pos 0) ⊎ (open_in a m (new_request account month now) ≡ pos 0)
new_weight a m account month now rows h = elim (Bool-cases (account == a)) [
  | inr d ↦ inr (rw (open_in, blocks, d) refl)
  | inl d ↦ elim (Bool-cases (month == m)) [
    | inr e ↦ inr (rw (open_in, blocks, d, e) refl)
    | inl e ↦ inl (
        none_open a m rows (
          ap (λ k. any_blocks k m rows) (sym ((eq_key account a).0 d))
          ∙ ap (λ k. any_blocks account k rows) (sym ((eq_key month m).0 e))
          ∙ h))
  ]
]

pending_open : (s : RequestStatus) → awaits s ≡ true → is_open s ≡ true
pending_open request_pending h = refl
pending_open granted h = absurd (false≢true h)
pending_open dismissed h = refl
pending_open request_expired_status h = absurd (false≢true h)

resolved_weight :
    (a m now : ℕ) (status : RequestStatus) (note : String) (r : CreditRequest)
    → awaits r.status ≡ true
    → open_in a m (resolved_row status note now r) ≤ℤ open_in a m r
resolved_weight a m now status note r h = elim (Bool-cases (r.account_id == a && r.period == m)) [
  | inl e ↦
      rw (open_in, blocks, e, pending_open r.status h)
        (elim (Bool-cases (is_open status)) [
          | inl o ↦ rw o (omega int_laws)
          | inr o ↦ rw o (omega int_laws)
        ])
  | inr e ↦ rw (open_in, blocks, e) (omega int_laws)
]

pub insert_request-IsOpenOnce :
    (a m account month now : ℕ) (db : Db)
    → IsOpenOnce a m db
    → IsOpenOnce a m (insert_request account month now db).1
unfolding insert_request IsOpenOnce
insert_request-IsOpenOnce a m account month now db h =
    elim (Bool-cases (any_blocks account month db.requests)) [
      | inl e ↦ rw (insert_request, e) h
      | inr e ↦ elim (Option-cases (lookup account db.accounts)) [
        | inl n ↦ rw (insert_request, e, n) h
        | inr (x, n) ↦
            rw (insert_request, e, n)
              (subst (λ t. t ≤ℤ pos 1)
                (sym (
                  weigh-insert (open_in a m) (db.request_seq + 1) (new_request account month now)
                    db.requests))
                (replaced_weight (weigh (open_in a m) db.requests)
                  (weight_of (open_in a m) (lookup (db.request_seq + 1) db.requests))
                  (open_in a m (new_request account month now))
                  (weight-bounds a m (lookup (db.request_seq + 1) db.requests)).0 h
                  (weight-bounds a m (some (new_request account month now))).1
                  (new_weight a m account month now db.requests e)))
      ]
    ]

and_left : (a b : Bool) → (a && b) ≡ true → a ≡ true
and_left true b h = refl
and_left false b h = absurd (false≢true h)

pub resolve_row-IsOpenOnce :
    (a m id month now : ℕ) (status : RequestStatus) (note : String) (db : Db)
    → IsOpenOnce a m db
    → IsOpenOnce a m (resolve_row id status note month now db).1
unfolding resolve_row IsOpenOnce
resolve_row-IsOpenOnce a m id month now status note db h =
    elim (Option-cases (lookup id db.requests)) [
      | inl e ↦ rw (resolve_row, e) h
      | inr (r, e) ↦ elim (Bool-cases (awaits r.status && leb month r.period)) [
        | inr c ↦ rw (resolve_row, e, c) h
        | inl c ↦
            rw (resolve_row, e, c)
              (subst (λ t. t ≤ℤ pos 1)
                (sym (weigh-insert (open_in a m) id (resolved_row status note now r) db.requests))
                (rw e (
                  lighter_weight (weigh (open_in a m) db.requests) (open_in a m r)
                    (open_in a m (resolved_row status note now r))
                    (resolved_weight a m now status note r
                      (and_left (awaits r.status) (leb month r.period) c))
                    h)))
      ]
    ]

expired_weight :
    (a m now : ℕ) (r : CreditRequest) → open_in a m (expired_row now r) ≤ℤ open_in a m r
expired_weight a m now r = elim (Bool-cases (r.account_id == a && r.period == m)) [
  | inl e ↦
      rw (open_in, blocks, e)
        (elim (Bool-cases (is_open r.status)) [
          | inl o ↦ rw o (omega int_laws)
          | inr o ↦ rw o (omega int_laws)
        ])
  | inr e ↦ rw (open_in, blocks, e) (omega int_laws)
]

added_weight : (x y s t : ℤ) → x ≤ℤ y → s ≤ℤ t → x +ℤ s ≤ℤ y +ℤ t
added_weight x y s t h k = omega (int_laws, h, k)

pub expire_rows-le :
    (a m month now : ℕ) (rows : Dict ℕ CreditRequest)
    → weigh (open_in a m) (expire_rows month now rows) ≤ℤ weigh (open_in a m) rows
unfolding expire_rows weigh
expire_rows-le a m month now [] = omega int_laws
expire_rows-le a m month now ((id, r) ∷ rows) = elim (Bool-cases (is_stale_request month r)) [
  | inl e ↦ rw e (
      added_weight (open_in a m (expired_row now r)) (open_in a m r)
        (weigh (open_in a m) (expire_rows month now rows)) (weigh (open_in a m) rows)
        (expired_weight a m now r) (expire_rows-le a m month now rows))
  | inr e ↦ rw e (
      added_weight (open_in a m r) (open_in a m r)
        (weigh (open_in a m) (expire_rows month now rows)) (weigh (open_in a m) rows)
        (omega int_laws) (expire_rows-le a m month now rows))
]

le_trans_one : (x y : ℤ) → x ≤ℤ y → y ≤ℤ pos 1 → x ≤ℤ pos 1
le_trans_one x y h k = omega (int_laws, h, k)

pub expire-IsOpenOnce :
    (a m month now : ℕ) (db : Db)
    → IsOpenOnce a m db
    → IsOpenOnce a m (record db { requests = expire_rows month now db.requests })
unfolding IsOpenOnce
expire-IsOpenOnce a m month now db h =
    le_trans_one (weigh (open_in a m) (expire_rows month now db.requests))
      (weigh (open_in a m) db.requests) (expire_rows-le a m month now db.requests) h

-- Whatever calls are made, and whichever of them fail, an account keeps to one request for a month
-- that is pending or dismissed.
pub run-IsOpenOnce :
    (month_of : ℕ → ℕ) (calls : List (Moment × Call)) (w : World) (account month : ℕ)
    → IsOpenOnce account month w.db
    → IsOpenOnce account month (run month_of calls w).db
run-IsOpenOnce month_of calls w account month h =
    run-keeps (IsOpenOnce account month)
      (record {
        filing = λ a m now db k. insert_request-IsOpenOnce account month a m now db k;
        expiry = λ m now db k. expire-IsOpenOnce account month m now db k;
        resolving = λ id m now status note db k.
            resolve_row-IsOpenOnce account month id m now status note db k;
      })
      month_of calls w h
