-- ===== src/Store/Requests.antt =====
-- internal/store/credit_requests.go: the requests of accounts that have hit their allowance. A month
-- is a count of months; its first day in UTC is a parameter's business.
pub mod Open
pub mod Calls
pub mod Resolved
use local_ai_proxy.Prelude.{
  ℕ, ◌+◌, Bool, true, false, ◌&&◌, ◌||◌, not, Option, none, some, String, List, [], ◌∷◌, leb, ltb,
  if◌then◌else◌, ◌==◌, ℕ_key, String_key,
}
use local_ai_proxy.Prelude.Dict.{Dict, lookup, insert}
use local_ai_proxy.Store.Sql.{
  RequestStatus, request_pending, granted, dismissed, request_expired_status, CreditRequest, Error,
  unavailable, not_found, request_resolved, request_expired, Result, ok, err, Db, World, Sql, ◌>>=◌,
  ◌>>◌, pure, clock, statement,
}

abbrev pub is_open : RequestStatus → Bool
is_open request_pending = true
is_open granted = false
is_open dismissed = true
is_open request_expired_status = false

abbrev pub awaits : RequestStatus → Bool
awaits request_pending = true
awaits granted = false
awaits dismissed = false
awaits request_expired_status = false

-- `status IN ('pending', 'dismissed')`, of the account in the month
abbrev pub blocks : ℕ → ℕ → CreditRequest → Bool
blocks account month r = r.account_id == account && r.period == month && is_open r.status

abbrev pub any_blocks : ℕ → ℕ → Dict ℕ CreditRequest → Bool
any_blocks account month [] = false
any_blocks account month ((id, r) ∷ rows) = blocks account month r || any_blocks account month rows

abbrev pub new_request : ℕ → ℕ → ℕ → CreditRequest
new_request account month now = record {
  account_id = account;
  period = month;
  status = request_pending;
  created_at = now;
  resolved_at = none;
  resolved_note = none;
}

-- `INSERT … SELECT … WHERE NOT EXISTS … RETURNING id`; the account's row is the foreign key.
unfoldable pub insert_request : ℕ → ℕ → ℕ → Db → Result (Option ℕ) × Db
insert_request account month now db =
    let id = db.request_seq + 1 in
    if any_blocks account month db.requests
    then (ok none, db)
    else elim (lookup account db.accounts) [
      | none ↦ (err unavailable, record db { request_seq = id })
      | some a ↦ (
        ok (some id),
        record db {
          requests = insert id (new_request account month now) db.requests;
          request_seq = id;
        },
      )
    ]

-- FileCreditRequest: the id, if this call has filed the request.
unfoldable pub file_credit_request : (ℕ → ℕ) → ℕ → Sql (Option ℕ)
file_credit_request month_of account = do
  now ← clock
  statement (insert_request account (month_of now) now)

abbrev pub is_stale_request : ℕ → CreditRequest → Bool
is_stale_request month r = awaits r.status && ltb r.period month

abbrev pub expired_row : ℕ → CreditRequest → CreditRequest
expired_row now r = record r {
  status = request_expired_status;
  resolved_at = some now;
  resolved_note = some "expired at month rollover";
}

unfoldable pub expire_rows : ℕ → ℕ → Dict ℕ CreditRequest → Dict ℕ CreditRequest
expire_rows month now [] = []
expire_rows month now ((id, r) ∷ rows) =
    (id, if is_stale_request month r then expired_row now r else r) ∷ expire_rows month now rows

-- expireStaleCreditRequests
unfoldable pub expire_stale : ℕ → ℕ → Sql (Unit {0})
expire_stale month now =
    statement λ db. (ok tt, record db { requests = expire_rows month now db.requests })

abbrev pub note_of : String → Option String
note_of note = if note == "" then none else some note

abbrev pub resolved_row : RequestStatus → String → ℕ → CreditRequest → CreditRequest
resolved_row status note now r = record r {
  status = status;
  resolved_at = some now;
  resolved_note = note_of note;
}

-- `UPDATE credit_requests … WHERE id = $1 AND status = 'pending' AND period >= $4`: whether a row
-- was affected.
unfoldable pub resolve_row : ℕ → RequestStatus → String → ℕ → ℕ → Db → Result Bool × Db
resolve_row id status note month now db = elim (lookup id db.requests) [
  | none ↦ (ok false, db)
  | some r ↦
      if (awaits r.status && leb month r.period)
      then (
        ok true,
        record db { requests = insert id (resolved_row status note now r) db.requests },
      )
      else (ok false, db)
]

-- `SELECT status, period`, which an unknown id misses
unfoldable pub select_request : ℕ → Db → Result CreditRequest × Db
select_request id db = elim (lookup id db.requests) [
  | none ↦ (err not_found, db)
  | some r ↦ (ok r, db)
]

unfoldable pub fails : Error → Sql (Unit {0})
fails e w = (err e, w)

-- The reason why no row was affected.
unfoldable pub explain : ℕ → ℕ → CreditRequest → Sql (Unit {0})
explain month now r =
    if is_stale_request month r
    then (expire_stale month now >> fails request_expired)
    else fails request_resolved

unfoldable pub resolved_or_not : ℕ → ℕ → ℕ → Bool → Sql (Unit {0})
resolved_or_not id month now true = pure tt
resolved_or_not id month now false = do r ← statement (select_request id); explain month now r

-- ResolveCreditRequest; the handler passes no other status than granted and dismissed.
unfoldable pub resolve_credit_request : (ℕ → ℕ) → ℕ → RequestStatus → String → Sql (Unit {0})
resolve_credit_request month_of id status note = do
  now ← clock
  affected ← statement (resolve_row id status note (month_of now) now)
  resolved_or_not id (month_of now) now affected
