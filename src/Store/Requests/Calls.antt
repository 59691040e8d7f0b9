-- ===== src/Store/Requests/Calls.antt =====
-- internal/store/credit_requests.go: any sequence of its calls, each under any failures of the driver.
use local_ai_proxy.Prelude.{
  ℕ, Bool, true, false, String, List, [], ◌∷◌, ℕ_key, inl, inr, Bool-cases, Option-cases,
}
use local_ai_proxy.Prelude.Dict.{lookup}
use local_ai_proxy.Store.Sql.{
  RequestStatus, CreditRequest, request_expired, ok, Db, World, ◌>>=◌, pure, clock, statement,
}
use local_ai_proxy.Store.Statements.{statement-keeps, continue-keeps}
use local_ai_proxy.Store.Requests.{
  insert_request, file_credit_request, is_stale_request, expire_rows, expire_stale, resolve_row,
  select_request, fails, explain, resolved_or_not, resolve_credit_request,
}

-- A call, with the time at which it is made and the driver's failures during it.
pub record Moment : Type 0 where
  pub at : ℕ
  pub faults : List Bool

pub data Call : Type 0 where
  files : ℕ → Call
  expires : Call
  resolves : ℕ → RequestStatus → String → Call

module _ (month_of : ℕ → ℕ) where
  unfoldable pub perform : Moment → Call → World → World
  perform t (files account) w =
      (file_credit_request month_of account (record w { now = t.at; faults = t.faults })).1
  perform t expires w =
      (expire_stale (month_of t.at) t.at (record w { now = t.at; faults = t.faults })).1
  perform t (resolves id status note) w =
      (resolve_credit_request month_of id status note
        (record w { now = t.at; faults = t.faults })).1

  -- The latest call stands first.
  unfoldable pub run : List (Moment × Call) → World → World
  run [] w = w
  run ((t, c) ∷ calls) w = perform t c (run calls w)

-- What the three statements that write keep, every call keeps.
pub record IsKept (P : Db → Type 0) : Type 0 where
  pub filing : (account month now : ℕ) (db : Db) → P db → P (insert_request account month now db).1
  pub expiry :
      (month now : ℕ) (db : Db)
      → P db
      → P (record db { requests = expire_rows month now db.requests })
  pub resolving :
      (id month now : ℕ) (status : RequestStatus) (note : String) (db : Db)
      → P db
      → P (resolve_row id status note month now db).1

module _ (P : Db → Type 0) (keep : IsKept P) where
  expire_stale-keeps : (month now : ℕ) (w : World) → P w.db → P (expire_stale month now w).1.db
  unfolding expire_stale
  expire_stale-keeps month now w h =
      statement-keeps P (λ db. (ok tt, record db { requests = expire_rows month now db.requests }))
        w h (keep.expiry month now w.db h)

  select-keeps : (id : ℕ) (w : World) → P w.db → P (statement (select_request id) w).1.db
  unfolding select_request
  select-keeps id w h =
      statement-keeps P (select_request id) w h (elim (Option-cases (lookup id w.db.requests)) [
        | inl e ↦ rw (select_request, e) h
        | inr (r, e) ↦ rw (select_request, e) h
      ])

  explain-keeps :
      (month now : ℕ) (r : CreditRequest) (w : World) → P w.db → P (explain month now r w).1.db
  unfolding explain ◌>>=◌ fails
  explain-keeps month now r w h = elim (Bool-cases (is_stale_request month r)) [
    | inl e ↦
        rw (explain, e)
          (continue-keeps P (λ x. fails request_expired) (expire_stale month now w)
            (expire_stale-keeps month now w h) (λ x v k. k))
    | inr e ↦ rw (explain, e) h
  ]

  resolved_or_not-keeps :
      (id month now : ℕ) (affected : Bool) (w : World)
      → P w.db
      → P (resolved_or_not id month now affected w).1.db
  unfolding resolved_or_not ◌>>=◌ pure
  resolved_or_not-keeps id month now true w h = h
  resolved_or_not-keeps id month now false w h =
      continue-keeps P (explain month now) (statement (select_request id) w) (select-keeps id w h)
        (explain-keeps month now)

  pub resolve-keeps :
      (month_of : ℕ → ℕ) (id : ℕ) (status : RequestStatus) (note : String) (w : World)
      → P w.db
      → P (resolve_credit_request month_of id status note w).1.db
  unfolding resolve_credit_request ◌>>=◌ clock
  resolve-keeps month_of id status note w h =
      continue-keeps P (resolved_or_not id (month_of w.now) w.now)
        (statement (resolve_row id status note (month_of w.now) w.now) w)
        (statement-keeps P (resolve_row id status note (month_of w.now) w.now) w h
          (keep.resolving id (month_of w.now) w.now status note w.db h))
        (resolved_or_not-keeps id (month_of w.now) w.now)

  perform-keeps :
      (month_of : ℕ → ℕ) (t : Moment) (c : Call) (w : World)
      → P w.db
      → P (perform month_of t c w).db
  unfolding perform file_credit_request ◌>>=◌ clock
  perform-keeps month_of t (files account) w h =
      statement-keeps P (insert_request account (month_of t.at) t.at)
        (record w { now = t.at; faults = t.faults }) h
        (keep.filing account (month_of t.at) t.at w.db h)
  perform-keeps month_of t expires w h =
      expire_stale-keeps (month_of t.at) t.at (record w { now = t.at; faults = t.faults }) h
  perform-keeps month_of t (resolves id status note) w h =
      resolve-keeps month_of id status note (record w { now = t.at; faults = t.faults }) h

  pub run-keeps :
      (month_of : ℕ → ℕ) (calls : List (Moment × Call)) (w : World)
      → P w.db
      → P (run month_of calls w).db
  unfolding run
  run-keeps month_of [] w h = h
  run-keeps month_of ((t, c) ∷ calls) w h =
      perform-keeps month_of t c (run month_of calls w) (run-keeps month_of calls w h)
