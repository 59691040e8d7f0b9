-- ===== src/Billing/Isolation.antt =====
-- internal/billing/billing.go: whom a request is billed to.
use local_ai_proxy.Prelude.{
  ℕ, ◌≡◌, refl, sym, ap, subst, ◌∙◌, ◌&&◌, Bool, true, false, some, List, String, String_key, ◌==◌,
}
use local_ai_proxy.Prelude.Int.{ℤ}
use local_ai_proxy.Prelude.Rows.{find_as}
use local_ai_proxy.Entities.{ApiKey, Resolution}
use local_ai_proxy.Store.Sql.{Result, ok, err, Db, World}
use local_ai_proxy.Store.Federated.{EndUserResolution, resolve_end_user_account}
use local_ai_proxy.Store.Federated.Bound.{IsBound, IsBound-IsSteady}
use local_ai_proxy.Store.Federated.Binds.{HasIds, resolve-IsBound}
use local_ai_proxy.Store.Federated.Calls.{AccountCall, Moment, run}
use local_ai_proxy.Store.Federated.Histories.{run-steady}
use local_ai_proxy.Store.Federated.Stable.{resolved_then, resolve-Same}
use local_ai_proxy.Billing.{Identity, continues, federated, of_user, names_user, bill}

-- Headers on a key that does not trust them change nothing: the request is billed as one without
-- them, whoever they name.
pub bill-untrusted :
    (month_of : ℕ → ℕ) (g : ℤ) (has_db : Bool) (key : ApiKey) (who other : Identity) (w : World)
    → key.trust_user_headers ≡ false
    → bill month_of g has_db (some key) who w ≡ bill month_of g has_db (some key) other w
unfolding bill
bill-untrusted month_of g has_db key who other w e = simp (e) refl

bill-named :
    (month_of : ℕ → ℕ) (g : ℤ) (key : ApiKey) (who : Identity) (w : World)
    → key.trust_user_headers ≡ true
    → (who.external_id == "") ≡ false
    → bill month_of g true (some key) who w
      ≡ of_user (resolve_end_user_account month_of (federated who) g w.now w)
unfolding bill
bill-named month_of g key who w t n = rw (names_user, t, n) refl

-- A request that continues has the account of the resolution.
of_user_lem :
    (r : Result EndUserResolution × World) (x : Resolution)
    → (of_user r).0 ≡ continues (some x)
    → (u : EndUserResolution) × (r.0 ≡ ok u)
      × (x.account_id ≡ u.account_id)
      × (x.allowance_managed ≡ true)
of_user_lem (ok u, w) x e = (u, refl, cc e, cc e)
of_user_lem (err f, w) x e = absurd (cc e)

of_user-world : (r : Result EndUserResolution × World) → (of_user r).1 ≡ r.1
of_user-world (ok u, w) = refl
of_user-world (err f, w) = refl

-- The binding is one of the external id.
renamed-IsBound :
    (who again : Identity) (a : ℕ) (db : Db)
    → again.external_id ≡ who.external_id
    → IsBound (federated who) a db
    → IsBound (federated again) a db
renamed-IsBound who again a db same h = record {
  unique = h.unique;
  at =
      subst
        (λ (x : String).
          find_as (λ i. i.source == "openwebui" && i.external_id == x) (λ i. i.account_id)
            db.directory.identities
          ≡ some a)
        (sym same) h.at;
}

-- If the store is not nil and no two identities have the same id: once a request of an end user, on
-- a key that trusts the headers, has been billed, every later request of the same external id on
-- any such key that is billed at all is billed to the same account, and as one with an allowance,
-- also if the other headers have changed, whatever end users are resolved, accounts are changed and
-- credits are moved in between, and whichever calls of the database fail.
pub bill_again :
    (month_of : ℕ → ℕ) (g : ℤ) (key other : ApiKey) (who again : Identity)
    (first second : Resolution) (calls : List (Moment × AccountCall)) (w : World) (t : Moment)
    → HasIds w.db
    → key.trust_user_headers ≡ true
    → other.trust_user_headers ≡ true
    → (who.external_id == "") ≡ false
    → again.external_id ≡ who.external_id
    → (bill month_of g true (some key) who w).0 ≡ continues (some first)
    → let before = run month_of calls (bill month_of g true (some key) who w).1 in
      (bill month_of g true (some other) again (record before { now = t.at; faults = t.faults })).0
        ≡ continues (some second)
      → (second.account_id ≡ first.account_id) × (second.allowance_managed ≡ true)
bill_again month_of g key other who again first second calls w t ids trusts trusts_too named same
      one two =
    let resolve =
      λ (x : Identity) (v : World). resolve_end_user_account month_of (federated x) g v.now v in
    let billed = bill-named month_of g key who w trusts named in
    let (u, found, account, managed) =
      of_user_lem (resolve who w) first (ap (λ r. r.0) (sym billed) ∙ one) in
    let start : World = (bill month_of g true (some key) who w).1 in
    let left : start ≡ (resolve who w).1 = ap (λ r. r.1) billed ∙ of_user-world (resolve who w) in
    let bound : IsBound (federated who) u.account_id (resolve who w).1.db =
      resolved_then (λ r. IsBound (federated who) r.account_id) (resolve who w).0 u
        (resolve who w).1.db found ((resolve-IsBound (federated who) month_of g w.now).run w ids) in
    let v : World = record (run month_of calls start) { now = t.at; faults = t.faults } in
    let still : IsBound (federated again) u.account_id v.db =
      renamed-IsBound who again u.account_id v.db same (
        run-steady (IsBound-IsSteady (federated who) u.account_id) month_of calls start
          (subst (λ x. IsBound (federated who) u.account_id x.db) (sym left) bound)) in
    let named_too : (again.external_id == "") ≡ false = ap (λ x. x == "") same ∙ named in
    let (y, found_too, account_too, managed_too) =
      of_user_lem (resolve again v) second
        (ap (λ r. r.0) (sym (bill-named month_of g other again v trusts_too named_too)) ∙ two) in
    let (agrees, provisioned) =
      resolved_then (λ r db. (r.account_id ≡ u.account_id) × (r.provisioned ≡ false))
        (resolve again v).0 y (resolve again v).1.db found_too
        ((resolve-Same (federated again) u.account_id month_of g v.now).run v still) in
    (account_too ∙ agrees ∙ sym account, managed_too)
