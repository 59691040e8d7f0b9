-- ===== src/Store/Federated/Stable.antt =====
-- internal/store/federated.go: the account that an identity is resolved to, again and again.
use local_ai_proxy.Prelude.{
  ℕ, ◌≡◌, refl, sym, ◌∙◌, subst, false, Option, none, some, ℕ_key, String_key, inl, inr,
  Option-cases, Bool, List,
}
use local_ai_proxy.Prelude.Int.{ℤ}
use local_ai_proxy.Prelude.Rows.{find_row, find_as-find_row, find_as-none}
use local_ai_proxy.Store.Sql.{Result, ok, Db, World}
use local_ai_proxy.Store.Leads.{Leads, Holds, statement-Leads, bind-Leads, pure-Leads}
use local_ai_proxy.Store.Federated.{
  FederatedIdentity, EndUserResolution, is_identity, refresh_identity, lookup_federated_account,
  apply_monthly_allowance, found_or_provision, resolve_end_user_account,
}
use local_ai_proxy.Store.Federated.Calls.{AccountCall, Moment, run}
use local_ai_proxy.Store.Federated.Histories.{run-steady}
use local_ai_proxy.Store.Federated.Bound.{IsBound, IsBound-IsSteady}
use local_ai_proxy.Store.Federated.Binds.{HasIds, kept-Holds, resolve-IsBound}

-- An identity that is bound already
module _ (f : FederatedIdentity) (a : ℕ) where
  finds_again : Leads (IsBound f a) (lookup_federated_account f) (λ known db. known ≡ some a)
  unfolding lookup_federated_account refresh_identity
  finds_again = statement-Leads _ (λ db h.
      elim (Option-cases (find_row (is_identity f) db.directory.identities)) [
        | inl e ↦
            absurd (
              cc (find_as-none (is_identity f) (λ i. i.account_id) db.directory.identities e, h.at))
        | inr ((k, i), e) ↦
            rw (refresh_identity, e)
              (sym (
                  find_as-find_row (is_identity f) (λ i. i.account_id) db.directory.identities k i
                    e)
                ∙ h.at)
      ])

  abbrev Same : ℕ × Bool → Db → Type 0
  Same x db = (x.0 ≡ a) × (x.1 ≡ false)

  found-Same : (known : Option ℕ) → Leads (λ db. known ≡ some a) (found_or_provision f known) Same
  unfolding found_or_provision
  found-Same (some b) = pure-Leads _ (λ db p. (cc p, refl))
  found-Same none = record { run = λ w p. absurd (cc p) }

  pub resolve-Same :
      (month_of : ℕ → ℕ) (g : ℤ) (now : ℕ)
      → Leads
          (IsBound f a)
          (resolve_end_user_account month_of f g now)
          (λ r db. (r.account_id ≡ a) × (r.provisioned ≡ false))
  unfolding resolve_end_user_account
  resolve-Same month_of g now = bind-Leads finds_again (λ known. bind-Leads (found-Same known) (λ x.
      bind-Leads {R = λ y db. Same x db}
        (record {
          run = λ w p.
              kept-Holds (Same x) (apply_monthly_allowance x.0 g (month_of now) w).0
                (apply_monthly_allowance x.0 g (month_of now) w).1.db p;
        })
        (λ y. pure-Leads _ (λ db p. p))))

pub resolved_then :
    {A : Type 0} (Q : A → Db → Type 0) (r : Result A) (x : A) (db : Db)
    → r ≡ ok x
    → Holds Q r db
    → Q x db
resolved_then Q r x db e h = subst (λ s. Holds Q s db) e h

-- If no two identities have the same id: once an identity has been resolved to an account, every
-- later call that resolves it answers the same account and that it has provisioned none, whatever end
-- users are resolved, accounts are changed and credits are moved in between, and whichever calls of
-- the database fail.
pub resolve_again :
    (month_of : ℕ → ℕ) (f : FederatedIdentity) (g h : ℤ) (now : ℕ) (first again : EndUserResolution)
    (calls : List (Moment × AccountCall)) (w : World) (t : Moment)
    → HasIds w.db
    → (resolve_end_user_account month_of f g now w).0 ≡ ok first
    → let before = run month_of calls (resolve_end_user_account month_of f g now w).1 in
      (resolve_end_user_account month_of f h t.at
          (record before { now = t.at; faults = t.faults })).0
        ≡ ok again
      → (again.account_id ≡ first.account_id) × (again.provisioned ≡ false)
resolve_again month_of f g h now first again calls w t ids one two =
    let start : World = (resolve_end_user_account month_of f g now w).1 in
    let bound : IsBound f first.account_id start.db =
      resolved_then (λ r. IsBound f r.account_id) (resolve_end_user_account month_of f g now w).0
        first start.db one ((resolve-IsBound f month_of g now).run w ids) in
    let v : World = record (run month_of calls start) { now = t.at; faults = t.faults } in
    resolved_then (λ r db. (r.account_id ≡ first.account_id) × (r.provisioned ≡ false))
      (resolve_end_user_account month_of f h t.at v).0 again
      (resolve_end_user_account month_of f h t.at v).1.db two
      ((resolve-Same f first.account_id month_of h t.at).run v
        (run-steady (IsBound-IsSteady f first.account_id) month_of calls start bound))
