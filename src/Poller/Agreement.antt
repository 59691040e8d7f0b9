-- ===== src/Poller/Agreement.antt =====
-- internal/poller/poller.go: the registry says of each node what the poller has concluded.
use local_ai_proxy.Prelude.{
  ℕ, ◌≡◌, refl, sym, ap, subst, ◌∙◌, Bool, true, Option, none, some, String, List, ◌==◌, eq_key,
  ℕ_key, String_key, inl, inr, All, Bool-cases, Option-cases, false≢true,
}
use mathlib.Core.Option.{some-ne-none}
use local_ai_proxy.Prelude.Dict.{lookup, keep_if, lookup-insert, lookup-retain}
use local_ai_proxy.Registry.{Node, Entry, same_url, carry_over, set_nodes}
use local_ai_proxy.Registry.Declarations.{
  last_with, declared, probed, set_nodes-lookup, set_node_probe-lookup,
}
use local_ai_proxy.Poller.Pairs.{last_spec, IsPair, Matches, last-Matches}
use local_ai_proxy.Poller.Visits.{
  url_of, Agrees, IsPending, same_url_refl, identity_of, identity_or, node_of, visit_all-IsPending,
  visit_all-identity, visit_all-node,
}
use local_ai_proxy.Poller.{
  NodeSpec, identity, NodeRuntime, Poller, visit_all, has_id, reconcile, specs_in, nodes_in, adopt,
  Outcome, found, failed, advance, published, apply,
}

-- Just after SetNodes.
declared-IsPending :
    (on : Option Node) (ost : Option NodeRuntime) (e : Option Entry)
    → Agrees ost e
    → IsPending ost (declared on e none)
unfolding carry_over
declared-IsPending none ost e h = tt
declared-IsPending (some n) none none h = (refl, refl)
declared-IsPending (some n) none (some e) h = elim h [ ]
declared-IsPending (some n) (some st) none h = elim h [ ]
declared-IsPending (some n) (some st) (some e) h =
    elim (Bool-cases (same_url e.node.base_url n.base_url)) [
      | inl t ↦ rw (carry_over, t) (λ same. (h.0, h.1))
      | inr t ↦
          rw (carry_over, t)
            (λ same.
              absurd (false≢true (sym t ∙ same_url_refl e.node.base_url n.base_url (h.2 ∙ same))))
    ]

declared-node : (n : Node) (prev : Option Entry) → node_of (declared (some n) prev none) ≡ some n
unfolding carry_over
declared-node n none = refl
declared-node n (some e) = elim (Bool-cases (same_url e.node.base_url n.base_url)) [
  | inl t ↦ rw (carry_over, t) refl
  | inr t ↦ rw (carry_over, t) refl
]

-- What is left once the loop has visited every node.
settled-Agrees :
    (os : Option NodeSpec) (on : Option Node) (known : Bool) (ost : Option NodeRuntime)
    (e : Option Entry) (old : Option (List String))
    → Matches os on known
    → IsPending ost e
    → identity_of ost ≡ identity_or old os
    → node_of e ≡ on
    → Agrees (keep_if (λ st. known) ost) e
settled-Agrees none none known none none old m h i n = tt
settled-Agrees none none known (some st) none old m h i n = rw m tt
settled-Agrees none none known ost (some e) old m h i n = absurd (some-ne-none _ n)
settled-Agrees none (some y) known ost e old m h i n = elim m [ ]
settled-Agrees (some x) none known ost e old m h i n = elim m [ ]
settled-Agrees (some x) (some y) known none e old m h i n = absurd (some-ne-none _ (sym i))
settled-Agrees (some x) (some y) known (some st) none old m h i n = absurd (some-ne-none _ (sym n))
settled-Agrees (some x) (some y) known (some st) (some e) old m h i n =
    let si : st.identity ≡ identity x = cc i in
    let ni : e.node ≡ y = cc n in
    let same : url_of st.identity ≡ e.node.base_url =
      ap url_of si ∙ sym (ap (λ z. z.base_url) ni ∙ m.1) in
    rw (m.0) ((h same).0, (h same).1, sym same)

kept_node : (on : Option Node) (prev : Option Entry) → node_of (declared on prev none) ≡ on
kept_node none prev = refl
kept_node (some n) prev = declared-node n prev

-- The nodes that the registry knows after a load are the declared ones.
pub adopt-entry :
    (l : List (NodeSpec × Node)) (p : Poller) (id : ℕ)
    → node_of (lookup id (adopt l p).reg.entries) ≡ last_with id (nodes_in l)
unfolding adopt reconcile
adopt-entry l p id =
    visit_all-node (specs_in l) (record p { reg = set_nodes (nodes_in l) p.reg }) id
    ∙ ap node_of (set_nodes-lookup (nodes_in l) p.reg id)
    ∙ kept_node (last_with id (nodes_in l)) (lookup id p.reg.entries)

pub adopt-Agrees :
    (l : List (NodeSpec × Node)) (p : Poller) (id : ℕ)
    → All IsPair l
    → Agrees (lookup id p.state) (lookup id p.reg.entries)
    → Agrees (lookup id (adopt l p).state) (lookup id (adopt l p).reg.entries)
unfolding adopt reconcile
adopt-Agrees l p id pairs h =
    let q = record p { reg = set_nodes (nodes_in l) p.reg } in
    rw (lookup-retain) (
      settled-Agrees (last_spec id (specs_in l)) (last_with id (nodes_in l))
        (has_id id (specs_in l)) (lookup id (visit_all (specs_in l) q).state)
        (lookup id (visit_all (specs_in l) q).reg.entries) (identity_of (lookup id p.state))
        (last-Matches id l pairs)
        (visit_all-IsPending (specs_in l) q id (
          rw set_nodes-lookup (
            declared-IsPending (last_with id (nodes_in l)) (lookup id p.state)
              (lookup id p.reg.entries) h)))
        (visit_all-identity (specs_in l) q id) (adopt-entry l p id))

is_kept :
    (o : Option NodeRuntime) (old : Option (List String)) (s : NodeSpec) (known : Bool)
    → identity_of o ≡ some (identity s)
    → known ≡ true
    → (st : NodeRuntime) × (keep_if (λ x. known) o ≡ some st)
is_kept none old s known i k = absurd (some-ne-none _ (sym i))
is_kept (some st) old s known i k = (st, rw k refl)

-- A node that a load declares has a state.
pub adopt-state :
    (l : List (NodeSpec × Node)) (p : Poller) (id : ℕ) (s : NodeSpec)
    → last_spec id (specs_in l) ≡ some s
    → has_id id (specs_in l) ≡ true
    → (st : NodeRuntime) × (lookup id (adopt l p).state ≡ some st)
unfolding adopt reconcile
adopt-state l p id s last known =
    let q = record p { reg = set_nodes (nodes_in l) p.reg } in
    rw (lookup-retain) (
      is_kept (lookup id (visit_all (specs_in l) q).state) (identity_of (lookup id p.state)) s
        (has_id id (specs_in l))
        (visit_all-identity (specs_in l) q id
          ∙ ap (identity_or (identity_of (lookup id p.state))) last)
        known)

-- A state and an entry once both have taken a probe's outcome.
pub apply-Agrees :
    (id : ℕ) (o : Outcome) (sweep : Bool) (now : ℕ) (p : Poller) (j : ℕ)
    → Agrees (lookup j p.state) (lookup j p.reg.entries)
    → Agrees
        (lookup j (apply id o sweep now p).state)
        (lookup j (apply id o sweep now p).reg.entries)
unfolding apply advance
apply-Agrees id o sweep now p j h = elim (Option-cases (lookup id p.state)) [
  | inl e ↦ rw (apply, e) h
  | inr (st, e) ↦ elim (Bool-cases (id == j)) [
    | inr d ↦ rw (apply, e, lookup-insert, set_node_probe-lookup, d) h
    | inl d ↦
        rw (apply, e, lookup-insert, set_node_probe-lookup, d)
          (probed_agrees st (lookup j p.reg.entries) (
            subst (λ x. Agrees x (lookup j p.reg.entries))
              (ap (λ k. lookup k p.state) (sym ((eq_key id j).0 d)) ∙ e) h))
  ]
]
  where
    advance_identity :
        (r : Outcome) (st : NodeRuntime) → (advance sweep now r st).identity ≡ st.identity
    advance_identity (found models) st = refl
    advance_identity (failed e) st = refl

    probed_agrees :
        (st : NodeRuntime) (e : Option Entry)
        → Agrees (some st) e
        → Agrees
            (some (advance sweep now o st))
            (probed (published now o (advance sweep now o st)) e)
    probed_agrees st none h = elim h [ ]
    probed_agrees st (some e) h = (refl, refl, h.2 ∙ ap url_of (sym (advance_identity o st)))
