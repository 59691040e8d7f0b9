-- ===== src/Poller/Visits.antt =====
-- internal/poller/poller.go: what the loop of `reconcile` keeps of a node and of its entry.
use local_ai_proxy.Prelude.{
  ℕ, ◌≡◌, refl, ap, ◌∙◌, true, Option, none, some, String, List, [], ◌∷◌, arith, if◌then◌else◌,
  ◌==◌, eq_key, ℕ_key, String_key, inl, inr, Bool-cases, Option-cases, false≢true,
}
use local_ai_proxy.Prelude.Dict.{lookup, lookup-insert}
use local_ai_proxy.Registry.{unknown, Node, Entry, same_url}
use local_ai_proxy.Registry.Declarations.{probed, set_node_probe-lookup}
use local_ai_proxy.Poller.Pairs.{last_spec}
use local_ai_proxy.Poller.{
  NodeSpec, identity, same_texts, NodeRuntime, Poller, first_runtime, blank_probe, visit, visit_all,
}

abbrev pub url_of : List String → Option String
url_of [] = none
url_of (x ∷ xs) = some x

-- The registry's entry of a node and the poller's state of it: both or neither, with the health
-- and the models of the state, and with the URL that the state stands for.
abbrev pub Agrees : Option NodeRuntime → Option Entry → Type 0
Agrees none none = Unit
Agrees none (some e) = ⊥
Agrees (some st) none = ⊥
Agrees (some st) (some e) =
    (e.health ≡ st.health) × (e.models ≡ st.models) × (e.node.base_url ≡ url_of st.identity)

-- Between SetNodes and the round of the loop that visits a node, its state may stand for a URL that
-- the entry has no longer.
abbrev pub IsPending : Option NodeRuntime → Option Entry → Type 0
IsPending ost none = Unit
IsPending none (some e) = (e.health ≡ unknown) × (e.models ≡ none)
IsPending (some st) (some e) =
    url_of st.identity ≡ e.node.base_url → (e.health ≡ st.health) × (e.models ≡ st.models)

same_texts_lem : (xs ys : List String) → same_texts xs ys ≡ true → xs ≡ ys
same_texts_lem [] [] h = refl
same_texts_lem [] (y ∷ ys) h = absurd (false≢true h)
same_texts_lem (x ∷ xs) [] h = absurd (false≢true h)
same_texts_lem (x ∷ xs) (y ∷ ys) h = elim (Bool-cases (x == y)) [
  | inl e ↦ cc ((eq_key x y).0 e, same_texts_lem xs ys (rw e at h))
  | inr e ↦ absurd (false≢true (rw e at h))
]

pub same_url_refl : (a b : Option String) → a ≡ b → same_url a b ≡ true
same_url_refl a none e = rw e refl
same_url_refl a (some b) e = rw e ((eq_key b b).1 refl)

abbrev resume : NodeSpec → Option NodeRuntime → NodeRuntime
resume s none = first_runtime s
resume s (some st) =
    if same_texts st.identity (identity s) then record st { name = s.name } else first_runtime s

-- What the loop's round does to the entry of the node that it visits.
abbrev refreshed : NodeSpec → Option NodeRuntime → Option Entry → Option Entry
refreshed s none e = e
refreshed s (some st) e = if same_texts st.identity (identity s) then e else probed blank_probe e

visit-state :
    (s : NodeSpec) (o : Option NodeRuntime) (p : Poller) (id : ℕ)
    → lookup id (visit s o p).state ≡ (if s.id == id then some (resume s o) else lookup id p.state)
unfolding visit
visit-state s none p id = rw lookup-insert refl
visit-state s (some st) p id = elim (Bool-cases (same_texts st.identity (identity s))) [
  | inl e ↦ rw (visit, e, lookup-insert) refl
  | inr e ↦ rw (visit, e, lookup-insert) refl
]

visit-entry :
    (s : NodeSpec) (o : Option NodeRuntime) (p : Poller) (id : ℕ)
    → lookup id (visit s o p).reg.entries
      ≡ (if s.id == id then refreshed s o (lookup id p.reg.entries) else lookup id p.reg.entries)
unfolding visit
visit-entry s none p id = ground arith
visit-entry s (some st) p id = elim (Bool-cases (same_texts st.identity (identity s))) [
  | inl e ↦ rw (visit, e) (ground arith)
  | inr e ↦ rw (visit, e, set_node_probe-lookup) refl
]

resume-IsPending :
    (s : NodeSpec) (ost : Option NodeRuntime) (e : Option Entry)
    → IsPending ost e
    → IsPending (some (resume s ost)) (refreshed s ost e)
resume-IsPending s none none h = tt
resume-IsPending s none (some e) h = λ _. h
resume-IsPending s (some st) none h = elim (Bool-cases (same_texts st.identity (identity s))) [
  | inl e ↦ rw (refreshed, e) tt
  | inr e ↦ rw (refreshed, e) tt
]
resume-IsPending s (some st) (some e) h = elim (Bool-cases (same_texts st.identity (identity s))) [
  | inl t ↦ rw (resume, refreshed, t) h
  | inr t ↦ rw (resume, refreshed, t) (λ _. (refl, refl))
]

visit-IsPending :
    (s : NodeSpec) (p : Poller) (id : ℕ)
    → IsPending (lookup id p.state) (lookup id p.reg.entries)
    → IsPending
        (lookup id (visit s (lookup s.id p.state) p).state)
        (lookup id (visit s (lookup s.id p.state) p).reg.entries)
visit-IsPending s p id h = elim (Bool-cases (s.id == id)) [
  | inl e ↦
      rw (visit-state, visit-entry, e, (eq_key s.id id).0 e)
        (resume-IsPending s (lookup id p.state) (lookup id p.reg.entries) h)
  | inr e ↦ rw (visit-state, visit-entry, e) h
]

pub visit_all-IsPending :
    (specs : List NodeSpec) (p : Poller) (id : ℕ)
    → IsPending (lookup id p.state) (lookup id p.reg.entries)
    → IsPending (lookup id (visit_all specs p).state) (lookup id (visit_all specs p).reg.entries)
unfolding visit_all
visit_all-IsPending [] p id h = h
visit_all-IsPending (s ∷ specs) p id h =
    visit_all-IsPending specs (visit s (lookup s.id p.state) p) id (visit-IsPending s p id h)

abbrev pub identity_of : Option NodeRuntime → Option (List String)
identity_of none = none
identity_of (some st) = some st.identity

abbrev pub identity_or : Option (List String) → Option NodeSpec → Option (List String)
identity_or old none = old
identity_or old (some s) = some (identity s)

abbrev pub node_of : Option Entry → Option Node
node_of none = none
node_of (some e) = some e.node

resume-identity : (s : NodeSpec) (o : Option NodeRuntime) → (resume s o).identity ≡ identity s
resume-identity s none = refl
resume-identity s (some st) = elim (Bool-cases (same_texts st.identity (identity s))) [
  | inl t ↦ rw (resume, t) (same_texts_lem st.identity (identity s) t)
  | inr t ↦ rw (resume, t) refl
]

refreshed-node :
    (s : NodeSpec) (o : Option NodeRuntime) (e : Option Entry)
    → node_of (refreshed s o e) ≡ node_of e
refreshed-node s none e = refl
refreshed-node s (some st) none = ground arith
refreshed-node s (some st) (some e) = elim (Bool-cases (same_texts st.identity (identity s))) [
  | inl t ↦ rw (refreshed, t) refl
  | inr t ↦ rw (refreshed, t) refl
]

visit-node :
    (s : NodeSpec) (o : Option NodeRuntime) (p : Poller) (id : ℕ)
    → node_of (lookup id (visit s o p).reg.entries) ≡ node_of (lookup id p.reg.entries)
visit-node s o p id = elim (Bool-cases (s.id == id)) [
  | inl e ↦ rw (visit-entry, e) (refreshed-node s o (lookup id p.reg.entries))
  | inr e ↦ rw (visit-entry, e) refl
]

pub visit_all-node :
    (specs : List NodeSpec) (p : Poller) (id : ℕ)
    → node_of (lookup id (visit_all specs p).reg.entries) ≡ node_of (lookup id p.reg.entries)
unfolding visit_all
visit_all-node [] p id = refl
visit_all-node (s ∷ specs) p id =
    visit_all-node specs (visit s (lookup s.id p.state) p) id
    ∙ visit-node s (lookup s.id p.state) p id

visit-identity :
    (s : NodeSpec) (o : Option NodeRuntime) (p : Poller) (id : ℕ)
    → identity_of (lookup id (visit s o p).state)
      ≡ (if s.id == id then some (identity s) else identity_of (lookup id p.state))
visit-identity s o p id = elim (Bool-cases (s.id == id)) [
  | inl e ↦ rw (visit-state, e) (ap some (resume-identity s o))
  | inr e ↦ rw (visit-state, e) refl
]

pub visit_all-identity :
    (specs : List NodeSpec) (p : Poller) (id : ℕ)
    → identity_of (lookup id (visit_all specs p).state)
      ≡ identity_or (identity_of (lookup id p.state)) (last_spec id specs)
unfolding visit_all
visit_all-identity [] p id = refl
visit_all-identity (s ∷ specs) p id =
    visit_all-identity specs (visit s (lookup s.id p.state) p) id
    ∙ (elim (Option-cases (last_spec id specs)) [
      | inr (t, e) ↦ rw e refl
      | inl e ↦
          rw (e, visit-identity)
            (elim (Bool-cases (s.id == id)) [ inl h ↦ rw h refl | inr h ↦ rw h refl ])
    ])
