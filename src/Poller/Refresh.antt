-- ===== src/Poller/Refresh.antt =====
-- internal/poller/poller.go: what RefreshNode has done when it returns.
use local_ai_proxy.Prelude.{
  ℕ, ◌≡◌, refl, sym, ap, subst, ◌∙◌, Bool, true, false, Option, none, some, String, List, [], ◌∷◌,
  if◌then◌else◌, ◌==◌, eq_key, eq_self, ℕ_key, String_key, inl, inr, All, Bool-cases, Option-cases,
  false≢true,
}
use mathlib.Core.Option.{some-ne-none}
use local_ai_proxy.Prelude.Dict.{lookup}
use local_ai_proxy.Store.Sql.{Result, ok, err}
use local_ai_proxy.Store.Nodes.{NodeRow}
use local_ai_proxy.Registry.{healthy, unhealthy, Node, Entry}
use local_ai_proxy.Registry.Declarations.{last_with, set_node_probe-lookup}
use local_ai_proxy.Poller.{
  NodeSpec, NodeRuntime, Poller, specs_of, has_id, specs_in, nodes_in, adopt, load, Outcome, found,
  failed, advance, published, apply,
}
use local_ai_proxy.Poller.Pairs.{last_spec, IsPair, Matches, last-Matches, specs_of-IsPair}
use local_ai_proxy.Poller.Visits.{node_of}
use local_ai_proxy.Poller.Agreement.{adopt-state, adopt-entry}
use local_ai_proxy.Poller.Schedule.{refresh_spec, refresh_node}

abbrev pub first_spec : ℕ → List NodeSpec → Option NodeSpec
first_spec id [] = none
first_spec id (s ∷ specs) = if s.id == id then some s else first_spec id specs

-- A verdict on a single outcome, without the history.
abbrev pub IsDecided : Outcome → Option Entry → Type 0
IsDecided o none = ⊥
IsDecided (found models) (some e) =
    (e.health ≡ healthy) × (e.models ≡ some models) × (e.last_error ≡ "")
IsDecided (failed text) (some e) = (e.health ≡ unhealthy) × (e.last_error ≡ text)

abbrev pub IsFresh : Option NodeSpec → (NodeSpec → Outcome) → Option Entry → Type 0
IsFresh none probe e = e ≡ none
IsFresh (some s) probe e = IsDecided (probe s) e

published-IsDecided :
    (o : Outcome) (now : ℕ) (st : NodeRuntime) (e : Entry)
    → IsDecided o (
        some (record {
          node = e.node;
          health = (published now o (advance true now o st)).health;
          models = (published now o (advance true now o st)).models;
          last_error = (published now o (advance true now o st)).last_error;
          last_checked_at = (published now o (advance true now o st)).last_checked_at;
        }))
unfolding advance
published-IsDecided (found models) now st e = (refl, refl, refl)
published-IsDecided (failed text) now st e = (refl, refl)

apply-IsDecided :
    (id : ℕ) (o : Outcome) (now : ℕ) (p : Poller) (st : NodeRuntime) (e : Entry)
    → lookup id p.state ≡ some st
    → lookup id p.reg.entries ≡ some e
    → IsDecided o (lookup id (apply id o true now p).reg.entries)
unfolding apply
apply-IsDecided id o now p st e known entry =
    rw (apply, known, set_node_probe-lookup, eq_self id, entry) (published-IsDecided o now st e)

apply-other :
    (id : ℕ) (o : Outcome) (now : ℕ) (p : Poller) (j : ℕ)
    → id == j ≡ false
    → lookup j (apply id o true now p).reg.entries ≡ lookup j p.reg.entries
unfolding apply
apply-other id o now p j d = elim (Option-cases (lookup id p.state)) [
  | inl e ↦ rw (apply, e) refl
  | inr (st, e) ↦ rw (apply, e, set_node_probe-lookup, d) refl
]

IsFirst : ℕ → List NodeSpec → Option NodeSpec → Type 0
IsFirst id specs none = has_id id specs ≡ false
IsFirst id specs (some s) = (s.id ≡ id) × (has_id id specs ≡ true)

first_spec-IsFirst : (id : ℕ) (specs : List NodeSpec) → IsFirst id specs (first_spec id specs)
unfolding IsFirst
first_spec-IsFirst id [] = refl
first_spec-IsFirst id (s ∷ specs) = elim (Bool-cases (s.id == id)) [
  | inl e ↦ rw (first_spec, e) ((eq_key s.id id).0 e, rw e refl)
  | inr e ↦ rw (first_spec, e) (same_first e (first_spec id specs) (first_spec-IsFirst id specs))
]
  where
    same_first :
        s.id == id ≡ false → (o : Option NodeSpec) → IsFirst id specs o → IsFirst id (s ∷ specs) o
    same_first e none h = rw e h
    same_first e (some t) h = (h.0, rw e h.1)

abbrev refreshed : (NodeSpec → Outcome) → ℕ → Option NodeSpec → Poller → Poller
refreshed probe now none p = p
refreshed probe now (some s) p = apply s.id (probe s) true now p

refresh_spec-first :
    (id : ℕ) (probe : NodeSpec → Outcome) (now : ℕ) (specs : List NodeSpec) (p : Poller)
    → refresh_spec id probe now specs p ≡ refreshed probe now (first_spec id specs) p
unfolding refresh_spec
refresh_spec-first id probe now [] p = refl
refresh_spec-first id probe now (s ∷ specs) p = elim (Bool-cases (s.id == id)) [
  | inl e ↦ rw (refresh_spec, first_spec, e) refl
  | inr e ↦ rw (refresh_spec, first_spec, e) (refresh_spec-first id probe now specs p)
]

-- Both views of a declared node, and none of another.
known_views :
    (os : Option NodeSpec) (on : Option Node) (known : Bool)
    → Matches os on known
    → known ≡ true
    → ((s : NodeSpec) × (os ≡ some s)) × ((n : Node) × (on ≡ some n))
known_views none none known m k = absurd (false≢true (sym m ∙ k))
known_views none (some n) known m k = elim m [ ]
known_views (some s) none known m k = elim m [ ]
known_views (some s) (some n) known m k = ((s, refl), (n, refl))

unknown_node :
    (os : Option NodeSpec) (on : Option Node) (known : Bool)
    → Matches os on known
    → known ≡ false
    → on ≡ none
unknown_node none none known m k = refl
unknown_node none (some n) known m k = elim m [ ]
unknown_node (some s) none known m k = elim m [ ]
unknown_node (some s) (some n) known m k = absurd (false≢true (sym k ∙ m.0))

entry_of : (e : Option Entry) (n : Node) → node_of e ≡ some n → (f : Entry) × (e ≡ some f)
entry_of none n h = absurd (some-ne-none n (sym h))
entry_of (some e) n h = (e, refl)

no_entry : (e : Option Entry) → node_of e ≡ none → e ≡ none
no_entry none h = refl
no_entry (some e) h = absurd (some-ne-none e.node h)

refreshed-IsFresh :
    (l : List (NodeSpec × Node)) (probe : NodeSpec → Outcome) (id now : ℕ) (p : Poller)
    (o : Option NodeSpec)
    → All IsPair l
    → IsFirst id (specs_in l) o
    → IsFresh o probe (lookup id (refreshed probe now o (adopt l p)).reg.entries)
unfolding IsFirst
refreshed-IsFresh l probe id now p none pairs h = no_entry (lookup id (adopt l p).reg.entries) (
    adopt-entry l p id
    ∙ unknown_node (last_spec id (specs_in l)) (last_with id (nodes_in l)) (has_id id (specs_in l))
        (last-Matches id l pairs) h)
refreshed-IsFresh l probe id now p (some s) pairs h =
    let v =
      known_views (last_spec id (specs_in l)) (last_with id (nodes_in l)) (has_id id (specs_in l))
        (last-Matches id l pairs) h.1 in
    let st = adopt-state l p id v.0.0 v.0.1 h.1 in
    let e = entry_of (lookup id (adopt l p).reg.entries) v.1.0 (adopt-entry l p id ∙ v.1.1) in
    subst
      (λ k. IsDecided (probe s) (lookup id (apply k (probe s) true now (adopt l p)).reg.entries))
      (sym h.0) (apply-IsDecided id (probe s) now (adopt l p) st.0 e.0 st.1 e.1)

-- RefreshNode that can load the nodes leaves in the registry the verdict of the one probe that it
-- makes of the node, a single failure being decisive, or no entry of a node that is disabled or
-- absent; for other nodes it is a reload; and if it cannot load them, it changes nothing.
abbrev pub IsRefreshed :
    (String → Option String)
    → Result (List NodeRow)
    → (NodeSpec → Outcome)
    → ℕ
    → Poller
    → Result {0} Unit × Poller
    → Type 0
IsRefreshed parse_url (err e) probe id p r = r ≡ (err e, p)
IsRefreshed parse_url (ok rows) probe id p r =
    (r.0 ≡ ok tt)
    × IsFresh (first_spec id (specs_in (specs_of parse_url rows))) probe (lookup id r.1.reg.entries)
    × ((j : ℕ)
        → id == j ≡ false
        → lookup j r.1.reg.entries ≡ lookup j (load parse_url (ok rows) p).1.reg.entries)

pub refresh_node-IsRefreshed :
    (parse_url : String → Option String) (rows : Result (List NodeRow)) (probe : NodeSpec → Outcome)
    (now id : ℕ) (p : Poller)
    → IsRefreshed parse_url rows probe id p (refresh_node parse_url rows probe now id p)
unfolding refresh_node load IsFirst
refresh_node-IsRefreshed parse_url (err e) probe now id p = refl
refresh_node-IsRefreshed parse_url (ok rows) probe now id p =
    let l = specs_of parse_url rows in
    rw (refresh_spec-first) (
      refl,
      refreshed-IsFresh l probe id now p (first_spec id (specs_in l))
          (specs_of-IsPair parse_url rows) (first_spec-IsFirst id (specs_in l)),
      λ j d. others (first_spec id (specs_in l)) (first_spec-IsFirst id (specs_in l)) j d,
    )
  where
    others :
        (o : Option NodeSpec)
        → IsFirst id (specs_in (specs_of parse_url rows)) o
        → (j : ℕ) → id == j ≡ false
        → lookup j (refreshed probe now o (adopt (specs_of parse_url rows) p)).reg.entries
          ≡ lookup j (adopt (specs_of parse_url rows) p).reg.entries
    others none h j d = refl
    others (some s) h j d =
        apply-other s.id (probe s) now (adopt (specs_of parse_url rows) p) j
          (ap (λ k. k == j) h.0 ∙ d)
