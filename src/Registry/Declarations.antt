-- ===== src/Registry/Declarations.antt =====
-- The nodes that SetNodes of internal/registry/registry.go declares, and single updates.
use local_ai_proxy.Prelude.{
  ℕ, ◌≡◌, refl, sym, ◌∙◌, Option, none, some, List, [], ◌∷◌, if◌then◌else◌, ◌==◌, eq_key, ℕ_key,
  inl, inr, Bool-cases, Option-cases,
}
use local_ai_proxy.Prelude.Dict.{Dict, lookup, insert, lookup-insert}
use local_ai_proxy.Registry.{
  Node, Entry, ProbeResult, Registry, publish_locked, carry_over, declare, set_nodes,
  set_node_probe,
}

-- The last declaration of an ID.
abbrev pub last_with : ℕ → List Node → Option Node
last_with id [] = none
last_with id (n ∷ ns) = elim (last_with id ns) [
  | some m ↦ some m
  | none ↦ if n.id == id then some n else none
]

-- The entry of a declared node, and what was there for an ID that is not declared.
abbrev pub declared : Option Node → Option Entry → Option Entry → Option Entry
declared none prev other = other
declared (some n) prev other = some (carry_over n prev)

declare-lookup :
    (es : Dict ℕ Entry) (ns : List Node) (next : Dict ℕ Entry) (id : ℕ)
    → lookup id (declare es ns next) ≡ declared (last_with id ns) (lookup id es) (lookup id next)
unfolding declare
declare-lookup es [] next id = refl
declare-lookup es (n ∷ ns) next id =
    declare-lookup es ns (insert n.id (carry_over n (lookup n.id es)) next) id
    ∙ (elim (Option-cases (last_with id ns)) [
      | inr (m, e) ↦ rw e refl
      | inl e ↦
          rw (e, lookup-insert)
            (elim (Bool-cases (n.id == id)) [
              | inl h ↦ rw (h, (eq_key n.id id).0 h) refl
              | inr h ↦ rw h refl
            ])
    ])

-- `SetNodes` keeps exactly the declared IDs; of several declarations of an ID the last one wins,
-- and it takes the runtime state of the ID's earlier entry if the base URL has not changed.
pub set_nodes-lookup :
    (ns : List Node) (r : Registry) (id : ℕ)
    → lookup id (set_nodes ns r).entries ≡ declared (last_with id ns) (lookup id r.entries) none
unfolding set_nodes publish_locked lookup
set_nodes-lookup ns r id = declare-lookup r.entries ns [] id

-- The entry with the outcome of a probe, its node as it was.
abbrev pub probed : ProbeResult → Option Entry → Option Entry
probed res none = none
probed res (some e) = some (record {
  node = e.node;
  health = res.health;
  models = res.models;
  last_error = res.last_error;
  last_checked_at = res.last_checked_at;
})

-- `SetNodeProbe` records the whole outcome for the node that it names and changes no other node;
-- for an unknown ID nothing is added.
pub set_node_probe-lookup :
    (id j : ℕ) (res : ProbeResult) (r : Registry)
    → lookup j (set_node_probe id res r).entries
      ≡ (if id == j then probed res (lookup j r.entries) else lookup j r.entries)
unfolding set_node_probe publish_locked
set_node_probe-lookup id j res r = elim (Option-cases (lookup id r.entries)) [
  | inl e ↦ elim (Bool-cases (id == j)) [
    | inl h ↦ rw (set_node_probe, e, h) (rw (sym ((eq_key id j).0 h), e) refl)
    | inr h ↦ rw (set_node_probe, e, h) refl
  ]
  | inr (f, e) ↦ elim (Bool-cases (id == j)) [
    | inl h ↦ rw (set_node_probe, e, lookup-insert, h) (rw (sym ((eq_key id j).0 h), e) refl)
    | inr h ↦ rw (set_node_probe, e, lookup-insert, h) refl
  ]
]
