-- ===== src/Registry/Routing.antt =====
-- Where Resolve of internal/registry/registry.go routes a model, after any sequence of writes.
use local_ai_proxy.Prelude.{
  ℕ, zero, suc, ◌≤◌, ◌<◌, ◌%◌, ◌≡◌, refl, ap, Option, none, some, String, List, [], ◌∷◌, arith,
  ◌==◌, eq_key, eq_self, ℕ_key, String_key, length, length-append, All, All-append, inl, inr,
  Bool-cases, Option-cases,
}
use local_ai_proxy.Prelude.Dict.{Dict, lookup, insert, held, IsUnique, insert-IsUnique}
use local_ai_proxy.Registry.{
  Health, Node, Entry, ProbeResult, Registry, new, routes, insert_sorted, sort_by, node_id,
  publish_locked, carry_over, declare, set_nodes, set_node_state, set_node_probe, Answer, routed,
  model_unavailable, index_panic, at_index, pick, resolve,
}
use local_ai_proxy.Registry.Publish.{
  listings, replicate, serving, IsCurrent, publish_locked-IsCurrent, All-sort_by,
}

-- An entry of the registry is the node's, and lists the model.
abbrev pub IsServer : String → Dict ℕ Entry → Node → Type 0
IsServer model es n =
    (id : ℕ) × (e : Entry) × (lookup id es ≡ some e) × (e.node ≡ n) × (1 ≤ listings model e)

-- How often the entry of an ID lists a model; an unknown ID lists none.
abbrev pub listed_at : String → ℕ → Dict ℕ Entry → ℕ
listed_at model id es = elim (lookup id es) [ none ↦ 0 | some e ↦ listings model e ]

-- A routed node serves the model; where none is routed, no entry lists it.
abbrev pub IsRight : String → Dict ℕ Entry → Answer → Type 0
IsRight model es (routed n) = IsServer model es n
IsRight model es model_unavailable = (id : ℕ) → listed_at model id es ≡ 0
IsRight model es index_panic = ⊥

All-mono :
    {A : Type 0} (P Q : A → Type 0) (xs : List A) → ((x : A) → P x → Q x) → All P xs → All Q xs
All-mono P Q [] f h = tt
All-mono P Q (x ∷ xs) f h = (f x h.0, All-mono P Q xs f h.1)

All-replicate : (P : Node → Type 0) (k : ℕ) (n : Node) → (1 ≤ k → P n) → All P (replicate k n)
All-replicate P zero n h = tt
All-replicate P (suc k) n h = (h (omega arith), All-replicate P k n (λ _. h (omega arith)))

length-insert_sorted :
    (x : Node) (xs : List Node) → length (insert_sorted node_id x xs) ≡ suc (length xs)
unfolding insert_sorted
length-insert_sorted x [] = refl
length-insert_sorted x (y ∷ ys) = ground (arith, length-insert_sorted x ys)

length-sort_by : (xs : List Node) → length (sort_by node_id xs) ≡ length xs
unfolding sort_by
length-sort_by [] = refl
length-sort_by (x ∷ xs) = rw length-insert_sorted (ap suc (length-sort_by xs))

length-replicate : (k : ℕ) (n : Node) → length (replicate k n) ≡ k
length-replicate zero n = refl
length-replicate (suc k) n = ap suc (length-replicate k n)

IsServer-cons :
    (model : String) (id : ℕ) (e : Entry) (es : Dict ℕ Entry)
    → lookup id es ≡ none
    → (n : Node) → IsServer model es n
    → IsServer model ((id, e) ∷ es) n
unfolding lookup
IsServer-cons model id e es u n (j, f, l, h, c) = (j, f, ground (arith, l, u, eq_key id j), h, c)

serving-All :
    (model : String) (es : Dict ℕ Entry) → IsUnique es → All (IsServer model es) (serving model es)
unfolding lookup
serving-All model [] u = tt
serving-All model ((id, e) ∷ es) u =
    All-append (IsServer model ((id, e) ∷ es)) (replicate (listings model e) e.node)
      (serving model es)
      (All-replicate (IsServer model ((id, e) ∷ es)) (listings model e) e.node
        (λ c. (id, e, rw (eq_self id) refl, refl, c)))
      (All-mono (IsServer model es) (IsServer model ((id, e) ∷ es)) (serving model es)
        (IsServer-cons model id e es u.0) (serving-All model es u.1))

serving-none :
    (model : String) (es : Dict ℕ Entry) (id : ℕ)
    → listed_at model id es ≤ length (serving model es)
unfolding lookup
serving-none model [] id = omega arith
serving-none model ((j, e) ∷ es) id =
    rw (length-append (replicate (listings model e) e.node) (serving model es), length-replicate)
      (elim (Bool-cases (j == id)) [
        | inl h ↦ rw (listed_at, lookup, h) (omega arith)
        | inr h ↦ rw (listed_at, lookup, h) (omega (arith, serving-none model es id))
      ])

-- The candidates of a snapshot that tells what the entries say.
IsFor : String → Dict ℕ Entry → List Node → Type 0
IsFor model es ns = All (IsServer model es) ns × ((id : ℕ) → listed_at model id es ≤ length ns)

at_index-IsRight :
    (model : String) (es : Dict ℕ Entry) (ns : List Node) (i : ℕ)
    → i < length ns
    → All (IsServer model es) ns
    → IsRight model es (at_index ns i)
at_index-IsRight model es [] i h a = elim h [ ]
at_index-IsRight model es (n ∷ ns) zero h a = a.0
at_index-IsRight model es (n ∷ ns) (suc i) h a = at_index-IsRight model es ns i (omega arith) a.1

pick-IsRight :
    (model : String) (es : Dict ℕ Entry) (ns : List Node) (r : Registry)
    → IsFor model es ns
    → IsRight model es (pick model ns r).0
unfolding IsFor pick
pick-IsRight model es [] r h = λ id. omega (arith, h.1 id)
pick-IsRight model es (n ∷ []) r h = h.0.0
pick-IsRight model es (n ∷ m ∷ ns) r h =
    at_index-IsRight model es (n ∷ m ∷ ns) (held model r.counters % length (n ∷ m ∷ ns))
      (omega arith) h.0

-- The writes of the loaders and the poller, and the resolves of the proxy. A resolve picks among
-- the candidates of a snapshot that it read before, while writers may have published since.
pub data Event : Type 0 where
  declares : List Node → Event
  reports : ℕ → Health → Option (List String) → Event
  probes : ℕ → ProbeResult → Event
  picks : String → List Node → Event

unfoldable pub step : Event → Registry → Registry
step (declares ns) r = set_nodes ns r
step (reports id h models) r = set_node_state id h models r
step (probes id res) r = set_node_probe id res r
step (picks model ns) r = (pick model ns r).1

-- The latest event stands first.
unfoldable pub after : List Event → Registry
after [] = new
after (e ∷ es) = step e (after es)

-- The entries have one state per ID, and the snapshot tells what they say.
pub record IsSound (r : Registry) : Type 0 where
  pub unique : IsUnique r.entries
  pub current : IsCurrent r.entries r.snap

publish_locked-IsSound : (r : Registry) → IsUnique r.entries → IsSound (publish_locked r)
unfolding publish_locked
publish_locked-IsSound r u = record { unique = u; current = publish_locked-IsCurrent r }

declare-IsUnique :
    (es : Dict ℕ Entry) (ns : List Node) (next : Dict ℕ Entry)
    → IsUnique next
    → IsUnique (declare es ns next)
unfolding declare
declare-IsUnique es [] next u = u
declare-IsUnique es (n ∷ ns) next u =
    declare-IsUnique es ns (insert n.id (carry_over n (lookup n.id es)) next)
      (insert-IsUnique n.id (carry_over n (lookup n.id es)) next u)

pub pick-IsSound :
    (model : String) (ns : List Node) (r : Registry) → IsSound r → IsSound (pick model ns r).1
unfolding pick
pick-IsSound model [] r s = s
pick-IsSound model (n ∷ []) r s = s
pick-IsSound model (n ∷ m ∷ ns) r s = record { unique = s.unique; current = s.current }

pub set_nodes-IsSound : (ns : List Node) (r : Registry) → IsSound r → IsSound (set_nodes ns r)
unfolding set_nodes
set_nodes-IsSound ns r s =
    publish_locked-IsSound (record r { entries = declare r.entries ns [] })
      (declare-IsUnique r.entries ns [] tt)

set_node_state-IsSound :
    (id : ℕ) (h : Health) (models : Option (List String)) (r : Registry)
    → IsSound r
    → IsSound (set_node_state id h models r)
unfolding set_node_state
set_node_state-IsSound id h models r s = elim (Option-cases (lookup id r.entries)) [
  | inl e ↦ rw (set_node_state, e) s
  | inr (f, e) ↦
      rw (set_node_state, e) (publish_locked-IsSound _ (insert-IsUnique id _ r.entries s.unique))
]

pub set_node_probe-IsSound :
    (id : ℕ) (res : ProbeResult) (r : Registry) → IsSound r → IsSound (set_node_probe id res r)
unfolding set_node_probe
set_node_probe-IsSound id res r s = elim (Option-cases (lookup id r.entries)) [
  | inl e ↦ rw (set_node_probe, e) s
  | inr (f, e) ↦
      rw (set_node_probe, e) (publish_locked-IsSound _ (insert-IsUnique id _ r.entries s.unique))
]

step-IsSound : (e : Event) (r : Registry) → IsSound r → IsSound (step e r)
unfolding step
step-IsSound (declares ns) r s = set_nodes-IsSound ns r s
step-IsSound (reports id h models) r s = set_node_state-IsSound id h models r s
step-IsSound (probes id res) r s = set_node_probe-IsSound id res r s
step-IsSound (picks model ns) r s = pick-IsSound model ns r s

pub new-IsSound : IsSound new
unfolding lookup sort_by
new-IsSound = record { unique = tt; current = record { candidates = λ model. refl; states = refl } }

-- After any events the snapshot tells what the entries say: for every model the healthy nodes
-- that list it, ascending by ID, and every node with its state, ascending by ID.
pub after-IsSound : (es : List Event) → IsSound (after es)
unfolding after
after-IsSound [] = new-IsSound
after-IsSound (e ∷ es) = step-IsSound e (after es) (after-IsSound es)

pub resolve_sound :
    (r : Registry) (model : String) → IsSound r → IsRight model r.entries (resolve model r).0
unfolding resolve IsFor
resolve_sound r model s = pick-IsRight model r.entries (routes model r.snap.models) r (
    rw (s.current.candidates model) (
      All-sort_by node_id (IsServer model r.entries) (serving model r.entries)
          (serving-All model r.entries s.unique),
      λ id. rw length-sort_by (serving-none model r.entries id),
    ))

-- After any events, `Resolve` routes a model to a node that is healthy and lists it; it answers
-- that the model is unavailable only where no healthy node lists it; and its index is in range.
pub resolve-IsRight :
    (es : List Event) (model : String)
    → IsRight model (after es).entries (resolve model (after es)).0
resolve-IsRight es model = resolve_sound (after es) model (after-IsSound es)
