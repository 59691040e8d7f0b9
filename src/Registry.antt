-- ===== src/Registry.antt =====
-- internal/registry/registry.go: the routing core. The mutex makes each writer one step, and the
-- snapshot that `Resolve` reads is a value, so a copy for the caller is the value itself. Times are
-- numbers, `none` for the zero time; a base URL is its String(), `none` for nil.
pub mod Publish
pub mod Routing
pub mod Declarations
pub mod Balance
mod Examples
use local_ai_proxy.Prelude.{
  ℕ, ◌+◌, ◌^◌, ◌%◌, Bool, true, false, Option, none, some, String, List, [], ◌∷◌, ◌++◌, leb,
  if◌then◌else◌, ◌==◌, ℕ_key, String_key, length, get_elem?,
}
use local_ai_proxy.Prelude.Dict.{Dict, lookup, insert, retain, held}

pub data Health : Type 0 where
  unknown healthy unhealthy : Health

pub record Node : Type 0 where
  pub id : ℕ
  pub name : String
  pub base_url : Option String
  pub auth_header : String
  pub timeout : ℕ

-- The writer's state of a node. `models` is `none` until the list is known.
pub record Entry : Type 0 where
  pub node : Node
  pub health : Health
  pub models : Option (List String)
  pub last_error : String
  pub last_checked_at : Option ℕ

pub record ProbeResult : Type 0 where
  pub health : Health
  pub models : Option (List String)
  pub last_error : String
  pub last_checked_at : Option ℕ

-- A NodeState has the fields of an entry.
pub record Snapshot : Type 0 where
  pub nodes : List Entry
  pub models : Dict String (List Node)

pub record Registry : Type 0 where
  pub entries : Dict ℕ Entry
  pub counters : Dict String ℕ
  pub snap : Snapshot

abbrev pub new : Registry
new = record { entries = []; counters = []; snap = record { nodes = []; models = [] } }

-- `models[m]` of a Go map: nil where there is no entry.
abbrev pub routes : String → Dict String (List Node) → List Node
routes model models = elim (lookup model models) [ none ↦ [] | some nodes ↦ nodes ]

abbrev pub is_healthy : Health → Bool
is_healthy healthy = true
is_healthy unknown = false
is_healthy unhealthy = false

-- `for _, m := range e.models { models[m] = append(models[m], e.node) }`
unfoldable pub add_routes : Node → List String → Dict String (List Node) → Dict String (List Node)
add_routes n [] models = models
add_routes n (m ∷ ms) models = add_routes n ms (insert m (routes m models ++ n ∷ []) models)

unfoldable pub add_entry : Entry → Dict String (List Node) → Dict String (List Node)
add_entry e models =
    if is_healthy e.health
    then elim e.models [ none ↦ models | some ms ↦ add_routes e.node ms models ]
    else models

-- The loop over `r.entries`, whose order Go leaves open.
unfoldable pub build : Dict ℕ Entry → Dict String (List Node) → Dict String (List Node)
build [] models = models
build ((id, e) ∷ rest) models = build rest (add_entry e models)

-- `sort.Slice` by a number.
module _ {A : Type 0} (key : A → ℕ) where
  unfoldable pub insert_sorted : A → List A → List A
  insert_sorted x [] = x ∷ []
  insert_sorted x (y ∷ ys) =
      let rest = insert_sorted x ys in if leb (key x) (key y) then x ∷ y ∷ ys else y ∷ rest

  unfoldable pub sort_by : List A → List A
  sort_by [] = []
  sort_by (x ∷ xs) = insert_sorted x (sort_by xs)

abbrev pub node_id : Node → ℕ
node_id n = n.id

abbrev pub entry_id : Entry → ℕ
entry_id e = e.node.id

-- The candidates of every model are sorted in place.
unfoldable pub sort_routes : Dict String (List Node) → Dict String (List Node)
sort_routes [] = []
sort_routes ((m, nodes) ∷ rest) = (m, sort_by node_id nodes) ∷ sort_routes rest

abbrev pub values : Dict ℕ Entry → List Entry
values [] = []
values ((id, e) ∷ rest) = e ∷ values rest

abbrev pub has_key : String → Dict String (List Node) → Bool
has_key model models = elim (lookup model models) [ none ↦ false | some nodes ↦ true ]

unfoldable pub publish_locked : Registry → Registry
publish_locked r =
    let models = sort_routes (build r.entries []) in
    record r {
      counters = retain (λ model c. has_key model models) r.counters;
      snap = record { nodes = sort_by entry_id (values r.entries); models = models };
    }

-- `sameURL`: two nil URLs are the same.
abbrev pub same_url : Option String → Option String → Bool
same_url none none = true
same_url none (some b) = false
same_url (some a) none = false
same_url (some a) (some b) = a == b

abbrev pub unprobed : Node → Entry
unprobed n = record {
  node = n;
  health = unknown;
  models = none;
  last_error = "";
  last_checked_at = none;
}

-- Runtime state carries over to a node whose ID persists with the same URL.
unfoldable pub carry_over : Node → Option Entry → Entry
carry_over n none = unprobed n
carry_over n (some prev) =
    if same_url prev.node.base_url n.base_url then record prev { node = n } else unprobed n

unfoldable pub declare : Dict ℕ Entry → List Node → Dict ℕ Entry → Dict ℕ Entry
declare entries [] next = next
declare entries (n ∷ ns) next =
    declare entries ns (insert n.id (carry_over n (lookup n.id entries)) next)

unfoldable pub set_nodes : List Node → Registry → Registry
set_nodes nodes r = publish_locked (record r { entries = declare r.entries nodes [] })

-- State for an ID that the registry does not know is ignored.
unfoldable pub set_node_state : ℕ → Health → Option (List String) → Registry → Registry
set_node_state id health models r = elim (lookup id r.entries) [
  | none ↦ r
  | some e ↦
      publish_locked
        (record r { entries = insert id (record e { health = health; models = models }) r.entries })
]

unfoldable pub set_node_probe : ℕ → ProbeResult → Registry → Registry
set_node_probe id res r = elim (lookup id r.entries) [
  | none ↦ r
  | some e ↦ publish_locked (record r {
    entries =
        insert id
          (record e {
            health = res.health;
            models = res.models;
            last_error = res.last_error;
            last_checked_at = res.last_checked_at;
          })
          r.entries;
  })
]

-- What `Resolve` returns; an index out of range would be a panic.
pub data Answer : Type 0 where
  routed : Node → Answer
  model_unavailable : Answer
  index_panic : Answer

abbrev pub at_index : List Node → ℕ → Answer
at_index nodes i = elim (get_elem? nodes i) [ none ↦ index_panic | some n ↦ routed n ]

-- The counters are uint64.
abbrev pub u64 : ℕ
u64 = 2 ^ 64

-- `Resolve` on the candidates of the snapshot that it has read. Writers may have published since.
unfoldable pub pick : String → List Node → Registry → Answer × Registry
pick model [] r = (model_unavailable, r)
pick model (n ∷ []) r = (at_index (n ∷ []) 0, r)
pick model (n ∷ m ∷ ns) r =
    let c = held model r.counters in
    (
      at_index (n ∷ m ∷ ns) (c % length (n ∷ m ∷ ns)),
      record r { counters = insert model ((c + 1) % u64) r.counters },
    )

unfoldable pub resolve : String → Registry → Answer × Registry
resolve model r = pick model (routes model r.snap.models) r

-- `Snapshot`: the copy that the caller owns is the value.
abbrev pub snapshot : Registry → Snapshot
snapshot r = r.snap
