-- ===== src/Poller.antt =====
-- internal/poller/poller.go: the poller's own state, the loads, and the state machine of a node.
-- `parse_url` is url.Parse with the tests of scheme and host: the URL's text, or `none`. The mutex
-- makes each method one step, and a load, which takes it after SetNodes, is one step here too; metrics
-- and logs are left out.
pub mod Probe
pub mod Discovery
pub mod Schedule
pub mod Timing
pub mod Refresh
pub mod Hysteresis
pub mod Pairs
pub mod Visits
pub mod Agreement
pub mod Routing
mod Examples
use local_ai_proxy.Prelude.{
  ℕ, suc, ◌*◌, Bool, true, false, ◌&&◌, ◌||◌, not, Option, none, some, String, List, [], ◌∷◌, map,
  leb, if◌then◌else◌, ◌==◌, ℕ_key, String_key,
}
use local_ai_proxy.Prelude.Int.{ℤ, pos_part}
use local_ai_proxy.Prelude.Dict.{Dict, lookup, insert, retain}
use local_ai_proxy.RateLimit.Tokens.{second}
use local_ai_proxy.Store.Sql.{Result, ok, err, Error}
use local_ai_proxy.Store.Nodes.{NodeRow}
use local_ai_proxy.Registry.{
  Health, unknown, healthy, unhealthy, Node, ProbeResult, Registry, new, set_nodes, set_node_probe,
}

pub record NodeSpec : Type 0 where
  pub id : ℕ
  pub name : String
  pub base_url : String
  pub backend_type : String
  pub auth_header : String
  pub static_models : Option (List String)
  pub health_path : String

-- The fields that the source joins by the separator 0x1f; the list keeps them apart even if the name
-- of a model held it.
abbrev pub identity : NodeSpec → List String
identity s =
    s.base_url
    ∷ s.backend_type
    ∷ s.auth_header
    ∷ s.health_path
    ∷ (elim s.static_models [ none ↦ "discovery" ∷ [] | some models ↦ "static" ∷ models ])

abbrev pub same_texts : List String → List String → Bool
same_texts [] [] = true
same_texts [] (y ∷ ys) = false
same_texts (x ∷ xs) [] = false
same_texts (x ∷ xs) (y ∷ ys) = x == y && same_texts xs ys

pub record NodeRuntime : Type 0 where
  pub name : String
  pub identity : List String
  pub health : Health
  pub failures : ℕ
  pub models : Option (List String)
  pub last_probe : Option ℕ

-- The poller and the registry that it publishes to.
pub record Poller : Type 0 where
  pub reg : Registry
  pub state : Dict ℕ NodeRuntime
  pub last_specs : List NodeSpec

abbrev pub new_poller : Poller
new_poller = record { reg = new; state = []; last_specs = [] }

abbrev pub text_or_empty : Option String → String
text_or_empty none = ""
text_or_empty (some s) = s

abbrev pub timeout_of : Option ℤ → ℕ
timeout_of none = 0
timeout_of (some s) = pos_part s * second

-- The probing view of a row and the registry's view.
abbrev pub spec_of : NodeRow → String → NodeSpec × Node
spec_of n url = (
  record {
    id = n.id;
    name = n.name;
    base_url = url;
    backend_type = n.backend_type;
    auth_header = text_or_empty n.auth_header;
    static_models = n.static_models;
    health_path = text_or_empty n.health_path;
  },
  record {
    id = n.id;
    name = n.name;
    base_url = some url;
    auth_header = text_or_empty n.auth_header;
    timeout = timeout_of n.timeout_seconds;
  },
)

abbrev pub with_spec : NodeRow → Option String → List (NodeSpec × Node) → List (NodeSpec × Node)
with_spec n none rest = rest
with_spec n (some url) rest = spec_of n url ∷ rest

-- The rows that are enabled and have a URL.
unfoldable pub specs_of : (String → Option String) → List NodeRow → List (NodeSpec × Node)
specs_of parse_url [] = []
specs_of parse_url (n ∷ rows) =
    let rest = specs_of parse_url rows in
    if n.enabled then with_spec n (parse_url n.base_url) rest else rest

abbrev pub first_runtime : NodeSpec → NodeRuntime
first_runtime s = record {
  name = s.name;
  identity = identity s;
  health = unknown;
  failures = 0;
  models = none;
  last_probe = none;
}

abbrev pub blank_probe : ProbeResult
blank_probe = record { health = unknown; models = none; last_error = ""; last_checked_at = none }

-- One round of the loop of `reconcile`.
unfoldable pub visit : NodeSpec → Option NodeRuntime → Poller → Poller
visit s none p = record p { state = insert s.id (first_runtime s) p.state }
visit s (some st) p =
    if same_texts st.identity (identity s)
    then record p { state = insert s.id (record st { name = s.name }) p.state }
    else record p {
      reg = set_node_probe s.id blank_probe p.reg;
      state = insert s.id (first_runtime s) p.state;
    }

unfoldable pub visit_all : List NodeSpec → Poller → Poller
visit_all [] p = p
visit_all (s ∷ specs) p = visit_all specs (visit s (lookup s.id p.state) p)

abbrev pub has_id : ℕ → List NodeSpec → Bool
has_id id [] = false
has_id id (s ∷ specs) = s.id == id || has_id id specs

unfoldable pub reconcile : List NodeSpec → Poller → Poller
reconcile specs p =
    let q = visit_all specs p in
    record q { state = retain (λ id st. has_id id specs) q.state; last_specs = specs }

abbrev pub specs_in : List (NodeSpec × Node) → List NodeSpec
specs_in [] = []
specs_in ((s, n) ∷ l) = s ∷ specs_in l

abbrev pub nodes_in : List (NodeSpec × Node) → List Node
nodes_in [] = []
nodes_in ((s, n) ∷ l) = n ∷ nodes_in l

unfoldable pub adopt : List (NodeSpec × Node) → Poller → Poller
adopt l p = reconcile (specs_in l) (record p { reg = set_nodes (nodes_in l) p.reg })

-- `load`, of what ListNodesWithSecrets answers.
unfoldable pub load :
    (String → Option String) → Result (List NodeRow) → Poller → Result (List NodeSpec) × Poller
load parse_url (err e) p = (err e, p)
load parse_url (ok rows) p = let l = specs_of parse_url rows in (ok (specs_in l), adopt l p)

abbrev pub failure_threshold : ℕ
failure_threshold = 2

-- A probe's outcome: the node's models, or the text of the error.
pub data Outcome : Type 0 where
  found : List String → Outcome
  failed : String → Outcome

-- The state machine of a node; `sweep` makes a single failure decisive.
unfoldable pub advance : Bool → ℕ → Outcome → NodeRuntime → NodeRuntime
advance sweep now (found models) st = record st {
  failures = 0;
  health = healthy;
  models = some models;
  last_probe = some now;
}
advance sweep now (failed e) st = record st {
  failures = suc st.failures;
  health = if (sweep || leb failure_threshold (suc st.failures)) then unhealthy else st.health;
  last_probe = some now;
}

abbrev pub error_text : Outcome → String
error_text (found models) = ""
error_text (failed e) = e

abbrev pub published : ℕ → Outcome → NodeRuntime → ProbeResult
published now o st = record {
  health = st.health;
  models = st.models;
  last_error = error_text o;
  last_checked_at = some now;
}

-- `apply`: the outcome for a node that has vanished is dropped.
unfoldable pub apply : ℕ → Outcome → Bool → ℕ → Poller → Poller
apply id o sweep now p = elim (lookup id p.state) [
  | none ↦ p
  | some st ↦
      let next = advance sweep now o st in
      record p {
        reg = set_node_probe id (published now o next) p.reg;
        state = insert id next p.state;
      }
]
