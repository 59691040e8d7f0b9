-- ===== src/Admin/Nodes.antt =====
-- internal/admin/nodes.go: the handlers of the nodes, on the database and the poller. A body is the
-- decoded request, `none` where DecodeJSON has answered already; ids have been parsed; paging and
-- the texts of the answers are left out. The probe and the clock of RefreshNode are parameters.
pub mod Deletion
pub mod Sources
use local_ai_proxy.Prelude.{
  ℕ, Bool, true, false, Option, none, some, String, List, [], ◌∷◌, map, if◌then◌else◌, ◌==◌, ℕ_key,
  String_key,
}
use local_ai_proxy.Prelude.Int.{ℤ, pos, leb_ℤ}
use local_ai_proxy.Store.Nodes.{NodeRow}
use local_ai_proxy.Store.NodeChecks.{TextLibrary, validate_node}
use local_ai_proxy.Store.NodeTable.{
  create_node, update_node, disable_node, get_node, get_node_with_secrets, list_nodes,
  list_nodes_with_secrets,
}
use local_ai_proxy.Store.Sql.{Error, name_exists, not_found, Result, ok, err, World}
use local_ai_proxy.Registry.{Health, unknown, Entry}
use local_ai_proxy.Poller.{NodeSpec, Poller, Outcome}
use local_ai_proxy.Poller.Schedule.{refresh_node}

pub record Gateway : Type 0 where
  pub world : World
  pub poller : Poller

-- nodeDTO: a masked row with the live state.
pub record NodeDto : Type 0 where
  pub row : NodeRow
  pub health : Health
  pub models : List String
  pub last_error : String
  pub last_checked_at : Option ℕ

pub data NodeAnswer : Type 0 where
  shown : ℕ → NodeDto → NodeAnswer
  listed : List NodeDto → NodeAnswer
  no_content : NodeAnswer
  refused : ℕ → NodeAnswer

-- createNodeRequest
pub record CreateRequest : Type 0 where
  pub name : String
  pub base_url : String
  pub backend_type : String
  pub auth_header : Option String
  pub static_models : Option (List String)
  pub health_path : Option String
  pub timeout_seconds : Option ℤ

-- updateNodeRequest
pub record UpdateRequest : Type 0 where
  pub name : Option String
  pub base_url : Option String
  pub backend_type : Option String
  pub auth_header : Option String
  pub static_models : Option (List String)
  pub health_path : Option String
  pub timeout_seconds : Option ℤ
  pub enabled : Option Bool

-- The last state of an ID in the snapshot, as in the map that nodeLiveStates makes.
abbrev pub live_state : ℕ → List Entry → Option Entry
live_state id [] = none
live_state id (e ∷ es) = elim (live_state id es) [
  | some f ↦ some f
  | none ↦ if e.node.id == id then some e else none
]

abbrev pub known_models : Option (List String) → List String
known_models none = []
known_models (some models) = models

abbrev pub with_state : NodeRow → Option Entry → NodeDto
with_state n none = record {
  row = n;
  health = unknown;
  models = [];
  last_error = "";
  last_checked_at = none;
}
with_state n (some e) = record {
  row = n;
  health = e.health;
  models = known_models e.models;
  last_error = e.last_error;
  last_checked_at = e.last_checked_at;
}

abbrev pub to_node_dto : NodeRow → List Entry → NodeDto
to_node_dto n states = with_state n (live_state n.id states)

abbrev pub node_response : ℕ → Poller → Result (Option NodeRow) → NodeAnswer
node_response status p (err e) = refused 500
node_response status p (ok none) = refused 500
node_response status p (ok (some n)) = shown status (to_node_dto n p.reg.snap.nodes)

-- The status of a write that has failed; CreateNode has no 404, nor DisableNode a 409.
abbrev pub write_status : Error → ℕ
write_status name_exists = 409
write_status not_found = 404
write_status _ = 500

-- writeNodeResponse
abbrev pub write_node_response : ℕ → ℕ → Gateway → NodeAnswer × Gateway
write_node_response id status g =
    let r = get_node id g.world in (node_response status g.poller r.0, record g { world = r.1 })

abbrev pub new_row : CreateRequest → NodeRow
new_row r = record {
  id = 0;
  name = r.name;
  base_url = r.base_url;
  backend_type = r.backend_type;
  auth_header = r.auth_header;
  static_models = r.static_models;
  health_path = r.health_path;
  timeout_seconds = r.timeout_seconds;
  enabled = false;
  source = "";
}

abbrev pub replaced_by {ℓ} : {A : Type ℓ} → Option A → A → A
replaced_by none old = old
replaced_by (some new) old = new

-- Absent keeps, the zero value clears, any other value replaces.
abbrev pub patched {ℓ} : {A : Type ℓ} → (A → Bool) → Option A → Option A → Option A
patched is_zero none old = old
patched is_zero (some new) old = if is_zero new then none else some new

abbrev pub is_nil : List String → Bool
is_nil [] = true
is_nil (x ∷ xs) = false

abbrev pub is_zero_ℤ : ℤ → Bool
is_zero_ℤ n = if leb_ℤ n (pos 0) then leb_ℤ (pos 0) n else false

abbrev pub patch_row : UpdateRequest → NodeRow → NodeRow
patch_row r n = record n {
  name = replaced_by r.name n.name;
  base_url = replaced_by r.base_url n.base_url;
  backend_type = replaced_by r.backend_type n.backend_type;
  auth_header = patched (λ v. v == "") r.auth_header n.auth_header;
  static_models = patched is_nil r.static_models n.static_models;
  health_path = patched (λ v. v == "") r.health_path n.health_path;
  timeout_seconds = patched is_zero_ℤ r.timeout_seconds n.timeout_seconds;
  enabled = replaced_by r.enabled n.enabled;
}

abbrev pub dtos : List NodeRow → List Entry → List NodeDto
dtos [] states = []
dtos (n ∷ rows) states = to_node_dto n states ∷ dtos rows states

abbrev pub listing : Poller → Result (List NodeRow) → NodeAnswer
listing p (err e) = refused 500
listing p (ok rows) = listed (dtos rows p.reg.snap.nodes)

unfoldable pub list_nodes_handler : Gateway → NodeAnswer × Gateway
list_nodes_handler g =
    let r = list_nodes g.world in (listing g.poller r.0, record g { world = r.1 })

abbrev pub found_node : Poller → Result (Option NodeRow) → NodeAnswer
found_node p (err e) = refused 500
found_node p (ok none) = refused 404
found_node p (ok (some n)) = shown 200 (to_node_dto n p.reg.snap.nodes)

unfoldable pub get_node_handler : ℕ → Gateway → NodeAnswer × Gateway
get_node_handler id g =
    let r = get_node id g.world in (found_node g.poller r.0, record g { world = r.1 })

module _ (lib : TextLibrary) (parse_url : String → Option String) (probe : NodeSpec → Outcome)
    (now : ℕ) where
  -- `runNodeRefresh`, with the load of RefreshNode
  unfoldable pub run_node_refresh : ℕ → Gateway → Result {0} Unit × Gateway
  run_node_refresh id g =
      let rows = list_nodes_with_secrets g.world in
      let r = refresh_node parse_url rows.0 probe now id g.poller in
      (r.0, record { world = rows.1; poller = r.1 })

  -- A reload that fails is logged.
  abbrev pub refresh_and_show : ℕ → ℕ → Gateway → NodeAnswer × Gateway
  refresh_and_show id status g = write_node_response id status (run_node_refresh id g).1

  abbrev pub created : Gateway → Result ℕ × World → NodeAnswer × Gateway
  created g (ok id, w) = refresh_and_show id 201 (record g { world = w })
  created g (err e, w) = (refused (write_status e), record g { world = w })

  abbrev pub create_checked : Gateway → Option NodeRow → NodeAnswer × Gateway
  create_checked g none = (refused 400, g)
  create_checked g (some n) = created g (create_node lib n g.world)

  unfoldable pub create_node_handler : Option CreateRequest → Gateway → NodeAnswer × Gateway
  create_node_handler none g = (refused 400, g)
  create_node_handler (some r) g = create_checked g (validate_node lib (new_row r))

  abbrev pub updated : ℕ → Gateway → Result {0} Unit × World → NodeAnswer × Gateway
  updated id g (ok t, w) = refresh_and_show id 200 (record g { world = w })
  updated id g (err e, w) = (refused (write_status e), record g { world = w })

  abbrev pub update_checked : ℕ → Gateway → Option NodeRow → NodeAnswer × Gateway
  update_checked id g none = (refused 400, g)
  update_checked id g (some n) = updated id g (update_node lib n g.world)

  -- A node of the nodes file is read-only, whatever the body.
  abbrev pub update_loaded :
      ℕ → Option UpdateRequest → Gateway → Result (Option NodeRow) → NodeAnswer × Gateway
  update_loaded id body g (err e) = (refused 500, g)
  update_loaded id body g (ok none) = (refused 404, g)
  update_loaded id body g (ok (some n)) =
      if n.source == "config" then (refused 409, g) else elim body [
        | none ↦ (refused 400, g)
        | some r ↦ update_checked id g (validate_node lib (patch_row r n))
      ]

  unfoldable pub update_node_handler : ℕ → Option UpdateRequest → Gateway → NodeAnswer × Gateway
  update_node_handler id body g =
      let r = get_node_with_secrets id g.world in
      update_loaded id body (record g { world = r.1 }) r.0

  abbrev pub removed : Result {0} Unit × Gateway → NodeAnswer × Gateway
  removed (ok t, g) = (no_content, g)
  removed (err e, g) = (refused 500, g)

  abbrev pub disabled : ℕ → Gateway → Result {0} Unit × World → NodeAnswer × Gateway
  disabled id g (ok t, w) = removed (run_node_refresh id (record g { world = w }))
  disabled id g (err e, w) = (refused (write_status e), record g { world = w })

  abbrev pub delete_loaded : ℕ → Gateway → Result (Option NodeRow) → NodeAnswer × Gateway
  delete_loaded id g (err e) = (refused 500, g)
  delete_loaded id g (ok none) = (refused 404, g)
  delete_loaded id g (ok (some n)) =
      if n.source == "config" then (refused 409, g) else disabled id g (disable_node id g.world)

  unfoldable pub delete_node_handler : ℕ → Gateway → NodeAnswer × Gateway
  delete_node_handler id g =
      let r = get_node id g.world in delete_loaded id (record g { world = r.1 }) r.0

  abbrev pub refreshed_node : ℕ → Result {0} Unit × Gateway → NodeAnswer × Gateway
  refreshed_node id (ok t, g) = write_node_response id 200 g
  refreshed_node id (err e, g) = (refused 500, g)

  abbrev pub refresh_loaded_node : ℕ → Gateway → Result (Option NodeRow) → NodeAnswer × Gateway
  refresh_loaded_node id g (err e) = (refused 500, g)
  refresh_loaded_node id g (ok none) = (refused 404, g)
  refresh_loaded_node id g (ok (some n)) = refreshed_node id (run_node_refresh id g)

  unfoldable pub refresh_node_handler : ℕ → Gateway → NodeAnswer × Gateway
  refresh_node_handler id g =
      let r = get_node id g.world in refresh_loaded_node id (record g { world = r.1 }) r.0
