-- ===== src/Admin/Examples.antt =====
-- Tests of internal/admin, and its theorems at a concrete bucket and a concrete table of nodes.
use local_ai_proxy.Store.Directory.{no_directory}
use local_ai_proxy.Prelude.{
  ◌≡◌, refl, Bool, true, false, Option, none, some, String, List, [], ◌∷◌, arith, ℕ, ℕ_key,
  String_key,
}
use local_ai_proxy.Prelude.Int.{pos, ◌-ℤ◌, ◌*ℤ◌, ◌+ℤ◌}
use local_ai_proxy.Prelude.Dict.{lookup, insert}
use local_ai_proxy.RateLimit.Tokens.{refilled}
use local_ai_proxy.Admin.SessionLimiter.{SessionBucket, take_session, charge_session, allow_session}
use local_ai_proxy.Store.Nodes.{NodeRow}
use local_ai_proxy.Store.NodeChecks.{Url, TextLibrary}
use local_ai_proxy.Store.NodeTable.{
  get_node, get_node_with_secrets, disable_node, switch_off, list_nodes_with_secrets,
}
use local_ai_proxy.Store.ReadOnly.{IsConfig}
use local_ai_proxy.Store.Sql.{Db, statement, answer}
use local_ai_proxy.Poller.{NodeSpec, new_poller, Outcome, failed, load}
use local_ai_proxy.Poller.Schedule.{refresh_node}
use local_ai_proxy.Admin.Nodes.{Gateway, no_content, run_node_refresh, delete_node_handler}
use local_ai_proxy.Admin.Nodes.Deletion.{IsDeleted, delete_node_handler-IsDeleted}
use local_ai_proxy.Admin.Nodes.Sources.{deletes, handle, handle-IsConfig}

abbrev spent : SessionBucket
spent = record { tokens = pos 0; last_refill = 0; last_access = 0 }

too_soon : (allow_session "hash" 1 (insert "hash" spent [])).0 ≡ false
unfolding allow_session charge_session take_session refilled lookup insert ◌-ℤ◌ ◌+ℤ◌ ◌*ℤ◌
too_soon = refl

-- The nodes.
abbrev plain_url : String → Option Url
plain_url s = some (record {
  scheme = "http";
  opaque_part = "";
  host = "a";
  has_user = false;
  raw_query = "";
  force_query = false;
  fragment = "";
  escaped_path = "/";
})

abbrev plain_library : TextLibrary
plain_library = record { trim_space = λ s. s; to_lower = λ s. s; parse_url = plain_url }

abbrev node_row : ℕ → String → Bool → NodeRow
node_row id source enabled = record {
  id = id;
  name = "gpu";
  base_url = "http://a";
  backend_type = "ollama";
  auth_header = none;
  static_models = none;
  health_path = none;
  timeout_seconds = none;
  enabled = enabled;
  source = source;
}

abbrev node_db : String → Db
node_db source = record {
  accounts = [];
  balances = [];
  holds = [];
  transactions = [];
  hold_seq = 0;
  nodes = (1, node_row 1 source true) ∷ [];
  node_seq = 1;
  requests = [];
  request_seq = 0;
  directory = no_directory;
}

abbrev gateway : String → List Bool → Gateway
gateway source faults = record {
  world = record { db = node_db source; now = 5; faults = faults };
  poller = new_poller;
}

abbrev refuses : NodeSpec → Outcome
refuses s = failed "refused"

deletion_answer :
    (delete_node_handler plain_library (λ s. some s) refuses 7 1 (gateway "api" [])).0 ≡ no_content
unfolding delete_node_handler get_node get_node_with_secrets disable_node switch_off statement
    answer run_node_refresh list_nodes_with_secrets refresh_node load lookup insert
deletion_answer = refl

delete_node_handler-IsDeleted_example :
    IsDeleted 1
      (node_db "api")
      (lookup 1 (node_db "api").nodes)
      (delete_node_handler plain_library (λ s. some s) refuses 7 1 (gateway "api" []))
unfolding lookup
delete_node_handler-IsDeleted_example =
    delete_node_handler-IsDeleted plain_library (λ s. some s) refuses 7 1 (node_db "api") 5
      new_poller (refl, tt)

handle-IsConfig_example :
    IsConfig 1
      (node_row 1 "config" true)
      (handle plain_library
        (λ s. some s)
        refuses
        7
        (deletes 1)
        (gateway "config" (false ∷ true ∷ []))).1.world.db
unfolding lookup
handle-IsConfig_example =
    handle-IsConfig plain_library (λ s. some s) refuses 7 (deletes 1) 1 (node_row 1 "config" true)
      (gateway "config" (false ∷ true ∷ [])) (refl, refl, omega arith)
