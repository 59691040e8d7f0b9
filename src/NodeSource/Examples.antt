-- ===== src/NodeSource/Examples.antt =====
-- Tests of internal/nodesource/nodesource.go, and its theorems at concrete files.
use local_ai_proxy.Store.Directory.{no_directory}
use local_ai_proxy.Prelude.{
  ℕ, ℕ_key, true, false, arith, ◌≡◌, ◌≢◌, refl, Option, none, some, String, [], ◌∷◌, ◌==◌,
  String_key, if◌then◌else◌,
}
use local_ai_proxy.Prelude.Text.{chars}
use local_ai_proxy.NodeSource.Expand.{
  expanded, unterminated, invalid_name, not_set, exhausted, expand_loop, expand_env,
}
use local_ai_proxy.NodeSource.Template.{
  Template, print, fill, expand_env-fill, expand_env≢exhausted,
}
use local_ai_proxy.Prelude.Dict.{lookup, insert}
use local_ai_proxy.Store.Nodes.{NodeRow}
use local_ai_proxy.Store.NodeChecks.{
  Url, TextLibrary, canonicalize_base_url, validate_auth_header, validate_node,
}
use local_ai_proxy.Store.NodeTable.{
  create_node, insert_node, disable_node, switch_off, list_nodes_with_secrets,
}
use local_ai_proxy.Store.ReadOnly.{IsOwned}
use local_ai_proxy.Store.Sql.{name_exists, ok, err, World, statement, answer, ◌>>=◌, pure, require}
use local_ai_proxy.Registry.{sort_by, insert_sorted}
use local_ai_proxy.NodeSource.Merge.{
  Sources, expand_node, to_row, load_declared, apply_declared, disable_undeclared, merge,
  sync_declared_nodes,
}
use local_ai_proxy.NodeSource.ApiNodes.{sync_declared_nodes-IsOwned}

abbrev environment : String → Option String
environment name = if name == "TOKEN" then some "sk" else none

abbrev bearer : Template
bearer = record { parts = (chars "Bearer $", chars "TOKEN") ∷ []; tail = chars "}" }

printed_text : print bearer ≡ chars "Bearer $${TOKEN}}"
printed_text = refl

expanded_text : expand_env environment (chars "Bearer $${TOKEN}}") ≡ expanded (chars "Bearer $sk}")
unfolding expand_env expand_loop
expanded_text = refl

unset_variable : expand_env environment (chars "${HOME}") ≡ not_set (chars "HOME")
unfolding expand_env expand_loop
unset_variable = refl

no_name : expand_env environment (chars "${}") ≡ invalid_name []
unfolding expand_env expand_loop
no_name = refl

no_end : expand_env environment (chars "a${TOKEN") ≡ unterminated
unfolding expand_env expand_loop
no_end = refl

expand_env-fill_example : expand_env environment (print bearer) ≡ fill environment bearer
expand_env-fill_example = expand_env-fill environment bearer (((refl, refl), tt), refl)

expand_env≢exhausted_example : expand_env environment (chars "${TOKEN}${TOKEN") ≢ exhausted
expand_env≢exhausted_example = expand_env≢exhausted environment (chars "${TOKEN}${TOKEN")

abbrev a_url : Url
a_url = record {
  scheme = "http";
  opaque_part = "";
  host = "a";
  has_user = false;
  raw_query = "";
  force_query = false;
  fragment = "";
  escaped_path = "";
}

abbrev plain_library : TextLibrary
plain_library = record { trim_space = λ s. s; to_lower = λ s. s; parse_url = λ s. some a_url }

abbrev stored : ℕ → String → String → NodeRow
stored id name source = record {
  id = id;
  name = name;
  base_url = "http://a";
  backend_type = "ollama";
  auth_header = none;
  static_models = none;
  health_path = none;
  timeout_seconds = none;
  enabled = true;
  source = source;
}

-- A node of the API, and one of an older nodes file.
abbrev before_start : World
before_start = record {
  db = record {
    accounts = [];
    balances = [];
    holds = [];
    transactions = [];
    hold_seq = 0;
    nodes = (1, stored 1 "api" "api") ∷ (2, stored 2 "old" "config") ∷ [];
    node_seq = 2;
    requests = [];
    request_seq = 0;
    directory = no_directory;
  };
  now = 5;
  faults = [];
}

abbrev declared : String → Sources
declared name = record {
  nodes_file = some (
      ok (
        record {
          name = name;
          base_url = "http://a";
          backend_type = "";
          auth_header = some "Bearer ${TOKEN}";
          static_models = none;
          health_path = none;
          timeout_seconds = none;
        }
        ∷ []));
  ollama_url = none;
}

-- The new node is made, and the old one is switched off.
after_start :
    (sync_declared_nodes plain_library environment (declared "new") before_start).1.db.nodes
    ≡ (1, stored 1 "api" "api")
      ∷ (2, record (stored 2 "old" "config") { enabled = false })
      ∷ (3, record (stored 3 "new" "config") { auth_header = some "Bearer sk" })
      ∷ []
unfolding sync_declared_nodes load_declared expand_node to_row expand_env expand_loop
    canonicalize_base_url validate_auth_header validate_node merge apply_declared disable_undeclared
    create_node insert_node disable_node switch_off list_nodes_with_secrets sort_by insert_sorted
    statement answer ◌>>=◌ pure require lookup insert
after_start = refl

name_collision :
    (sync_declared_nodes plain_library environment (declared "api") before_start).0
    ≡ err name_exists
unfolding sync_declared_nodes load_declared expand_node to_row expand_env expand_loop
    canonicalize_base_url validate_auth_header merge list_nodes_with_secrets sort_by insert_sorted
    statement answer ◌>>=◌ require
name_collision = refl

sync_declared_nodes-IsOwned_example :
    IsOwned false 1
      (stored 1 "api" "api")
      (sync_declared_nodes plain_library environment (declared "new") before_start).1.db
unfolding lookup
sync_declared_nodes-IsOwned_example =
    sync_declared_nodes-IsOwned plain_library environment (declared "new") before_start 1
      (stored 1 "api" "api") (refl, (refl, tt)) (refl, refl, omega arith)
