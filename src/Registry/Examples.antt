-- ===== src/Registry/Examples.antt =====
-- Tests of internal/registry/registry.go, and its theorems at concrete registries.
use local_ai_proxy.Prelude.{
  ℕ, ◌<◌, ◌≡◌, refl, some, String, List, [], ◌∷◌, arith, ℕ_key, String_key,
}
use local_ai_proxy.Prelude.Dict.{lookup, insert, retain, delete}
use local_ai_proxy.Registry.{
  healthy, Node, ProbeResult, add_routes, add_entry, build, insert_sorted, sort_by, sort_routes,
  publish_locked, carry_over, declare, set_nodes, set_node_probe, routed, model_unavailable,
  at_index, pick, resolve,
}
use local_ai_proxy.Registry.Routing.{
  Event, declares, probes, step, after, IsSound, IsRight, after-IsSound, resolve-IsRight,
}
use local_ai_proxy.Registry.Balance.{resolves, resolve-fair}

abbrev node_at : ℕ → String → Node
node_at id url = record {
  id = id;
  name = "gpu";
  base_url = some url;
  auth_header = "";
  timeout = 0;
}

abbrev probe : ProbeResult
probe = record {
  health = healthy;
  models = some ("llama" ∷ []);
  last_error = "";
  last_checked_at = some 5;
}

-- Two nodes are declared, the second one's probe comes first.
abbrev events : List Event
events =
    probes 1 probe
    ∷ probes 2 probe
    ∷ declares (node_at 2 "http://b" ∷ node_at 1 "http://a" ∷ [])
    ∷ []

first_resolve : (resolve "llama" (after events)).0 ≡ routed (node_at 1 "http://a")
unfolding after step set_nodes set_node_probe publish_locked declare carry_over lookup insert retain
    delete build add_entry add_routes sort_routes sort_by insert_sorted resolve pick
first_resolve = refl

second_resolve :
    (resolve "llama" (resolves 1 "llama" (after events))).0 ≡ routed (node_at 2 "http://b")
unfolding after step set_nodes set_node_probe publish_locked declare carry_over lookup insert retain
    delete build add_entry add_routes sort_routes sort_by insert_sorted resolve pick
second_resolve = refl

unknown_model : (resolve "other" (after events)).0 ≡ model_unavailable
unfolding after step set_nodes set_node_probe publish_locked declare carry_over lookup insert retain
    delete build add_entry add_routes sort_routes sort_by insert_sorted resolve pick
unknown_model = refl

after-IsSound_example : IsSound (after events)
after-IsSound_example = after-IsSound events

resolve-IsRight_example : IsRight "llama" (after events).entries (resolve "llama" (after events)).0
resolve-IsRight_example = resolve-IsRight events "llama"

resolve-fair_example :
    (k : ℕ) × (k < 2)
    × ((resolve "llama" (resolves k "llama" (after events))).0
        ≡ at_index (node_at 1 "http://a" ∷ node_at 2 "http://b" ∷ []) 1)
unfolding after step set_nodes set_node_probe publish_locked declare carry_over lookup insert retain
    delete build add_entry add_routes sort_routes sort_by insert_sorted
resolve-fair_example = resolve-fair 1 "llama" (after events) (omega arith) (omega arith)
