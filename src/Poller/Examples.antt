-- ===== src/Poller/Examples.antt =====
-- Tests of internal/poller/poller.go, and its theorems at concrete runs.
use local_ai_proxy.Prelude.{
  ℕ, ◌+◌, ◌==◌, ◌≡◌, refl, ◌↔◌, true, false, none, some, String, List, [], ◌∷◌, Option, ℕ_key,
  String_key, if◌then◌else◌,
}
use local_ai_proxy.Prelude.Dict.{lookup, insert, retain, delete}
use local_ai_proxy.Store.Sql.{ok}
use local_ai_proxy.Store.Nodes.{NodeRow}
use local_ai_proxy.Registry.{
  healthy, unhealthy, model_unavailable, publish_locked, carry_over, declare, set_nodes,
  set_node_probe, build, add_entry, add_routes, sort_routes, sort_by, insert_sorted, pick, resolve,
}
use local_ai_proxy.Poller.{
  NodeSpec, new_poller, specs_of, visit, visit_all, reconcile, adopt, load, found, failed, advance,
  apply,
}
use local_ai_proxy.Poller.Hysteresis.{ProbeRun, after_probes, IsExplained, after_probes-IsExplained}
use local_ai_proxy.Poller.Visits.{Agrees}
use local_ai_proxy.Poller.Routing.{
  Event, loads, applies, step, after, IsBacked, after-Agrees, routes-IsBacked,
}
use local_ai_proxy.Poller.Probe.{
  Fetched, answered, Attempt, done, bad, read_capped, probe_url, parse_models, answer, auth_of,
  probe,
}
use local_ai_proxy.Poller.Schedule.{refresh_node}
use local_ai_proxy.Poller.Refresh.{IsRefreshed, refresh_node-IsRefreshed}
use local_ai_proxy.Poller.Discovery.{IsAlive, probe-IsAlive}

abbrev row : ℕ → String → Option (List String) → NodeRow
row id url models = record {
  id = id;
  name = "gpu";
  base_url = url;
  backend_type = "ollama";
  auth_header = none;
  static_models = models;
  health_path = none;
  timeout_seconds = none;
  enabled = true;
  source = "api";
}

abbrev parse_url : String → Option String
parse_url s = if s == "" then none else some s

-- A node with a static list is found healthy, then its list is taken away, and a probe that was in
-- flight then ends.
abbrev history : List Event
history =
    applies 1 (found ("llama" ∷ [])) false 9
    ∷ loads (ok (row 1 "http://a" none ∷ []))
    ∷ applies 1 (found ("llama" ∷ [])) true 5
    ∷ loads (ok (row 1 "http://a" (some ("llama" ∷ [])) ∷ []))
    ∷ []

abbrev reset_history : List Event
reset_history =
    loads (ok (row 1 "http://a" none ∷ []))
    ∷ applies 1 (found ("llama" ∷ [])) true 5
    ∷ loads (ok (row 1 "http://a" (some ("llama" ∷ [])) ∷ []))
    ∷ []

-- The reset is published with the reload.
after_reset : (resolve "llama" (after parse_url reset_history).reg).0 ≡ model_unavailable
unfolding after step load adopt reconcile visit_all visit apply advance specs_of set_nodes
    set_node_probe publish_locked declare carry_over lookup insert retain delete build add_entry
    add_routes sort_routes sort_by insert_sorted resolve pick
after_reset = refl

-- An outcome of the old list that comes after the reset is published like any other.
late_outcome :
    (lookup 1 (after parse_url history).state)
    ≡ some (record {
      name = "gpu";
      identity = "http://a" ∷ "ollama" ∷ "" ∷ "" ∷ "discovery" ∷ [];
      health = healthy;
      failures = 0;
      models = some ("llama" ∷ []);
      last_probe = some 9;
    })
unfolding after step load adopt reconcile visit_all visit apply advance specs_of lookup insert
    retain delete
late_outcome = refl

abbrev one_spec : NodeSpec
one_spec = record {
  id = 1;
  name = "gpu";
  base_url = "http://a";
  backend_type = "ollama";
  auth_header = "";
  static_models = none;
  health_path = "";
}

abbrev two_failures : List ProbeRun
two_failures =
    record { sweep = false; at = 3; outcome = failed "timeout" }
    ∷ record { sweep = false; at = 2; outcome = failed "timeout" }
    ∷ record { sweep = true; at = 1; outcome = found ("llama" ∷ []) }
    ∷ []

two_failures_health : (after_probes one_spec two_failures).health ≡ unhealthy
unfolding after_probes advance
two_failures_health = refl

after_probes-IsExplained_example : IsExplained (after_probes one_spec two_failures) two_failures
after_probes-IsExplained_example = after_probes-IsExplained one_spec two_failures

after-Agrees_example :
    Agrees
      (lookup 1 (after parse_url history).state)
      (lookup 1 (after parse_url history).reg.entries)
after-Agrees_example = after-Agrees parse_url history 1

routes-IsBacked_example :
    IsBacked "llama" (after parse_url history) (resolve "llama" (after parse_url history).reg).0
routes-IsBacked_example = routes-IsBacked parse_url history "llama"

abbrev tags : List ℕ → Attempt (List String)
tags bytes = elim bytes [ [] ↦ bad "unexpected end" | x ∷ xs ↦ done ("llama" ∷ "" ∷ []) ]

abbrev fetch : String → Option String → Fetched
fetch url auth = answered (record { status = 200; bytes = 123 ∷ 125 ∷ []; broken = none })

abbrev join : String → String → String
join base path = base

probe_found : probe tags tags join fetch 2 one_spec ≡ found ("llama" ∷ [])
unfolding probe answer parse_models read_capped
probe_found = refl

probe-IsAlive_example :
    (probe tags tags join fetch 1 one_spec ≡ found ("llama" ∷ []))
    ↔ IsAlive tags tags 1 one_spec
        (fetch (probe_url join one_spec) (auth_of one_spec))
        ("llama" ∷ [])
probe-IsAlive_example = probe-IsAlive tags tags join fetch 1 one_spec ("llama" ∷ [])

abbrev hash : ℕ → ℕ
hash id = id + 2047

refresh_node-IsRefreshed_example :
    IsRefreshed parse_url
      (ok (row 1 "http://a" none ∷ []))
      (λ s. failed "refused")
      1
      new_poller
      (refresh_node parse_url
        (ok (row 1 "http://a" none ∷ []))
        (λ s. failed "refused")
        7
        1
        new_poller)
refresh_node-IsRefreshed_example =
    refresh_node-IsRefreshed parse_url (ok (row 1 "http://a" none ∷ [])) (λ s. failed "refused") 7 1
      new_poller
