-- ===== src/Store/Nodes.antt =====
-- internal/store/nodes.go: the rows of the table of nodes.
use local_ai_proxy.Prelude.{ℕ, Bool, Option, String, List}
use local_ai_proxy.Prelude.Int.{ℤ}

-- Node. `static_models` is `none` where the models are discovered.
pub record NodeRow : Type 0 where
  pub id : ℕ
  pub name : String
  pub base_url : String
  pub backend_type : String
  pub auth_header : Option String
  pub static_models : Option (List String)
  pub health_path : Option String
  pub timeout_seconds : Option ℤ
  pub enabled : Bool
  pub source : String
