-- ===== src/NodeSource/Merge.antt =====
-- internal/nodesource/nodesource.go: the declared nodes and their merge with the stored ones. A node
-- of NODES_FILE is decoded already; `unreadable` stands for what ReadFile and the decoder refuse.
use local_ai_proxy.Prelude.{
  Bool, true, false, ◌&&◌, ◌||◌, not, Option, none, some, String, List, [], ◌∷◌, ◌++◌,
  if◌then◌else◌, ◌==◌, ℕ_key, String_key,
}
use local_ai_proxy.Prelude.Int.{ℤ}
use local_ai_proxy.Prelude.Text.{chars, text}
use local_ai_proxy.Store.Nodes.{NodeRow}
use local_ai_proxy.Store.NodeChecks.{
  TextLibrary, is_empty, backend_of, canonicalize_base_url, accepted_fields,
}
use local_ai_proxy.Store.NodeTable.{create_node, update_node, disable_node, list_nodes_with_secrets}
use local_ai_proxy.Store.Sql.{
  Error, not_found, invalid, name_exists, Result, ok, err, World, Sql, ◌>>=◌, ◌>>◌, pure, require,
}
use local_ai_proxy.NodeSource.Expand.{Expansion, expanded, expand_env}

-- declaredNode
pub record DeclaredNode : Type 0 where
  pub name : String
  pub base_url : String
  pub backend_type : String
  pub auth_header : Option String
  pub static_models : Option (List String)
  pub health_path : Option String
  pub timeout_seconds : Option ℤ

-- The sources of a start.
pub record Sources : Type 0 where
  pub nodes_file : Option (Result (List DeclaredNode))
  pub ollama_url : Option String

abbrev pub expansion : Expansion → Option String
expansion (expanded s) = some (text s)
expansion _ = none

abbrev pub to_some : Option String → Option (Option String)
to_some none = none
to_some (some s) = some (some s)

abbrev pub one_more : Option String → Option (List String) → Option (List String)
one_more none rest = none
one_more (some s) none = none
one_more (some s) (some rest) = some (s ∷ rest)

abbrev pub to_some_list : Option (List String) → Option (Option (List String))
to_some_list none = none
to_some_list (some s) = some (some s)

module _ (env : String → Option String) where
  abbrev pub expand_text : String → Option String
  expand_text s = expansion (expand_env env (chars s))

  -- An absent value stays absent.
  abbrev pub expand_field : Option String → Option (Option String)
  expand_field none = some none
  expand_field (some s) = to_some (expand_text s)

  abbrev pub expand_list : List String → Option (List String)
  expand_list [] = some []
  expand_list (s ∷ rest) = one_more (expand_text s) (expand_list rest)

  abbrev pub expand_models : Option (List String) → Option (Option (List String))
  expand_models none = some none
  expand_models (some models) = to_some_list (expand_list models)

  -- `expand`, whose first error ends it; which one it is does not matter here.
  unfoldable pub expand_node : DeclaredNode → Option DeclaredNode
  expand_node d = elim (expand_text d.name) [
    | none ↦ none
    | some name ↦ elim (expand_text d.base_url) [
      | none ↦ none
      | some base_url ↦ elim (expand_text d.backend_type) [
        | none ↦ none
        | some backend_type ↦ elim (expand_field d.auth_header) [
          | none ↦ none
          | some auth_header ↦ elim (expand_field d.health_path) [
            | none ↦ none
            | some health_path ↦ elim (expand_models d.static_models) [
              | none ↦ none
              | some static_models ↦ some (record d {
                name = name;
                base_url = base_url;
                backend_type = backend_type;
                auth_header = auth_header;
                health_path = health_path;
                static_models = static_models;
              })
            ]
          ]
        ]
      ]
    ]
  ]

abbrev pub declared_row : DeclaredNode → String → String → String → NodeRow
declared_row d name base_url backend_type = record {
  id = 0;
  name = name;
  base_url = base_url;
  backend_type = backend_type;
  auth_header = d.auth_header;
  static_models = d.static_models;
  health_path = d.health_path;
  timeout_seconds = d.timeout_seconds;
  enabled = true;
  source = "config";
}

abbrev pub checked_row : TextLibrary → NodeRow → Option NodeRow
checked_row lib n = if accepted_fields lib n then some n else none

-- The checks of `toNode` after `expand`.
unfoldable pub to_row : TextLibrary → DeclaredNode → Option NodeRow
to_row lib d =
    if is_empty (lib.trim_space d.name) then none else elim (canonicalize_base_url lib d.base_url) [
      | none ↦ none
      | some base_url ↦ elim (backend_of d.backend_type) [
        | none ↦ none
        | some backend_type ↦
            checked_row lib (declared_row d (lib.trim_space d.name) base_url backend_type)
      ]
    ]

abbrev pub to_row_found : TextLibrary → Option DeclaredNode → Option NodeRow
to_row_found lib none = none
to_row_found lib (some d) = to_row lib d

abbrev pub has_name : String → List NodeRow → Bool
has_name name [] = false
has_name name (n ∷ nodes) = n.name == name || has_name name nodes

-- A node joins those before it, whose names are taken.
abbrev pub join_node : List NodeRow → Option NodeRow → Option (List NodeRow)
join_node nodes none = none
join_node nodes (some n) = if has_name n.name nodes then none else some (nodes ++ n ∷ [])

module _ (lib : TextLibrary) (env : String → Option String) where
  abbrev pub load_rest : Option (List NodeRow) → List DeclaredNode → Option (List NodeRow)
  load_rest none ds = none
  load_rest (some nodes) [] = some nodes
  load_rest (some nodes) (d ∷ ds) =
      load_rest (join_node nodes (to_row_found lib (expand_node env d))) ds

  -- `loadNodesFile`, after the decoder
  abbrev pub load_nodes_file : Option (Result (List DeclaredNode)) → Option (List NodeRow)
  load_nodes_file none = some []
  load_nodes_file (some (err e)) = none
  load_nodes_file (some (ok ds)) = load_rest (some []) ds

  abbrev pub default_node : String → NodeRow
  default_node base_url = record {
    id = 0;
    name = "default";
    base_url = base_url;
    backend_type = "ollama";
    auth_header = none;
    static_models = none;
    health_path = none;
    timeout_seconds = none;
    enabled = true;
    source = "config";
  }

  abbrev pub with_ollama : Option String → Option (List NodeRow) → Option (List NodeRow)
  with_ollama url none = none
  with_ollama none (some nodes) = some nodes
  with_ollama (some url) (some nodes) = elim (canonicalize_base_url lib url) [
    | none ↦ none
    | some base_url ↦ join_node nodes (some (default_node base_url))
  ]

  -- loadDeclared; `none` for every error.
  unfoldable pub load_declared : Sources → Option (List NodeRow)
  load_declared s = with_ollama s.ollama_url (load_nodes_file s.nodes_file)

-- `byName[name]`, filled in the order of the rows
abbrev pub by_name : String → List NodeRow → Option NodeRow
by_name name [] = none
by_name name (n ∷ rows) = elim (by_name name rows) [
  | some m ↦ some m
  | none ↦ if n.name == name then some n else none
]

abbrev pub is_api : Option NodeRow → Bool
is_api none = false
is_api (some n) = not (n.source == "config")

-- The collision pass.
abbrev pub collides : List NodeRow → List NodeRow → Bool
collides existing [] = false
collides existing (d ∷ declared) = is_api (by_name d.name existing) || collides existing declared

abbrev pub apply_one : TextLibrary → NodeRow → Option NodeRow → Sql (Unit {0})
apply_one lib d none = create_node lib d >> pure tt
apply_one lib d (some ex) = update_node lib (record d { id = ex.id })

unfoldable pub apply_declared : TextLibrary → List NodeRow → List NodeRow → Sql (Unit {0})
apply_declared lib existing [] = pure tt
apply_declared lib existing (d ∷ declared) =
    apply_one lib d (by_name d.name existing) >> apply_declared lib existing declared

abbrev pub if_missing : Error → Result {0} Unit
if_missing not_found = ok tt
if_missing e = err e

-- A node that is gone already is no error.
abbrev pub missing_is_fine : Result {0} Unit × World → Result {0} Unit × World
missing_is_fine (ok t, w) = (ok t, w)
missing_is_fine (err e, w) = (if_missing e, w)

abbrev pub disable_one : List NodeRow → NodeRow → Sql (Unit {0})
disable_one declared ex w =
    if (ex.source == "config" && ex.enabled && not (has_name ex.name declared))
    then missing_is_fine (disable_node ex.id w)
    else (ok tt, w)

unfoldable pub disable_undeclared : List NodeRow → List NodeRow → Sql (Unit {0})
disable_undeclared declared [] = pure tt
disable_undeclared declared (ex ∷ existing) =
    disable_one declared ex >> disable_undeclared declared existing

unfoldable pub merge : TextLibrary → List NodeRow → Sql (Unit {0})
merge lib declared = do
  existing ← list_nodes_with_secrets
  require (not (collides existing declared)) name_exists
  apply_declared lib existing declared
  disable_undeclared declared existing

abbrev pub merge_loaded : TextLibrary → Option (List NodeRow) → Sql (Unit {0})
merge_loaded lib none w = (err invalid, w)
merge_loaded lib (some declared) w = merge lib declared w

-- SyncDeclaredNodes
unfoldable pub sync_declared_nodes :
    TextLibrary → (String → Option String) → Sources → Sql (Unit {0})
sync_declared_nodes lib env s = merge_loaded lib (load_declared lib env s)
