-- ===== src/Store/NodeTable.antt =====
-- internal/store/nodes.go: the methods on the table of nodes.
use local_ai_proxy.Prelude.{
  ℕ, ◌+◌, Bool, true, false, ◌&&◌, ◌||◌, not, Option, none, some, String, List, [], ◌∷◌, map,
  if◌then◌else◌, ◌==◌, ℕ_key, String_key,
}
use local_ai_proxy.Prelude.Dict.{Dict, lookup, insert}
use local_ai_proxy.Store.Nodes.{NodeRow}
use local_ai_proxy.Store.NodeChecks.{TextLibrary, mask_auth_header, validate_node}
use local_ai_proxy.Store.Sql.{not_found, name_exists, invalid, Result, ok, err, Db, Sql, statement}
use local_ai_proxy.Registry.{sort_by}

-- Has another row the name? This is the unique index on the names.
abbrev pub name_taken : String → ℕ → Dict ℕ NodeRow → Bool
name_taken name id [] = false
name_taken name id ((j, n) ∷ rows) = (n.name == name && not (j == id)) || name_taken name id rows

-- `INSERT INTO nodes … RETURNING id`; the sequence advances all the same.
unfoldable pub insert_node : NodeRow → Db → Result ℕ × Db
insert_node n db =
    let id = db.node_seq + 1 in
    if name_taken n.name id db.nodes then (err name_exists, record db { node_seq = id }) else (
      ok id,
      record db {
        nodes = insert id (record n { id = id; enabled = true }) db.nodes;
        node_seq = id;
      },
    )

abbrev pub source_of : String → Option String
source_of s = if s == "" then some "api" else if (s == "api" || s == "config") then some s else none

abbrev pub create_valid : Option NodeRow → Sql ℕ
create_valid none w = (err invalid, w)
create_valid (some n) w = elim (source_of n.source) [
  | none ↦ (err invalid, w)
  | some source ↦ statement (insert_node (record n { source = source })) w
]

unfoldable pub create_node : TextLibrary → NodeRow → Sql ℕ
create_node lib n = create_valid (validate_node lib n)

-- `UPDATE nodes SET … WHERE id = $9`, which sets neither the source nor the id
unfoldable pub write_node : NodeRow → Db → Result (Unit {0}) × Db
write_node n db = elim (lookup n.id db.nodes) [
  | none ↦ (err not_found, db)
  | some old ↦
      if name_taken n.name n.id db.nodes
      then (err name_exists, db)
      else (ok tt, record db { nodes = insert n.id (record n { source = old.source }) db.nodes })
]

abbrev pub update_valid : Option NodeRow → Sql (Unit {0})
update_valid none w = (err invalid, w)
update_valid (some n) w = statement (write_node n) w

unfoldable pub update_node : TextLibrary → NodeRow → Sql (Unit {0})
update_node lib n = update_valid (validate_node lib n)

unfoldable pub switch_off : ℕ → Db → Result (Unit {0}) × Db
switch_off id db = elim (lookup id db.nodes) [
  | none ↦ (err not_found, db)
  | some n ↦ (ok tt, record db { nodes = insert id (record n { enabled = false }) db.nodes })
]

unfoldable pub disable_node : ℕ → Sql (Unit {0})
disable_node id = statement (switch_off id)

-- The rows of a SELECT; the id is the row's key.
abbrev pub rows_of : Dict ℕ NodeRow → List NodeRow
rows_of [] = []
rows_of ((id, n) ∷ rows) = record n { id = id } ∷ rows_of rows

abbrev pub row_id : NodeRow → ℕ
row_id n = n.id

abbrev pub with_id : ℕ → Option NodeRow → Option NodeRow
with_id id none = none
with_id id (some n) = some (record n { id = id })

-- `getNodeRaw`, which is GetNodeWithSecrets; no row is no error.
unfoldable pub get_node_with_secrets : ℕ → Sql (Option NodeRow)
get_node_with_secrets id = statement λ db. (ok (with_id id (lookup id db.nodes)), db)

abbrev pub mask_header : Option String → Option String
mask_header none = none
mask_header (some v) = some (mask_auth_header v)

abbrev pub mask_node_secret : NodeRow → NodeRow
mask_node_secret n = record n { auth_header = mask_header n.auth_header }

abbrev pub mask_found : Option NodeRow → Option NodeRow
mask_found none = none
mask_found (some n) = some (mask_node_secret n)

abbrev pub mask_result : Result (Option NodeRow) → Result (Option NodeRow)
mask_result (ok n) = ok (mask_found n)
mask_result (err e) = err e

unfoldable pub get_node : ℕ → Sql (Option NodeRow)
get_node id w = let r = get_node_with_secrets id w in (mask_result r.0, r.1)

-- `listNodesRaw`, which is ListNodesWithSecrets, in the order of the IDs
unfoldable pub list_nodes_with_secrets : Sql (List NodeRow)
list_nodes_with_secrets = statement λ db. (ok (sort_by row_id (rows_of db.nodes)), db)

abbrev pub mask_all : Result (List NodeRow) → Result (List NodeRow)
mask_all (ok rows) = ok (map mask_node_secret rows)
mask_all (err e) = err e

unfoldable pub list_nodes : Sql (List NodeRow)
list_nodes w = let r = list_nodes_with_secrets w in (mask_all r.0, r.1)
