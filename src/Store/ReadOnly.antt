-- ===== src/Store/ReadOnly.antt =====
-- internal/store/nodes.go: the writes that leave the nodes of the nodes file alone.
use local_ai_proxy.Prelude.{
  ℕ, ◌+◌, ◌≤◌, ◌≡◌, refl, sym, ap, ◌∙◌, Bool, true, false, Option, none, some, String, arith, ◌==◌,
  eq_key, ℕ_key, String_key, inl, inr, Bool-cases, Option-cases, false≢true,
}
use local_ai_proxy.Prelude.Dict.{lookup, insert, lookup-insert}
use local_ai_proxy.Store.Nodes.{NodeRow}
use local_ai_proxy.Store.NodeChecks.{
  TextLibrary, is_empty, accepted_fields, normalized, canonicalize_base_url, backend_of,
  validate_node,
}
use local_ai_proxy.Store.NodeTable.{
  name_taken, insert_node, source_of, create_node, write_node, update_node, switch_off,
  disable_node, with_id, get_node, get_node_with_secrets, list_nodes_with_secrets, mask_result,
  update_valid, create_valid, row_id, rows_of,
}
use local_ai_proxy.Registry.{sort_by}
use local_ai_proxy.Store.Statements.{statement-keeps, faults_cases}
use local_ai_proxy.Store.Sql.{Result, ok, err, Db, World, statement, answer}

-- A row as it is, which is one of the nodes file or not.
abbrev pub IsOwned : Bool → ℕ → NodeRow → Db → Type 0
IsOwned b j n db = (lookup j db.nodes ≡ some n) × ((n.source == "config") ≡ b) × (j ≤ db.node_seq)

-- A node of the nodes file, its row as it is.
abbrev pub IsConfig : ℕ → NodeRow → Db → Type 0
IsConfig j n db = IsOwned true j n db

insert_node-IsOwned :
    (b : Bool) (j : ℕ) (n m : NodeRow) (db : Db)
    → IsOwned b j n db
    → IsOwned b j n (insert_node m db).1
unfolding insert_node
insert_node-IsOwned b j n m db h =
    elim (Bool-cases (name_taken m.name (db.node_seq + 1) db.nodes)) [
      | inl e ↦ rw (insert_node, e) (h.0, h.1, omega (arith, h.2))
      | inr e ↦
          rw (insert_node, e)
            (
              rw lookup-insert (ground (arith, h.0, h.2, eq_key (db.node_seq + 1) j)),
              h.1,
              omega (arith, h.2),
            )
    ]

-- A write elsewhere.
insert-IsOwned :
    (b : Bool) (j id : ℕ) (n m : NodeRow) (db : Db)
    → (id == j) ≡ false
    → IsOwned b j n db
    → IsOwned b j n (record db { nodes = insert id m db.nodes })
insert-IsOwned b j id n m db d h = (rw (lookup-insert, d) h.0, h.1, h.2)

write_node-IsOwned :
    (b : Bool) (j : ℕ) (n m : NodeRow) (db : Db)
    → (m.id == j) ≡ false
    → IsOwned b j n db
    → IsOwned b j n (write_node m db).1
unfolding write_node
write_node-IsOwned b j n m db d h = elim (Option-cases (lookup m.id db.nodes)) [
  | inl e ↦ rw (write_node, e) h
  | inr (old, e) ↦ elim (Bool-cases (name_taken m.name m.id db.nodes)) [
    | inl t ↦ rw (write_node, e, t) h
    | inr t ↦ rw (write_node, e, t) (insert-IsOwned b j m.id n _ db d h)
  ]
]

switch_off-IsOwned :
    (b : Bool) (j id : ℕ) (n : NodeRow) (db : Db)
    → (id == j) ≡ false
    → IsOwned b j n db
    → IsOwned b j n (switch_off id db).1
unfolding switch_off
switch_off-IsOwned b j id n db d h = elim (Option-cases (lookup id db.nodes)) [
  | inl e ↦ rw (switch_off, e) h
  | inr (m, e) ↦ rw (switch_off, e) (insert-IsOwned b j id n _ db d h)
]

-- What a read of an ID gives, if it gives a row.
abbrev pub IsRead : ℕ → Db → Result (Option NodeRow) → Type 0
IsRead id db (err e) = Unit
IsRead id db (ok none) = Unit
IsRead id db (ok (some m)) =
    (x : NodeRow) × (lookup id db.nodes ≡ some x) × (x.source ≡ m.source) × (m.id ≡ id)

row-IsRead :
    (id : ℕ) (db : Db) (o : Option NodeRow)
    → lookup id db.nodes ≡ o
    → IsRead id db (ok (with_id id o))
row-IsRead id db none e = tt
row-IsRead id db (some x) e = (x, e, refl, refl)

-- A read, with the tables as they were.
abbrev pub Reads : ℕ → Db → Result (Option NodeRow) × World → Type 0
Reads id db r = (r.1.db ≡ db) × IsRead id db r.0

pub get_with_secrets-Reads : (id : ℕ) (w : World) → Reads id w.db (get_node_with_secrets id w)
unfolding get_node_with_secrets statement answer
get_with_secrets-Reads id w = elim (faults_cases w.faults) [
  | inl e ↦ rw (get_node_with_secrets, e) (refl, row-IsRead id w.db (lookup id w.db.nodes) refl)
  | inr (f, fs, e) ↦ elim (Bool-cases f) [
    | inl b ↦ rw (get_node_with_secrets, e, b) (refl, tt)
    | inr b ↦
        rw (get_node_with_secrets, e, b) (refl, row-IsRead id w.db (lookup id w.db.nodes) refl)
  ]
]

masked-IsRead :
    (id : ℕ) (db : Db) (r : Result (Option NodeRow)) → IsRead id db r → IsRead id db (mask_result r)
masked-IsRead id db (err e) h = tt
masked-IsRead id db (ok none) h = tt
masked-IsRead id db (ok (some m)) h = h

pub get-Reads : (id : ℕ) (w : World) → Reads id w.db (get_node id w)
unfolding get_node
get-Reads id w =
    let r = get_with_secrets-Reads id w in
    (r.0, masked-IsRead id w.db (get_node_with_secrets id w).0 r.1)

-- A row that is not of the nodes file stands under another ID.
pub other_id :
    (j id : ℕ) (n m : NodeRow) (db : Db)
    → IsConfig j n db
    → IsRead id db (ok (some m))
    → (m.source == "config") ≡ false
    → (id == j) ≡ false
other_id j id n m db h (x, found, same, own) api = elim (Bool-cases (id == j)) [
  | inr d ↦ d
  | inl d ↦
      let both : some x ≡ some n =
        sym found ∙ ap (λ k. lookup k db.nodes) ((eq_key id j).0 d) ∙ h.0 in
      let row : x ≡ n = cc both in
      absurd
        (false≢true (sym api ∙ ap (λ t. t == "config") (sym same ∙ ap (λ r. r.source) row) ∙ h.1))
]

-- Whatever a validated row is, it has the ID of the row.
abbrev pub HasId : ℕ → Option NodeRow → Type 0
HasId id none = Unit
HasId id (some v) = v.id ≡ id

normalized-HasId :
    (lib : TextLibrary) (n : NodeRow) (url backend : Option String)
    → HasId n.id (normalized lib n url backend)
normalized-HasId lib n none backend = tt
normalized-HasId lib n (some url) none = tt
normalized-HasId lib n (some url) (some backend) = elim (Bool-cases (accepted_fields lib n)) [
  | inl e ↦ rw (normalized, e) refl
  | inr e ↦ rw (normalized, e) tt
]

pub validate_node-HasId : (lib : TextLibrary) (n : NodeRow) → HasId n.id (validate_node lib n)
unfolding validate_node
validate_node-HasId lib n = elim (Bool-cases (is_empty (lib.trim_space n.name))) [
  | inl e ↦ rw (validate_node, e) tt
  | inr e ↦
      rw (validate_node, e)
        (normalized-HasId lib n (canonicalize_base_url lib n.base_url) (backend_of n.backend_type))
]

update_valid-IsOwned :
    (b : Bool) (j id : ℕ) (n : NodeRow) (o : Option NodeRow) (w : World)
    → HasId id o
    → (id == j) ≡ false
    → IsOwned b j n w.db
    → IsOwned b j n (update_valid o w).1.db
update_valid-IsOwned b j id n none w i d h = h
update_valid-IsOwned b j id n (some v) w i d h =
    statement-keeps (IsOwned b j n) (write_node v) w h
      (write_node-IsOwned b j n v w.db (ap (λ k. k == j) i ∙ d) h)

pub update_node-IsOwned :
    (b : Bool) (lib : TextLibrary) (j : ℕ) (n m : NodeRow) (w : World)
    → (m.id == j) ≡ false
    → IsOwned b j n w.db
    → IsOwned b j n (update_node lib m w).1.db
unfolding update_node
update_node-IsOwned b lib j n m w d h =
    update_valid-IsOwned b j m.id n (validate_node lib m) w (validate_node-HasId lib m) d h

create_valid-IsOwned :
    (b : Bool) (j : ℕ) (n : NodeRow) (o : Option NodeRow) (w : World)
    → IsOwned b j n w.db
    → IsOwned b j n (create_valid o w).1.db
create_valid-IsOwned b j n none w h = h
create_valid-IsOwned b j n (some m) w h = elim (Option-cases (source_of m.source)) [
  | inl e ↦ rw (create_valid, e) h
  | inr (s, e) ↦
      rw (create_valid, e)
        (statement-keeps (IsOwned b j n) (insert_node (record m { source = s })) w h
          (insert_node-IsOwned b j n (record m { source = s }) w.db h))
]

pub create_node-IsOwned :
    (b : Bool) (lib : TextLibrary) (j : ℕ) (n m : NodeRow) (w : World)
    → IsOwned b j n w.db
    → IsOwned b j n (create_node lib m w).1.db
unfolding create_node
create_node-IsOwned b lib j n m w h = create_valid-IsOwned b j n (validate_node lib m) w h

pub disable_node-IsOwned :
    (b : Bool) (j id : ℕ) (n : NodeRow) (w : World)
    → (id == j) ≡ false
    → IsOwned b j n w.db
    → IsOwned b j n (disable_node id w).1.db
unfolding disable_node
disable_node-IsOwned b j id n w d h =
    statement-keeps (IsOwned b j n) (switch_off id) w h (switch_off-IsOwned b j id n w.db d h)

pub list-IsOwned :
    (b : Bool) (j : ℕ) (n : NodeRow) (w : World)
    → IsOwned b j n w.db
    → IsOwned b j n (list_nodes_with_secrets w).1.db
unfolding list_nodes_with_secrets
list-IsOwned b j n w h =
    statement-keeps (IsOwned b j n) (λ db. (ok (sort_by row_id (rows_of db.nodes)), db)) w h h
