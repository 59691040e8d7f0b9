-- ===== src/Admin/Nodes/Deletion.antt =====
-- internal/admin/nodes.go: what a deletion has done when it is answered.
use local_ai_proxy.Prelude.{
  ℕ, ◌≡◌, refl, sym, ap, subst, ◌∙◌, Bool, true, false, Option, none, some, String, List, [], ◌∷◌,
  if◌then◌else◌, ◌==◌, eq_key, eq_self, ℕ_key, String_key, inl, inr, All, Bool-cases, Option-cases,
  false≢true,
}
use mathlib.Core.Option.{some-ne-none}
use local_ai_proxy.Prelude.Dict.{Dict, lookup, insert, IsUnique, lookup-insert, insert-IsUnique}
use local_ai_proxy.Store.Nodes.{NodeRow}
use local_ai_proxy.Store.NodeChecks.{TextLibrary}
use local_ai_proxy.Store.NodeTable.{
  row_id, rows_of, switch_off, disable_node, get_node, get_node_with_secrets,
  list_nodes_with_secrets,
}
use local_ai_proxy.Store.Sql.{ok, Db, World, statement, answer}
use local_ai_proxy.Registry.{sort_by}
use local_ai_proxy.Registry.Publish.{All-sort_by}
use local_ai_proxy.Poller.{NodeSpec, Poller, Outcome, specs_of, specs_in, load}
use local_ai_proxy.Poller.Schedule.{refresh_node}
use local_ai_proxy.Poller.Refresh.{first_spec, IsFresh, refresh_node-IsRefreshed}
use local_ai_proxy.Admin.Nodes.{
  Gateway, NodeAnswer, no_content, refused, run_node_refresh, removed, disabled,
  delete_node_handler,
}

-- A row that is not an enabled one of the ID.
abbrev IsOff : ℕ → NodeRow → Type 0
IsOff id r = (if r.id == id then r.enabled else false) ≡ false

elsewhere-IsOff :
    (id : ℕ) (rows : Dict ℕ NodeRow) → lookup id rows ≡ none → All (IsOff id) (rows_of rows)
unfolding lookup
elsewhere-IsOff id [] h = tt
elsewhere-IsOff id ((j, n) ∷ rows) h = elim (Bool-cases (j == id)) [
  | inl e ↦ absurd (some-ne-none _ (rw e at h))
  | inr e ↦ (rw e refl, elsewhere-IsOff id rows (rw e at h))
]

rows_of-All :
    (id : ℕ) (rows : Dict ℕ NodeRow) (n : NodeRow)
    → IsUnique rows
    → lookup id rows ≡ some n
    → n.enabled ≡ false
    → All (IsOff id) (rows_of rows)
unfolding lookup
rows_of-All id [] n u h off = tt
rows_of-All id ((j, m) ∷ rows) n u h off = elim (Bool-cases (j == id)) [
  | inl e ↦
      let found : some m ≡ some n = rw e at h in
      let same : m ≡ n = cc found in
      (
        rw e (ap (λ x. x.enabled) same ∙ off),
        elsewhere-IsOff id rows (subst (λ k. lookup k rows ≡ none) ((eq_key j id).0 e) u.0),
      )
  | inr e ↦ (rw e refl, rows_of-All id rows n u.1 (rw e at h) off)
]

first_spec-off :
    (parse_url : String → Option String) (id : ℕ) (rows : List NodeRow)
    → All (IsOff id) rows
    → first_spec id (specs_in (specs_of parse_url rows)) ≡ none
unfolding specs_of
first_spec-off parse_url id [] h = refl
first_spec-off parse_url id (r ∷ rows) h = elim (Bool-cases r.enabled) [
  | inr e ↦ rw (specs_of, e) (first_spec-off parse_url id rows h.1)
  | inl e ↦ elim (Option-cases (parse_url r.base_url)) [
    | inl f ↦ rw (specs_of, e, f) (first_spec-off parse_url id rows h.1)
    | inr (url, f) ↦ elim (Bool-cases (r.id == id)) [
      | inl d ↦ let off = h.0 in absurd (false≢true (sym (rw (d, e) at off)))
      | inr d ↦ rw (specs_of, e, f, d) (first_spec-off parse_url id rows h.1)
    ]
  ]
]

-- The rows that the reload lists hold no enabled one of a node that is switched off.
listed_off :
    (parse_url : String → Option String) (id : ℕ) (rows : Dict ℕ NodeRow) (n : NodeRow)
    → IsUnique rows
    → lookup id rows ≡ some n
    → n.enabled ≡ false
    → first_spec id (specs_in (specs_of parse_url (sort_by row_id (rows_of rows)))) ≡ none
listed_off parse_url id rows n u h off =
    first_spec-off parse_url id (sort_by row_id (rows_of rows))
      (All-sort_by row_id (IsOff id) (rows_of rows) (rows_of-All id rows n u h off))

abbrev quiet : Db → ℕ → World
quiet db now = record { db = db; now = now; faults = [] }

abbrev switched_off : ℕ → NodeRow → Db → Db
switched_off id n db = record db { nodes = insert id (record n { enabled = false }) db.nodes }

-- The row is kept, switched off, and the registry does not know the node any more; a node of the
-- nodes file stays as it is.
abbrev pub IsDisabled : ℕ → Db → NodeRow → Bool → NodeAnswer × Gateway → Type 0
IsDisabled id db n true r = (r.0 ≡ refused 409) × (r.1.world.db ≡ db)
IsDisabled id db n false r =
    (r.0 ≡ no_content)
    × (r.1.world.db ≡ record db { nodes = insert id (record n { enabled = false }) db.nodes })
    × (lookup id r.1.poller.reg.entries ≡ none)

abbrev pub IsDeleted : ℕ → Db → Option NodeRow → NodeAnswer × Gateway → Type 0
IsDeleted id db none r = (r.0 ≡ refused 404) × (r.1.world.db ≡ db)
IsDeleted id db (some n) r = IsDisabled id db n (n.source == "config") r

module _ (lib : TextLibrary) (parse_url : String → Option String) (probe : NodeSpec → Outcome)
    (now : ℕ) where
  refresh-off :
      (id : ℕ) (db : Db) (t : ℕ) (p : Poller) (n : NodeRow)
      → IsUnique db.nodes
      → lookup id db.nodes ≡ some n
      → n.enabled ≡ false
      → (g : Gateway) × (run_node_refresh lib parse_url probe now id
            (record { world = quiet db t; poller = p })
          ≡ (ok tt, g))
        × (g.world.db ≡ db)
        × (lookup id g.poller.reg.entries ≡ none)
  unfolding run_node_refresh list_nodes_with_secrets statement answer refresh_node load
  refresh-off id db t p n u h off =
      let done =
        refresh_node-IsRefreshed parse_url (ok (sort_by row_id (rows_of db.nodes))) probe now id
          p in
      (
        (run_node_refresh lib parse_url probe now id (record { world = quiet db t; poller = p })).1,
        refl,
        refl,
        subst
            (λ o. IsFresh o probe (
              lookup id
                (refresh_node parse_url (ok (sort_by row_id (rows_of db.nodes))) probe now id
                  p).1.reg.entries))
            (listed_off parse_url id db.nodes n u h off) done.1,
      )

  disable-quiet :
      (id : ℕ) (db : Db) (t : ℕ) (n : NodeRow)
      → lookup id db.nodes ≡ some n
      → disable_node id (quiet db t) ≡ (ok tt, quiet (switched_off id n db) t)
  unfolding disable_node switch_off statement answer lookup insert
  disable-quiet id db t n e = rw (disable_node, e) refl

  delete-step :
      (id : ℕ) (db : Db) (t : ℕ) (p : Poller) (n : NodeRow)
      → lookup id db.nodes ≡ some n
      → (n.source == "config") ≡ false
      → delete_node_handler lib parse_url probe now id (record { world = quiet db t; poller = p })
        ≡ removed lib parse_url probe now (
            run_node_refresh lib parse_url probe now id
              (record { world = quiet (switched_off id n db) t; poller = p }))
  unfolding delete_node_handler get_node get_node_with_secrets statement answer
  delete-step id db t p n e c =
      rw (delete_node_handler, e, c)
        (ap (disabled lib parse_url probe now id (record { world = quiet db t; poller = p }))
          (disable-quiet id db t n e))

  delete-unknown :
      (id : ℕ) (db : Db) (t : ℕ) (p : Poller)
      → lookup id db.nodes ≡ none
      → delete_node_handler lib parse_url probe now id (record { world = quiet db t; poller = p })
        ≡ (refused 404, record { world = quiet db t; poller = p })
  unfolding delete_node_handler get_node get_node_with_secrets statement answer
  delete-unknown id db t p e = rw (delete_node_handler, e) refl

  delete-config :
      (id : ℕ) (db : Db) (t : ℕ) (p : Poller) (n : NodeRow)
      → lookup id db.nodes ≡ some n
      → (n.source == "config") ≡ true
      → delete_node_handler lib parse_url probe now id (record { world = quiet db t; poller = p })
        ≡ (refused 409, record { world = quiet db t; poller = p })
  unfolding delete_node_handler get_node get_node_with_secrets statement answer
  delete-config id db t p n e c = rw (delete_node_handler, e, c) refl

  -- With a database that answers, a deletion of an unknown node is refused with 404 and one of a
  -- node of the nodes file with 409, and neither changes a table; any other node is kept, switched
  -- off, and before the answer 204 the registry has forgotten it.
  pub delete_node_handler-IsDeleted :
      (id : ℕ) (db : Db) (t : ℕ) (p : Poller)
      → IsUnique db.nodes
      → IsDeleted id db (lookup id db.nodes) (
          delete_node_handler lib parse_url probe now id
            (record { world = quiet db t; poller = p }))
  delete_node_handler-IsDeleted id db t p u = elim (Option-cases (lookup id db.nodes)) [
    | inl e ↦ rw (e, delete-unknown id db t p e) (refl, refl)
    | inr (n, e) ↦ elim (Bool-cases (n.source == "config")) [
      | inl c ↦ rw (e, delete-config id db t p n e c, IsDeleted, c) (refl, refl)
      | inr c ↦
          let off = switched_off id n db in
          let done =
            refresh-off id off t p (record n { enabled = false })
              (insert-IsUnique id (record n { enabled = false }) db.nodes u)
              (rw (lookup-insert, eq_self id) refl) refl in
          rw (e, delete-step id db t p n e c, IsDeleted, c, done.1) (refl, done.2, done.3)
    ]
  ]
