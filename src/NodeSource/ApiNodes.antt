-- ===== src/NodeSource/ApiNodes.antt =====
-- internal/nodesource/nodesource.go: the merge leaves the nodes of the API alone.
use local_ai_proxy.Prelude.{
  ℕ, ◌≡◌, refl, ap, subst, ◌∙◌, Bool, false, ◌&&◌, ◌||◌, not, Option, none, some, String, List, [],
  ◌∷◌, arith, if◌then◌else◌, ◌==◌, eq_key, ℕ_key, String_key, All, inl, inr, Bool-cases,
  Option-cases,
}
use local_ai_proxy.Prelude.Dict.{Dict, lookup, IsUnique}
use local_ai_proxy.Store.Nodes.{NodeRow}
use local_ai_proxy.Store.NodeChecks.{TextLibrary}
use local_ai_proxy.Store.NodeTable.{
  row_id, rows_of, create_node, disable_node, list_nodes_with_secrets,
}
use local_ai_proxy.Store.Statements.{continue-keeps, statement-answers, statement-keeps}
use local_ai_proxy.Store.ReadOnly.{
  IsOwned, create_node-IsOwned, update_node-IsOwned, disable_node-IsOwned,
}
use local_ai_proxy.Store.Sql.{
  name_exists, Result, ok, err, Db, World, continue, ◌>>=◌, pure, require, statement,
}
use local_ai_proxy.Registry.{sort_by}
use local_ai_proxy.Registry.Publish.{All-sort_by}
use local_ai_proxy.NodeSource.Merge.{
  Sources, load_declared, has_name, by_name, is_api, collides, apply_one, apply_declared,
  missing_is_fine, disable_one, disable_undeclared, merge, merge_loaded, sync_declared_nodes,
}

-- A listed row that is not the node j, if it is one of the nodes file.
abbrev IsElsewhere : ℕ → NodeRow → Type 0
IsElsewhere j ex = (if ex.source == "config" then ex.id == j else false) ≡ false

absent-IsElsewhere :
    (j : ℕ) (rows : Dict ℕ NodeRow) → lookup j rows ≡ none → All (IsElsewhere j) (rows_of rows)
unfolding lookup
absent-IsElsewhere j [] h = tt
absent-IsElsewhere j ((k, m) ∷ rows) h = elim (Bool-cases (k == j)) [
  | inl e ↦ absurd (let a = h in cc (rw e at a))
  | inr e ↦ (rw e (ground arith), absent-IsElsewhere j rows (rw e at h))
]

rows_of-IsElsewhere :
    (j : ℕ) (n : NodeRow) (rows : Dict ℕ NodeRow)
    → IsUnique rows
    → lookup j rows ≡ some n
    → (n.source == "config") ≡ false
    → All (IsElsewhere j) (rows_of rows)
unfolding lookup
rows_of-IsElsewhere j n [] u h api = tt
rows_of-IsElsewhere j n ((k, m) ∷ rows) u h api = elim (Bool-cases (k == j)) [
  | inl e ↦
      let found : some m ≡ some n = rw e at h in
      let same : m ≡ n = cc found in
      (
        rw (ap (λ r. r.source == "config") same ∙ api) refl,
        absent-IsElsewhere j rows (subst (λ i. lookup i rows ≡ none) ((eq_key k j).0 e) u.0),
      )
  | inr e ↦ (rw e (ground arith), rows_of-IsElsewhere j n rows u.1 (rw e at h) api)
]

abbrev OptionElsewhere : ℕ → Option NodeRow → Type 0
OptionElsewhere j none = Unit
OptionElsewhere j (some ex) = IsElsewhere j ex

by_name-IsElsewhere :
    (j : ℕ) (name : String) (existing : List NodeRow)
    → All (IsElsewhere j) existing
    → OptionElsewhere j (by_name name existing)
by_name-IsElsewhere j name [] h = tt
by_name-IsElsewhere j name (n ∷ rows) h = elim (Option-cases (by_name name rows)) [
  | inr (m, e) ↦ rw e (subst (OptionElsewhere j) e (by_name-IsElsewhere j name rows h.1))
  | inl e ↦ rw e (elim (Bool-cases (n.name == name)) [ inl d ↦ rw d h.0 | inr d ↦ rw d tt ])
]

module _ (lib : TextLibrary) (j : ℕ) (n : NodeRow) where
  Keeps : World → Type 0
  Keeps w = IsOwned false j n w.db

  apply_one-Keeps :
      (d : NodeRow) (o : Option NodeRow) (w : World)
      → OptionElsewhere j o
      → is_api o ≡ false
      → Keeps w
      → Keeps (apply_one lib d o w).1
  unfolding Keeps ◌>>=◌ pure
  apply_one-Keeps d none w e a h =
      continue-keeps (IsOwned false j n) (λ x. pure tt) (create_node lib d w)
        (create_node-IsOwned false lib j n d w h) (λ x v k. k)
  apply_one-Keeps d (some ex) w e a h =
      update_node-IsOwned false lib j n (record d { id = ex.id }) w (ground (arith, e, a)) h

  apply_declared-Keeps :
      (existing declared : List NodeRow) (w : World)
      → All (IsElsewhere j) existing
      → collides existing declared ≡ false
      → Keeps w
      → Keeps (apply_declared lib existing declared w).1
  unfolding Keeps apply_declared ◌>>=◌ pure
  apply_declared-Keeps existing [] w e c h = h
  apply_declared-Keeps existing (d ∷ declared) w e c h =
      let split = or_false (is_api (by_name d.name existing)) (collides existing declared) c in
      continue-keeps (IsOwned false j n) (λ x. apply_declared lib existing declared)
        (apply_one lib d (by_name d.name existing) w)
        (apply_one-Keeps d (by_name d.name existing) w (by_name-IsElsewhere j d.name existing e)
          split.0 h)
        (λ x v k. apply_declared-Keeps existing declared v e split.1 k)
    where
      or_false : (a b : Bool) → (a || b) ≡ false → (a ≡ false) × (b ≡ false)
      or_false a b h = ground arith

  fine-Keeps : (r : Result {0} Unit × World) → Keeps r.1 → Keeps (missing_is_fine r).1
  fine-Keeps (ok t, w) h = h
  fine-Keeps (err e, w) h = h

  disable_one-Keeps :
      (declared : List NodeRow) (ex : NodeRow) (w : World)
      → IsElsewhere j ex
      → Keeps w
      → Keeps (disable_one declared ex w).1
  unfolding Keeps
  disable_one-Keeps declared ex w e h =
      elim (Bool-cases (ex.source == "config" && ex.enabled && not (has_name ex.name declared))) [
        | inr c ↦ rw (disable_one, c) h
        | inl c ↦
            rw (disable_one, c)
              (fine-Keeps (disable_node ex.id w)
                (disable_node-IsOwned false j ex.id n w (ground (arith, e, c)) h))
      ]

  disable_undeclared-Keeps :
      (declared existing : List NodeRow) (w : World)
      → All (IsElsewhere j) existing
      → Keeps w
      → Keeps (disable_undeclared declared existing w).1
  unfolding Keeps disable_undeclared ◌>>=◌ pure
  disable_undeclared-Keeps declared [] w e h = h
  disable_undeclared-Keeps declared (ex ∷ existing) w e h =
      continue-keeps (IsOwned false j n) (λ x. disable_undeclared declared existing)
        (disable_one declared ex w) (disable_one-Keeps declared ex w e.0 h)
        (λ x v k. disable_undeclared-Keeps declared existing v e.1 k)

  -- The merge with the rows that were listed.
  writes-Keeps :
      (declared existing : List NodeRow) (w : World)
      → All (IsElsewhere j) existing
      → Keeps w
      → Keeps
          ((require (not (collides existing declared)) name_exists >>= λ x.
              apply_declared lib existing declared >>= λ y. disable_undeclared declared existing)
            w).1
  unfolding Keeps ◌>>=◌ require
  writes-Keeps declared existing w e h = elim (Bool-cases (collides existing declared)) [
    | inl c ↦ rw c h
    | inr c ↦ rw c (
        continue-keeps (IsOwned false j n) (λ y. disable_undeclared declared existing)
          (apply_declared lib existing declared w) (apply_declared-Keeps existing declared w e c h)
          (λ x v k. disable_undeclared-Keeps declared existing v e k))
  ]

  listed-Keeps :
      (declared : List NodeRow) (w : World) (r : Result (List NodeRow) × World)
      → Keeps r.1
      → ((existing : List NodeRow) → r.0 ≡ ok existing → All (IsElsewhere j) existing)
      → Keeps
          (continue
            (λ existing. require (not (collides existing declared)) name_exists >>= λ x.
              apply_declared lib existing declared >>= λ y. disable_undeclared declared existing)
            r).1
  listed-Keeps declared w (err e, v) h k = h
  listed-Keeps declared w (ok existing, v) h k =
      writes-Keeps declared existing v (k existing refl) h

  merge-Keeps :
      (declared : List NodeRow) (w : World)
      → IsUnique w.db.nodes
      → Keeps w
      → Keeps (merge lib declared w).1
  unfolding merge list_nodes_with_secrets ◌>>=◌ Keeps
  merge-Keeps declared w u h =
      let q : Db → Result (List NodeRow) × Db =
        λ db. (ok (sort_by row_id (rows_of db.nodes)), db) in
      listed-Keeps declared w (statement q w) (statement-keeps (IsOwned false j n) q w h h)
        (λ existing e.
          let answered = statement-answers q w existing e in
          let same : sort_by row_id (rows_of w.db.nodes) ≡ existing = cc (answered.0) in
          subst (All (IsElsewhere j)) same (
            All-sort_by row_id (IsElsewhere j) (rows_of w.db.nodes)
              (rows_of-IsElsewhere j n w.db.nodes u h.0 h.1)))

-- A start changes no row of a node that the API has registered, whatever the sources declare and
-- whichever calls of the database fail, as long as the sequence of the IDs has passed the node's.
pub sync_declared_nodes-IsOwned :
    (lib : TextLibrary) (env : String → Option String) (s : Sources) (w : World) (j : ℕ)
    (n : NodeRow)
    → IsUnique w.db.nodes
    → IsOwned false j n w.db
    → IsOwned false j n (sync_declared_nodes lib env s w).1.db
unfolding sync_declared_nodes Keeps
sync_declared_nodes-IsOwned lib env s w j n u h = loaded (load_declared lib env s)
  where
    loaded : (o : Option (List NodeRow)) → IsOwned false j n (merge_loaded lib o w).1.db
    loaded none = h
    loaded (some declared) = merge-Keeps lib j n declared w u h
