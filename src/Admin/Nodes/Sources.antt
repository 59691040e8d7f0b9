-- ===== src/Admin/Nodes/Sources.antt =====
-- internal/admin/nodes.go: the nodes of the nodes file are read-only for the handlers.
use local_ai_proxy.Prelude.{
  true, ℕ, ◌≡◌, sym, subst, ap, ◌∙◌, false, Option, none, some, String, ◌==◌, ℕ_key, String_key,
  inl, inr, Bool-cases,
}
use local_ai_proxy.Store.Nodes.{NodeRow}
use local_ai_proxy.Store.NodeChecks.{TextLibrary, validate_node}
use local_ai_proxy.Store.NodeTable.{
  create_node, update_node, disable_node, get_node, get_node_with_secrets,
}
use local_ai_proxy.Store.ReadOnly.{
  IsConfig, IsRead, HasId, validate_node-HasId, get_with_secrets-Reads, get-Reads, other_id,
  create_node-IsOwned, update_node-IsOwned, disable_node-IsOwned, list-IsOwned,
}
use local_ai_proxy.Store.Sql.{Result, ok, err, World}
use local_ai_proxy.Poller.{NodeSpec, Outcome}
use local_ai_proxy.Admin.Nodes.{
  Gateway, NodeAnswer, CreateRequest, UpdateRequest, new_row, patch_row, run_node_refresh,
  refresh_and_show, created, create_checked, create_node_handler, updated, update_checked,
  update_loaded, update_node_handler, removed, disabled, delete_loaded, delete_node_handler,
  refreshed_node, refresh_loaded_node, refresh_node_handler, write_node_response,
}

-- The requests that may write.
pub data Request : Type 0 where
  creates : Option CreateRequest → Request
  updates : ℕ → Option UpdateRequest → Request
  deletes : ℕ → Request
  refreshes : ℕ → Request

module _ (lib : TextLibrary) (parse_url : String → Option String) (probe : NodeSpec → Outcome)
    (now : ℕ) where
  unfoldable pub handle : Request → Gateway → NodeAnswer × Gateway
  handle (creates body) g = create_node_handler lib parse_url probe now body g
  handle (updates id body) g = update_node_handler lib parse_url probe now id body g
  handle (deletes id) g = delete_node_handler lib parse_url probe now id g
  handle (refreshes id) g = refresh_node_handler lib parse_url probe now id g

  module _ (j : ℕ) (n : NodeRow) where
    Keeps : Gateway → Type 0
    Keeps g = IsConfig j n g.world.db

    refresh-Keeps :
        (id : ℕ) (g : Gateway) → Keeps g → Keeps (run_node_refresh lib parse_url probe now id g).1
    unfolding run_node_refresh Keeps
    refresh-Keeps id g h = list-IsOwned true j n g.world h

    show-Keeps : (id status : ℕ) (g : Gateway) → Keeps g → Keeps (write_node_response id status g).1
    unfolding Keeps
    show-Keeps id status g h = subst (IsConfig j n) (sym (get-Reads id g.world).0) h

    show_fresh-Keeps :
        (id status : ℕ) (g : Gateway)
        → Keeps g
        → Keeps (refresh_and_show lib parse_url probe now id status g).1
    show_fresh-Keeps id status g h =
        show-Keeps id status (run_node_refresh lib parse_url probe now id g).1
          (refresh-Keeps id g h)

    created-Keeps :
        (g : Gateway) (r : Result ℕ × World)
        → IsConfig j n r.1.db
        → Keeps (created lib parse_url probe now g r).1
    unfolding Keeps
    created-Keeps g (ok id, w) h = show_fresh-Keeps id 201 (record g { world = w }) h
    created-Keeps g (err e, w) h = h

    updated-Keeps :
        (id : ℕ) (g : Gateway) (r : Result {0} Unit × World)
        → IsConfig j n r.1.db
        → Keeps (updated lib parse_url probe now id g r).1
    unfolding Keeps
    updated-Keeps id g (ok t, w) h = show_fresh-Keeps id 200 (record g { world = w }) h
    updated-Keeps id g (err e, w) h = h

    removed-Keeps :
        (r : Result {0} Unit × Gateway) → Keeps r.1 → Keeps (removed lib parse_url probe now r).1
    removed-Keeps (ok t, g) h = h
    removed-Keeps (err e, g) h = h

    disabled-Keeps :
        (id : ℕ) (g : Gateway) (r : Result {0} Unit × World)
        → IsConfig j n r.1.db
        → Keeps (disabled lib parse_url probe now id g r).1
    unfolding Keeps
    disabled-Keeps id g (ok t, w) h =
        removed-Keeps (run_node_refresh lib parse_url probe now id (record g { world = w }))
          (refresh-Keeps id (record g { world = w }) h)
    disabled-Keeps id g (err e, w) h = h

    create-Keeps :
        (g : Gateway) (o : Option NodeRow)
        → Keeps g
        → Keeps (create_checked lib parse_url probe now g o).1
    unfolding Keeps
    create-Keeps g none h = h
    create-Keeps g (some m) h =
        created-Keeps g (create_node lib m g.world) (create_node-IsOwned true lib j n m g.world h)

    update-Keeps :
        (id : ℕ) (g : Gateway) (o : Option NodeRow)
        → HasId id o
        → (id == j) ≡ false
        → Keeps g
        → Keeps (update_checked lib parse_url probe now id g o).1
    unfolding Keeps
    update-Keeps id g none i d h = h
    update-Keeps id g (some v) i d h =
        updated-Keeps id g (update_node lib v g.world)
          (update_node-IsOwned true lib j n v g.world (ap (λ k. k == j) i ∙ d) h)

    body-Keeps :
        (id : ℕ) (body : Option UpdateRequest) (g : Gateway) (m : NodeRow)
        → IsRead id g.world.db (ok (some m))
        → (m.source == "config") ≡ false
        → Keeps g
        → Keeps (update_loaded lib parse_url probe now id body g (ok (some m))).1
    unfolding Keeps
    body-Keeps id none g m r e h = rw (update_loaded, e) h
    body-Keeps id (some b) g m r e h =
        rw (update_loaded, e)
          (update-Keeps id g (validate_node lib (patch_row b m))
            (subst (λ k. HasId k (validate_node lib (patch_row b m))) r.3
              (validate_node-HasId lib (patch_row b m)))
            (other_id j id n m g.world.db h r e) h)

    update_loaded-Keeps :
        (id : ℕ) (body : Option UpdateRequest) (g : Gateway) (r : Result (Option NodeRow))
        → IsRead id g.world.db r
        → Keeps g
        → Keeps (update_loaded lib parse_url probe now id body g r).1
    unfolding Keeps
    update_loaded-Keeps id body g (err e) r h = h
    update_loaded-Keeps id body g (ok none) r h = h
    update_loaded-Keeps id body g (ok (some m)) r h = elim (Bool-cases (m.source == "config")) [
      | inl e ↦ rw (update_loaded, e) h
      | inr e ↦ body-Keeps id body g m r e h
    ]

    delete_loaded-Keeps :
        (id : ℕ) (g : Gateway) (r : Result (Option NodeRow))
        → IsRead id g.world.db r
        → Keeps g
        → Keeps (delete_loaded lib parse_url probe now id g r).1
    unfolding Keeps
    delete_loaded-Keeps id g (err e) r h = h
    delete_loaded-Keeps id g (ok none) r h = h
    delete_loaded-Keeps id g (ok (some m)) r h = elim (Bool-cases (m.source == "config")) [
      | inl e ↦ rw (delete_loaded, e) h
      | inr e ↦
          rw (delete_loaded, e)
            (disabled-Keeps id g (disable_node id g.world)
              (disable_node-IsOwned true j id n g.world (other_id j id n m g.world.db h r e) h))
    ]

    refreshed-Keeps :
        (id : ℕ) (r : Result {0} Unit × Gateway)
        → Keeps r.1
        → Keeps (refreshed_node lib parse_url probe now id r).1
    refreshed-Keeps id (ok t, g) h = show-Keeps id 200 g h
    refreshed-Keeps id (err e, g) h = h

    refresh_loaded-Keeps :
        (id : ℕ) (g : Gateway) (r : Result (Option NodeRow))
        → Keeps g
        → Keeps (refresh_loaded_node lib parse_url probe now id g r).1
    refresh_loaded-Keeps id g (err e) h = h
    refresh_loaded-Keeps id g (ok none) h = h
    refresh_loaded-Keeps id g (ok (some m)) h =
        refreshed-Keeps id (run_node_refresh lib parse_url probe now id g) (refresh-Keeps id g h)

  -- No request of the admin API changes the row of a node of the nodes file, whichever calls of the
  -- database fail, as long as the sequence of the IDs has passed the node's.
  pub handle-IsConfig :
      (request : Request) (j : ℕ) (n : NodeRow) (g : Gateway)
      → IsConfig j n g.world.db
      → IsConfig j n (handle request g).1.world.db
  unfolding handle create_node_handler update_node_handler delete_node_handler refresh_node_handler
      Keeps
  handle-IsConfig (creates none) j n g h = h
  handle-IsConfig (creates (some r)) j n g h = create-Keeps j n g (validate_node lib (new_row r)) h
  handle-IsConfig (updates id body) j n g h =
      let r = get_with_secrets-Reads id g.world in
      update_loaded-Keeps j n id body (record g { world = (get_node_with_secrets id g.world).1 })
        (get_node_with_secrets id g.world).0
        (subst (λ db. IsRead id db (get_node_with_secrets id g.world).0) (sym r.0) r.1)
        (subst (IsConfig j n) (sym r.0) h)
  handle-IsConfig (deletes id) j n g h =
      let r = get-Reads id g.world in
      delete_loaded-Keeps j n id (record g { world = (get_node id g.world).1 })
        (get_node id g.world).0 (subst (λ db. IsRead id db (get_node id g.world).0) (sym r.0) r.1)
        (subst (IsConfig j n) (sym r.0) h)
  handle-IsConfig (refreshes id) j n g h =
      refresh_loaded-Keeps j n id (record g { world = (get_node id g.world).1 })
        (get_node id g.world).0 (subst (IsConfig j n) (sym (get-Reads id g.world).0) h)
