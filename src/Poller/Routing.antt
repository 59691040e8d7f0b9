-- ===== src/Poller/Routing.antt =====
-- internal/poller/poller.go with internal/registry/registry.go: where requests go while nodes are
-- loaded and probed.
use local_ai_proxy.Prelude.{
  ℕ, ◌≤◌, ◌≡◌, refl, sym, ap, ◌∙◌, subst, Bool, Option, none, some, String, List, [], ◌∷◌,
  if◌then◌else◌, ◌==◌, ℕ_key, String_key, count_if, inl, inr, Bool-cases, Option-cases,
}
use local_ai_proxy.Prelude.Dict.{lookup}
use local_ai_proxy.Store.Sql.{Result, ok, err}
use local_ai_proxy.Store.Nodes.{NodeRow}
use local_ai_proxy.Registry.{
  is_healthy, Node, Entry, Registry, Answer, routed, model_unavailable, index_panic, pick, resolve,
  set_nodes,
}
use local_ai_proxy.Registry.Publish.{listings}
use local_ai_proxy.Registry.Routing.{
  IsSound, IsRight, resolve_sound, set_nodes-IsSound, set_node_probe-IsSound, pick-IsSound,
  new-IsSound,
}
use local_ai_proxy.Poller.{
  NodeSpec, identity, same_texts, blank_probe, NodeRuntime, Poller, new_poller, visit, visit_all,
  reconcile, specs_of, specs_in, nodes_in, adopt, load, Outcome, advance, published, apply,
}
use local_ai_proxy.Poller.Pairs.{specs_of-IsPair}
use local_ai_proxy.Poller.Visits.{url_of, Agrees}
use local_ai_proxy.Poller.Agreement.{adopt-Agrees, apply-Agrees}

-- The reloads of the loop and of RefreshNode, the outcomes of probes, as late as they come, and the
-- proxy's choices among the candidates of a snapshot that it has read before.
pub data Event : Type 0 where
  loads : Result (List NodeRow) → Event
  applies : ℕ → Outcome → Bool → ℕ → Event
  chooses : String → List Node → Event

module _ (parse_url : String → Option String) where
  unfoldable pub step : Event → Poller → Poller
  step (loads rows) p = (load parse_url rows p).1
  step (applies id o sweep now) p = apply id o sweep now p
  step (chooses model ns) p = record p { reg = (pick model ns p.reg).1 }

  -- The latest event stands first.
  unfoldable pub after : List Event → Poller
  after [] = new_poller
  after (e ∷ es) = step e (after es)

pick-lookup :
    (model : String) (ns : List Node) (r : Registry) (id : ℕ)
    → lookup id (pick model ns r).1.entries ≡ lookup id r.entries
unfolding pick
pick-lookup model [] r id = refl
pick-lookup model (n ∷ []) r id = refl
pick-lookup model (n ∷ m ∷ ns) r id = refl

step-Agrees :
    (parse_url : String → Option String) (e : Event) (p : Poller) (id : ℕ)
    → Agrees (lookup id p.state) (lookup id p.reg.entries)
    → Agrees (lookup id (step parse_url e p).state) (lookup id (step parse_url e p).reg.entries)
unfolding step load
step-Agrees parse_url (loads (err e)) p id h = h
step-Agrees parse_url (loads (ok rows)) p id h =
    adopt-Agrees (specs_of parse_url rows) p id (specs_of-IsPair parse_url rows) h
step-Agrees parse_url (applies j o sweep now) p id h = apply-Agrees j o sweep now p id h
step-Agrees parse_url (chooses model ns) p id h = rw (pick-lookup model ns p.reg id) h

-- After any events, the registry and the poller know the same nodes, and of each the registry
-- publishes the health and the models that the poller has concluded for the node's current URL.
pub after-Agrees :
    (parse_url : String → Option String) (es : List Event) (id : ℕ)
    → Agrees (lookup id (after parse_url es).state) (lookup id (after parse_url es).reg.entries)
unfolding after lookup
after-Agrees parse_url [] id = tt
after-Agrees parse_url (e ∷ es) id =
    step-Agrees parse_url e (after parse_url es) id (after-Agrees parse_url es id)

visit-IsSound :
    (s : NodeSpec) (o : Option NodeRuntime) (p : Poller) → IsSound p.reg → IsSound (visit s o p).reg
unfolding visit
visit-IsSound s none p h = h
visit-IsSound s (some st) p h = elim (Bool-cases (same_texts st.identity (identity s))) [
  | inl e ↦ rw (visit, e) h
  | inr e ↦ rw (visit, e) (set_node_probe-IsSound s.id blank_probe p.reg h)
]

visit_all-IsSound :
    (specs : List NodeSpec) (p : Poller) → IsSound p.reg → IsSound (visit_all specs p).reg
unfolding visit_all
visit_all-IsSound [] p h = h
visit_all-IsSound (s ∷ specs) p h =
    visit_all-IsSound specs (visit s (lookup s.id p.state) p)
      (visit-IsSound s (lookup s.id p.state) p h)

step-IsSound :
    (parse_url : String → Option String) (e : Event) (p : Poller)
    → IsSound p.reg
    → IsSound (step parse_url e p).reg
unfolding step load adopt reconcile apply
step-IsSound parse_url (loads (err e)) p h = h
step-IsSound parse_url (loads (ok rows)) p h =
    let l = specs_of parse_url rows in
    visit_all-IsSound (specs_in l) (record p { reg = set_nodes (nodes_in l) p.reg })
      (set_nodes-IsSound (nodes_in l) p.reg h)
step-IsSound parse_url (applies id o sweep now) p h = elim (Option-cases (lookup id p.state)) [
  | inl e ↦ rw (step, apply, e) h
  | inr (st, e) ↦
      rw (step, apply, e)
        (set_node_probe-IsSound id (published now o (advance sweep now o st)) p.reg h)
]
step-IsSound parse_url (chooses model ns) p h = pick-IsSound model ns p.reg h

after-IsSound :
    (parse_url : String → Option String) (es : List Event) → IsSound (after parse_url es).reg
unfolding after
after-IsSound parse_url [] = new-IsSound
after-IsSound parse_url (e ∷ es) =
    step-IsSound parse_url e (after parse_url es) (after-IsSound parse_url es)

-- How often the models that the poller has of a node name a model, if it takes the node for healthy.
abbrev pub finds : String → Option NodeRuntime → ℕ
finds model none = 0
finds model (some st) =
    if is_healthy st.health
    then elim st.models [ none ↦ 0 | some ms ↦ count_if (λ m. m == model) ms ]
    else 0

-- A routed node is one that the poller takes for healthy, whose models name the model, at the URL
-- that the poller has for it; where none is routed, there is no such node.
abbrev pub IsBacked : String → Poller → Answer → Type 0
IsBacked model p (routed n) =
    (id : ℕ) × (st : NodeRuntime) × (lookup id p.state ≡ some st)
    × (1 ≤ finds model (some st))
    × (n.base_url ≡ url_of st.identity)
IsBacked model p model_unavailable = (id : ℕ) → finds model (lookup id p.state) ≡ 0
IsBacked model p index_panic = ⊥

listings-finds :
    (model : String) (st : NodeRuntime) (e : Entry)
    → Agrees (some st) (some e)
    → listings model e ≡ finds model (some st)
listings-finds model st e h = rw (listings, h.0, h.1) refl

abbrev listings_of : String → Option Entry → ℕ
listings_of model none = 0
listings_of model (some e) = listings model e

IsRight-IsBacked :
    (model : String) (p : Poller) (a : Answer)
    → ((id : ℕ) → Agrees (lookup id p.state) (lookup id p.reg.entries))
    → IsRight model p.reg.entries a
    → IsBacked model p a
IsRight-IsBacked model p (routed n) h (id, e, l, same, c) =
    elim (Option-cases (lookup id p.state)) [
      | inl none_known ↦ (let a = h id in absurd (rw (none_known, l) at a))
      | inr (st, known) ↦
          let a = h id in
          let agree : Agrees (some st) (some e) = rw (known, l) at a in
          (
            id,
            st,
            known,
            subst (λ k. 1 ≤ k) (listings-finds model st e agree) c,
            ap (λ m. m.base_url) (sym same) ∙ agree.2,
          )
    ]
IsRight-IsBacked model p model_unavailable h r =
    λ id. unlisted id (lookup id p.state) (lookup id p.reg.entries) (h id) (r id)
  where
    unlisted :
        (id : ℕ) (o : Option NodeRuntime) (e : Option Entry)
        → Agrees o e
        → listings_of model e ≡ 0
        → finds model o ≡ 0
    unlisted id none e a u = refl
    unlisted id (some st) none a u = elim a [ ]
    unlisted id (some st) (some f) a u = sym (listings-finds model st f a) ∙ u
IsRight-IsBacked model p index_panic h r = elim r [ ]

-- After any events, a request is routed only to a node that the poller takes for healthy and whose
-- models, as the poller has them, name the model, at the URL that the poller has for it; the answer
-- is that the model is unavailable only where there is no such node.
pub routes-IsBacked :
    (parse_url : String → Option String) (es : List Event) (model : String)
    → IsBacked model (after parse_url es) (resolve model (after parse_url es).reg).0
routes-IsBacked parse_url es model =
    let p = after parse_url es in
    IsRight-IsBacked model p (resolve model p.reg).0 (after-Agrees parse_url es)
      (resolve_sound p.reg model (after-IsSound parse_url es))
