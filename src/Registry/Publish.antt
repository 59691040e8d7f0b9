-- ===== src/Registry/Publish.antt =====
-- What publishLocked of internal/registry/registry.go publishes.
use mathlib.Core.List.{Perm, append-nil, append_assoc}
use mathlib.Core.List.Perm
use local_ai_proxy.Prelude.{
  ℕ, zero, suc, ◌≤◌, ◌≡◌, refl, sym, ap, ◌∙◌, none, some, String, List, [], ◌∷◌, ◌++◌, arith, leb,
  if◌then◌else◌, ◌==◌, eq_key, ℕ_key, String_key, count_if, All, inl, inr, Bool-cases, Option-cases,
}
use local_ai_proxy.Prelude.Dict.{Dict, lookup, insert, lookup-insert}
use local_ai_proxy.Registry.{
  Node, Entry, Snapshot, Registry, routes, is_healthy, add_routes, add_entry, build, insert_sorted,
  sort_by, node_id, entry_id, sort_routes, values, publish_locked,
}

-- How often an entry lists a model, if it is healthy and its list is known.
abbrev pub listings : String → Entry → ℕ
listings model e =
    if is_healthy e.health
    then elim e.models [ none ↦ 0 | some ms ↦ count_if (λ m. m == model) ms ]
    else 0

abbrev pub replicate : ℕ → Node → List Node
replicate zero n = []
replicate (suc k) n = n ∷ replicate k n

-- The nodes that serve a model, in the order of the entries.
abbrev pub serving : String → Dict ℕ Entry → List Node
serving model [] = []
serving model ((id, e) ∷ rest) = replicate (listings model e) e.node ++ serving model rest

routes-insert :
    (m model : String) (nodes : List Node) (d : Dict String (List Node))
    → routes model (insert m nodes d) ≡ (if m == model then nodes else routes model d)
routes-insert m model nodes d = ground (arith, lookup-insert m model nodes d)

routes-add_routes :
    (model : String) (n : Node) (ms : List String) (d : Dict String (List Node))
    → routes model (add_routes n ms d)
      ≡ routes model d ++ replicate (count_if (λ m. m == model) ms) n
unfolding add_routes
routes-add_routes model n [] d = sym (append-nil (routes model d))
routes-add_routes model n (m ∷ ms) d =
    rw (routes-add_routes model n ms (insert m (routes m d ++ n ∷ []) d), routes-insert)
      (elim (Bool-cases (m == model)) [
        | inl e ↦
            rw (e, (eq_key m model).0 e)
              (append_assoc (routes model d) (n ∷ []) (replicate (count_if (λ x. x == model) ms) n))
        | inr e ↦ rw e
      ])

routes-add_entry :
    (model : String) (e : Entry) (d : Dict String (List Node))
    → routes model (add_entry e d) ≡ routes model d ++ replicate (listings model e) e.node
unfolding add_entry
routes-add_entry model e d = elim (Bool-cases (is_healthy e.health)) [
  | inr h ↦ rw h (sym (append-nil (routes model d)))
  | inl h ↦ elim (Option-cases e.models) [
    | inl n ↦ rw (h, n) (sym (append-nil (routes model d)))
    | inr (ms, s) ↦ rw (h, s) (routes-add_routes model e.node ms d)
  ]
]

routes-build :
    (model : String) (es : Dict ℕ Entry) (d : Dict String (List Node))
    → routes model (build es d) ≡ routes model d ++ serving model es
unfolding build
routes-build model [] d = sym (append-nil (routes model d))
routes-build model ((id, e) ∷ es) d =
    rw (routes-build model es (add_entry e d), routes-add_entry model e d)
      (append_assoc (routes model d) (replicate (listings model e) e.node) (serving model es))

routes-sort_routes :
    (model : String) (d : Dict String (List Node))
    → routes model (sort_routes d) ≡ sort_by node_id (routes model d)
unfolding sort_routes sort_by lookup
routes-sort_routes model [] = refl
routes-sort_routes model ((m, nodes) ∷ d) = ground (arith, routes-sort_routes model d)

-- A snapshot that tells what the entries say: for every model the healthy nodes that list it,
-- ascending by ID, and every node with its state, ascending by ID.
pub record IsCurrent (entries : Dict ℕ Entry) (s : Snapshot) : Type 0 where
  pub candidates :
      (model : String) → routes model s.models ≡ sort_by node_id (serving model entries)
  pub states : s.nodes ≡ sort_by entry_id (values entries)

pub publish_locked-IsCurrent :
    (r : Registry) → IsCurrent (publish_locked r).entries (publish_locked r).snap
unfolding publish_locked lookup
publish_locked-IsCurrent r = record {
  candidates = λ model.
      routes-sort_routes model (build r.entries [])
      ∙ ap (sort_by node_id) (routes-build model r.entries []);
  states = refl;
}

module _ {A : Type 0} (key : A → ℕ) where
  abbrev pub IsAbove : ℕ → List A → Type 0
  IsAbove k [] = Unit
  IsAbove k (x ∷ xs) = (k ≤ key x) × IsAbove k xs

  abbrev pub IsAscending : List A → Type 0
  IsAscending [] = Unit
  IsAscending (x ∷ xs) = IsAbove (key x) xs × IsAscending xs

  IsAbove-mono : (j k : ℕ) (xs : List A) → j ≤ k → IsAbove k xs → IsAbove j xs
  IsAbove-mono j k [] h a = tt
  IsAbove-mono j k (x ∷ xs) h a = (omega (arith, a.0), IsAbove-mono j k xs h a.1)

  insert_sorted-IsAbove :
      (k : ℕ) (x : A) (xs : List A) → k ≤ key x → IsAbove k xs → IsAbove k (insert_sorted key x xs)
  unfolding insert_sorted
  insert_sorted-IsAbove k x [] h a = (h, tt)
  insert_sorted-IsAbove k x (y ∷ ys) h a = ground (arith, insert_sorted-IsAbove k x ys h a.1)

  insert_sorted-IsAscending :
      (x : A) (xs : List A) → IsAscending xs → IsAscending (insert_sorted key x xs)
  unfolding insert_sorted
  insert_sorted-IsAscending x [] a = (tt, tt)
  insert_sorted-IsAscending x (y ∷ ys) a = ground (
    arith,
    insert_sorted-IsAscending x ys a.1,
    insert_sorted-IsAbove (key y) x ys,
    IsAbove-mono (key x) (key y) ys,
  )

  pub sort_by-IsAscending : (xs : List A) → IsAscending (sort_by key xs)
  unfolding sort_by
  sort_by-IsAscending [] = tt
  sort_by-IsAscending (x ∷ xs) =
      insert_sorted-IsAscending x (sort_by key xs) (sort_by-IsAscending xs)

  All-insert_sorted :
      (P : A → Type 0) (x : A) (xs : List A) → P x → All P xs → All P (insert_sorted key x xs)
  unfolding insert_sorted
  All-insert_sorted P x [] hx h = (hx, tt)
  All-insert_sorted P x (y ∷ ys) hx h = elim (Bool-cases (leb (key x) (key y))) [
    | inl e ↦ rw e (hx, h)
    | inr e ↦ rw e (h.0, All-insert_sorted P x ys hx h.1)
  ]

  pub All-sort_by : (P : A → Type 0) (xs : List A) → All P xs → All P (sort_by key xs)
  unfolding sort_by
  All-sort_by P [] h = tt
  All-sort_by P (x ∷ xs) h = All-insert_sorted P x (sort_by key xs) h.0 (All-sort_by P xs h.1)

  insert_sorted-perm : (x : A) (xs : List A) → Perm (insert_sorted key x xs) (x ∷ xs)
  unfolding insert_sorted
  insert_sorted-perm x [] = Perm.refl (x ∷ [])
  insert_sorted-perm x (y ∷ ys) = elim (Bool-cases (leb (key x) (key y))) [
    | inl e ↦ rw e (Perm.refl (x ∷ y ∷ ys))
    | inr e ↦ rw e (Perm.trans (Perm.cons y (insert_sorted-perm x ys)) (Perm.swap x y ys))
  ]

  -- Sorting neither drops nor adds anything.
  pub sort_by-perm : (xs : List A) → Perm (sort_by key xs) xs
  unfolding sort_by
  sort_by-perm [] = Perm.refl []
  sort_by-perm (x ∷ xs) =
      Perm.trans (insert_sorted-perm x (sort_by key xs)) (Perm.cons x (sort_by-perm xs))
