-- ===== src/Poller/Pairs.antt =====
-- internal/poller/poller.go: the two views of a row that `load` makes, and the last of an ID.
use local_ai_proxy.Prelude.{
  ℕ, ◌≡◌, refl, Bool, true, false, ◌||◌, Option, none, some, String, List, [], ◌∷◌, if◌then◌else◌,
  ◌==◌, ℕ_key, String_key, inl, inr, All, Bool-cases, Option-cases,
}
use local_ai_proxy.Store.Nodes.{NodeRow}
use local_ai_proxy.Registry.{Node}
use local_ai_proxy.Registry.Declarations.{last_with}
use local_ai_proxy.Poller.{NodeSpec, spec_of, specs_of, has_id, specs_in, nodes_in}

-- The last spec of an ID.
abbrev pub last_spec : ℕ → List NodeSpec → Option NodeSpec
last_spec id [] = none
last_spec id (s ∷ specs) = elim (last_spec id specs) [
  | some t ↦ some t
  | none ↦ if s.id == id then some s else none
]

-- The poller's view and the registry's view of one row.
abbrev pub IsPair : NodeSpec × Node → Type 0
IsPair (s, n) = (n.id ≡ s.id) × (n.base_url ≡ some s.base_url)

-- Both views know an ID, and their last ones come from the same row, or neither knows it.
abbrev pub Matches : Option NodeSpec → Option Node → Bool → Type 0
Matches none none known = known ≡ false
Matches none (some n) known = ⊥
Matches (some s) none known = ⊥
Matches (some s) (some n) known = (known ≡ true) × (n.base_url ≡ some s.base_url)

extend-Matches :
    (id : ℕ) (s : NodeSpec) (n : Node) (os : Option NodeSpec) (on : Option Node) (known : Bool)
    → IsPair (s, n)
    → Matches os on known
    → Matches
        (elim os [ some t ↦ some t | none ↦ if s.id == id then some s else none ])
        (elim on [ some m ↦ some m | none ↦ if n.id == id then some n else none ])
        (s.id == id || known)
extend-Matches id s n none none known h m = elim (Bool-cases (s.id == id)) [
  | inl e ↦ rw (h.0, e) (refl, h.1)
  | inr e ↦ rw (h.0, e) m
]
extend-Matches id s n none (some y) known h m = elim m [ ]
extend-Matches id s n (some x) none known h m = elim m [ ]
extend-Matches id s n (some x) (some y) known h m = elim (Bool-cases (s.id == id)) [
  | inl e ↦ rw e (refl, m.1)
  | inr e ↦ rw e m
]

pub last-Matches :
    (id : ℕ) (l : List (NodeSpec × Node))
    → All IsPair l
    → Matches (last_spec id (specs_in l)) (last_with id (nodes_in l)) (has_id id (specs_in l))
last-Matches id [] h = refl
last-Matches id ((s, n) ∷ l) h =
    extend-Matches id s n (last_spec id (specs_in l)) (last_with id (nodes_in l))
      (has_id id (specs_in l)) h.0 (last-Matches id l h.1)

spec_of-IsPair : (n : NodeRow) (url : String) → IsPair (spec_of n url)
spec_of-IsPair n url = (refl, refl)

pub specs_of-IsPair :
    (parse_url : String → Option String) (rows : List NodeRow)
    → All IsPair (specs_of parse_url rows)
unfolding specs_of
specs_of-IsPair parse_url [] = tt
specs_of-IsPair parse_url (n ∷ rows) = elim (Bool-cases n.enabled) [
  | inr e ↦ rw (specs_of, e) (specs_of-IsPair parse_url rows)
  | inl e ↦
      rw (specs_of, e)
        (elim (Option-cases (parse_url n.base_url)) [
          | inl f ↦ rw f (specs_of-IsPair parse_url rows)
          | inr (url, f) ↦ rw f (spec_of-IsPair n url, specs_of-IsPair parse_url rows)
        ])
]
