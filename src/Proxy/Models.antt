-- ===== src/Proxy/Models.antt =====
-- internal/proxy/proxy.go: handleModels, from the models with an active price and the registry's
-- snapshot to the entries of the answer.
use local_ai_proxy.Prelude.{
  ◌≡◌, Bool, true, false, ◌||◌, String, List, [], ◌∷◌, arith, if◌then◌else◌, ◌==◌, eq_key,
  String_key, count_if, Bool-cases, inl, inr,
}
use local_ai_proxy.Registry.{Node, Snapshot, routes}

pub record ModelEntry : Type 0 where
  pub id : String
  pub owned_by : String

-- `len(servedBy) > 0`
abbrev pub is_served : List Node → Bool
is_served [] = false
is_served (n ∷ ns) = true

abbrev pub owner_of : List Node → String
owner_of [] = "local"
owner_of (n ∷ []) = n.name
owner_of (n ∷ m ∷ ns) = "multiple"

unfoldable pub list_models : Bool → List String → Snapshot → List ModelEntry
list_models list_all [] s = []
list_models list_all (p ∷ ps) s =
    let rest = list_models list_all ps s in
    let served = routes p s.models in
    if (is_served served || list_all)
    then record { id = p; owned_by = owner_of served } ∷ rest
    else rest

-- A model is listed as often as it is priced if a healthy node serves it, or if everything is to be
-- listed, and is not listed otherwise.
pub list_models-count :
    (list_all : Bool) (ps : List String) (s : Snapshot) (m : String)
    → count_if (λ e. e.id == m) (list_models list_all ps s)
      ≡ (if (is_served (routes m s.models) || list_all) then count_if (λ p. p == m) ps else 0)
unfolding list_models
list_models-count list_all [] s m = ground arith
list_models-count list_all (p ∷ ps) s m = elim (Bool-cases (p == m)) [
  | inl e ↦
      let same = (eq_key p m).0 e in
      rw same (ground (arith, list_models-count list_all ps s m, eq_key m m))
  | inr e ↦ ground (arith, list_models-count list_all ps s m)
]
