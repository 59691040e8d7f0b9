-- ===== src/Poller/Probe.antt =====
-- internal/poller/poller.go: one probe. net/http, JoinPath and encoding/json are parameters.
use local_ai_proxy.Prelude.{
  ℕ, zero, suc, ◌+◌, Bool, true, false, ◌&&◌, not, Option, none, some, String, List, [], ◌∷◌, leb,
  ltb, if◌then◌else◌, ◌==◌, String_key, length,
}
use local_ai_proxy.Poller.{NodeSpec, Outcome, found, failed}

-- A response: its status, the bytes of its body, and the error that ends the body, if one does.
pub record Response : Type 0 where
  pub status : ℕ
  pub bytes : List ℕ
  pub broken : Option String

-- What the client's Do gives, redirects refused.
pub data Fetched : Type 0 where
  unreachable : String → Fetched
  answered : Response → Fetched

-- What a call gives that may fail with a text.
pub data Attempt {ℓ} (A : Type ℓ) : Type ℓ where
  done : A → Attempt A
  bad : String → Attempt A

abbrev pub discovery_probe : NodeSpec → Bool
discovery_probe s = elim s.static_models [ none ↦ true | some models ↦ false ]

abbrev pub take : ℕ → List ℕ → List ℕ
take zero xs = []
take (suc n) [] = []
take (suc n) (x ∷ xs) = x ∷ take n xs

-- An error that ends a body shows only if the reader gets to the end.
unfoldable pub read_capped : ℕ → Response → Attempt (List ℕ)
read_capped limit r =
    let b = take (limit + 1) r.bytes in
    elim (if leb (length r.bytes) limit then r.broken else none) [
      | some e ↦ bad e
      | none ↦ if ltb limit (length b) then bad "probe response body exceeds the cap" else done b
    ]

-- The loop that leaves out the empty names.
abbrev pub named : List String → List String
named [] = []
named (m ∷ ms) = let rest = named ms in if m == "" then rest else m ∷ rest

abbrev pub outcome_of : Attempt (List String) → Outcome
outcome_of (bad e) = failed e
outcome_of (done names) = found (named names)

unfoldable pub probe_url : (String → String → String) → NodeSpec → String
probe_url join_path s =
    if (not (discovery_probe s) && not (s.health_path == ""))
    then join_path s.base_url s.health_path
    else if s.backend_type == "ollama"
    then join_path s.base_url "api/tags"
    else join_path s.base_url "v1/models"

abbrev pub auth_of : NodeSpec → Option String
auth_of s = if s.auth_header == "" then none else some s.auth_header

module _ (decode_tags decode_list : List ℕ → Attempt (List String)) where
  unfoldable pub parse_models : String → List ℕ → Outcome
  parse_models backend_type body =
      if backend_type == "ollama"
      then outcome_of (decode_tags body)
      else outcome_of (decode_list body)

  abbrev pub read_outcome : String → Attempt (List ℕ) → Outcome
  read_outcome backend_type (bad e) = failed e
  read_outcome backend_type (done body) = parse_models backend_type body

  -- What the body of a response in the 200s makes of a node with these static models.
  abbrev pub body_outcome : NodeSpec → Option (List String) → ℕ → Response → Outcome
  body_outcome s (some models) limit r = found models
  body_outcome s none limit r = read_outcome s.backend_type (read_capped limit r)

  unfoldable pub answer : NodeSpec → ℕ → Response → Outcome
  answer s limit r =
      if (leb 200 r.status && leb r.status 299)
      then body_outcome s s.static_models limit r
      else failed "probe returned another status"

  abbrev pub conclude_probe : NodeSpec → ℕ → Fetched → Outcome
  conclude_probe s limit (unreachable e) = failed e
  conclude_probe s limit (answered r) = answer s limit r

  unfoldable pub probe :
      (String → String → String) → (String → Option String → Fetched) → ℕ → NodeSpec → Outcome
  probe join_path get limit s = conclude_probe s limit (get (probe_url join_path s) (auth_of s))
