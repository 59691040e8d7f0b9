-- ===== src/Poller/Discovery.antt =====
-- internal/poller/poller.go: which responses make a probe a success, and with which models.
use local_ai_proxy.Prelude.{
  ℕ, zero, suc, ◌+◌, ◌≤◌, ◌<◌, ◌≡◌, refl, sym, ap, ◌∙◌, ◌↔◌, ◌&&◌, Option, none, some, String, List,
  [], ◌∷◌, arith, leb, if◌then◌else◌, ◌==◌, String_key, length, inl, inr, Bool-cases, Option-cases,
  leb→le, le→leb, lt→leb,
}
use local_ai_proxy.Poller.{NodeSpec, found, failed}
use local_ai_proxy.Poller.Probe.{
  Response, Fetched, unreachable, answered, Attempt, done, bad, take, read_capped, named,
  outcome_of, probe_url, parse_models, conclude_probe, read_outcome, body_outcome, answer, auth_of,
  probe,
}

take-all : (n : ℕ) (xs : List ℕ) → length xs ≤ n → take n xs ≡ xs
take-all zero [] h = refl
take-all (suc n) [] h = refl
take-all zero (x ∷ xs) h = absurd (omega (arith, h))
take-all (suc n) (x ∷ xs) h = ap (λ ys. x ∷ ys) (take-all n xs (omega (arith, h)))

length-take : (n : ℕ) (xs : List ℕ) → n ≤ length xs → length (take n xs) ≡ n
length-take zero xs h = refl
length-take (suc n) [] h = absurd (omega (arith, h))
length-take (suc n) (x ∷ xs) h = ap suc (length-take n xs (omega (arith, h)))

-- The three ways of reading a body.
read_capped-whole :
    (limit : ℕ) (r : Response)
    → length r.bytes ≤ limit
    → r.broken ≡ none
    → read_capped limit r ≡ done r.bytes
unfolding read_capped
read_capped-whole limit r h e =
    rw
      (
        read_capped,
        le→leb (length r.bytes) limit h,
        e,
        take-all (limit + 1) r.bytes (omega (arith, h)),
      )
      (ground (arith, h))

read_capped-broken :
    (limit : ℕ) (r : Response) (e : String)
    → length r.bytes ≤ limit
    → r.broken ≡ some e
    → read_capped limit r ≡ bad e
unfolding read_capped
read_capped-broken limit r e h b = rw (read_capped, le→leb (length r.bytes) limit h, b) refl

read_capped-long :
    (limit : ℕ) (r : Response)
    → limit < length r.bytes
    → read_capped limit r ≡ bad "probe response body exceeds the cap"
unfolding read_capped
read_capped-long limit r h =
    rw
      (
        read_capped,
        lt→leb (length r.bytes) limit h,
        length-take (limit + 1) r.bytes (omega (arith, h)),
      )
      (ground arith)

done-injective : {A : Type 0} (x y : A) → done x ≡ done y → x ≡ y
done-injective x y e = cc e

bad≢done : {A : Type 0} (e : String) (x : A) → bad e ≡ done x → ⊥
bad≢done e x h = absurd (cc h)

read_capped-done :
    (limit : ℕ) (r : Response) (b : List ℕ)
    → read_capped limit r ≡ done b
    → (length r.bytes ≤ limit) × (r.broken ≡ none) × (r.bytes ≡ b)
read_capped-done limit r b h = elim (Bool-cases (leb (length r.bytes) limit)) [
  | inr long ↦ absurd (bad≢done _ b (sym (read_capped-long limit r (ground (arith, long))) ∙ h))
  | inl short ↦ elim (Option-cases r.broken) [
    | inr (e, k) ↦ absurd (
        bad≢done e b
          (sym (read_capped-broken limit r e (leb→le (length r.bytes) limit short) k) ∙ h))
    | inl whole ↦ (
      leb→le (length r.bytes) limit short,
      whole,
      done-injective r.bytes b
          (sym (read_capped-whole limit r (leb→le (length r.bytes) limit short) whole) ∙ h),
    )
  ]
]

found-injective : (x y : List String) → found x ≡ found y → x ≡ y
found-injective x y e = cc e

failed≢found : (e : String) (x : List String) → failed e ≡ found x → ⊥
failed≢found e x h = absurd (cc h)

module _ (decode_tags decode_list : List ℕ → Attempt (List String)) where
  abbrev decode : String → List ℕ → Attempt (List String)
  decode backend_type body = if backend_type == "ollama" then decode_tags body else decode_list body

  -- The models of a node: those that it is declared with, or those that its whole answer names.
  abbrev pub IsListed : ℕ → NodeSpec → Option (List String) → Response → List String → Type 0
  IsListed limit s (some declared) r models = declared ≡ models
  IsListed limit s none r models =
      (length r.bytes ≤ limit)
      × (r.broken ≡ none)
      × (names : List String) × (decode s.backend_type r.bytes ≡ done names)
      × (named names ≡ models)

  abbrev pub IsAlive : ℕ → NodeSpec → Fetched → List String → Type 0
  IsAlive limit s (unreachable e) models = ⊥
  IsAlive limit s (answered r) models =
      (200 ≤ r.status) × (r.status ≤ 299) × IsListed limit s s.static_models r models

  parse_models-decode :
      (backend_type : String) (body : List ℕ)
      → parse_models decode_tags decode_list backend_type body
        ≡ outcome_of (decode backend_type body)
  unfolding parse_models
  parse_models-decode backend_type body = elim (Bool-cases (backend_type == "ollama")) [
    | inl e ↦ rw (parse_models, e) refl
    | inr e ↦ rw (parse_models, e) refl
  ]

  named-found :
      (a : Attempt (List String)) (models : List String)
      → outcome_of a ≡ found models
      → (names : List String) × (a ≡ done names) × (named names ≡ models)
  named-found (bad e) models h = absurd (failed≢found e models h)
  named-found (done names) models h = (names, refl, found-injective (named names) models h)

  read-found :
      (limit : ℕ) (s : NodeSpec) (r : Response) (a : Attempt (List ℕ)) (models : List String)
      → read_capped limit r ≡ a
      → read_outcome decode_tags decode_list s.backend_type a ≡ found models
      → IsListed limit s none r models
  read-found limit s r (bad e) models read h = absurd (failed≢found e models h)
  read-found limit s r (done body) models read h =
      let whole = read_capped-done limit r body read in
      let listed =
        named-found (decode s.backend_type body) models
          (sym (parse_models-decode s.backend_type body) ∙ h) in
      (whole.0, whole.1, listed.0, ap (decode s.backend_type) whole.2 ∙ listed.1, listed.2)

  found-read :
      (limit : ℕ) (s : NodeSpec) (r : Response) (models : List String)
      → IsListed limit s none r models
      → read_outcome decode_tags decode_list s.backend_type (read_capped limit r) ≡ found models
  found-read limit s r models (short, whole, names, decoded, kept) =
      rw (read_capped-whole limit r short whole, parse_models-decode, decoded, kept) refl

  body-IsListed :
      (limit : ℕ) (s : NodeSpec) (o : Option (List String)) (r : Response) (models : List String)
      → (body_outcome decode_tags decode_list s o limit r ≡ found models)
        ↔ IsListed limit s o r models
  body-IsListed limit s (some declared) r models =
      (found-injective declared models, λ e. ap found e)
  body-IsListed limit s none r models =
      (read-found limit s r (read_capped limit r) models refl, found-read limit s r models)

  conclude_probe-IsAlive :
      (limit : ℕ) (s : NodeSpec) (f : Fetched) (models : List String)
      → (conclude_probe decode_tags decode_list s limit f ≡ found models) ↔ IsAlive limit s f models
  unfolding answer
  conclude_probe-IsAlive limit s (unreachable e) models = (failed≢found e models, λ h. absurd h)
  conclude_probe-IsAlive limit s (answered r) models =
      elim (Bool-cases (leb 200 r.status && leb r.status 299)) [
        | inr e ↦
            rw (conclude_probe, answer, e)
              (λ h. absurd (failed≢found _ models h), λ h. absurd (ground (arith, e, h.0, h.1)))
        | inl e ↦
            rw (conclude_probe, answer, e)
              (
                λ h. (
                  ground (arith, e),
                  ground (arith, e),
                  (body-IsListed limit s s.static_models r models).0 h,
                ),
                λ h. (body-IsListed limit s s.static_models r models).1 h.2,
              )
      ]

  -- A probe of a node succeeds with a list of models exactly if the node answers with a status of
  -- the 200s and the list is the one that it is declared with, or else the names in an answer that
  -- ends within the cap, without the empty ones.
  pub probe-IsAlive :
      (join_path : String → String → String) (get : String → Option String → Fetched) (limit : ℕ)
      (s : NodeSpec) (models : List String)
      → (probe decode_tags decode_list join_path get limit s ≡ found models)
        ↔ IsAlive limit s (get (probe_url join_path s) (auth_of s)) models
  unfolding probe
  probe-IsAlive join_path get limit s models =
      conclude_probe-IsAlive limit s (get (probe_url join_path s) (auth_of s)) models
