-- ===== src/Registry/Balance.antt =====
-- The round robin of Resolve in internal/registry/registry.go.
use native.Mathlib.Nat.{
  add-mod-mod, add-mul-mod_self_left, mod-eq_of_lt, mod-lt, mod-one, div-add-mod,
}
use native.Mathlib.Nat
use local_ai_proxy.Prelude.{
  ℕ, zero, suc, ◌+◌, ◌-◌, ◌≤◌, ◌<◌, ◌*◌, ◌/◌, ◌%◌, ◌≡◌, refl, ap, ◌∙◌, String, List, [], ◌∷◌, arith,
  eq_self, String_key, length,
}
use local_ai_proxy.Prelude.Dict.{held, lookup-insert}
use local_ai_proxy.Registry.{Node, Snapshot, Registry, routes, at_index, u64, pick, resolve}

-- The registry after some resolves of one model.
abbrev pub resolves : ℕ → String → Registry → Registry
resolves zero model r = r
resolves (suc k) model r = (resolve model (resolves k model r)).1

resolve-snap : (model : String) (r : Registry) → (resolve model r).1.snap ≡ r.snap
unfolding resolve pick
resolve-snap model r = go (routes model r.snap.models)
  where
    go : (ns : List Node) → (pick model ns r).1.snap ≡ r.snap
    go [] = refl
    go (n ∷ []) = refl
    go (n ∷ m ∷ ns) = refl

resolves-snap : (k : ℕ) (model : String) (r : Registry) → (resolves k model r).snap ≡ r.snap
resolves-snap zero model r = refl
resolves-snap (suc k) model r = resolve-snap model (resolves k model r) ∙ resolves-snap k model r

-- What a pick among candidates answers and leaves, when the counter stands at some number.
pick-answer :
    (model : String) (n : Node) (ns : List Node) (r : Registry) (c : ℕ)
    → held model r.counters ≡ c
    → (pick model (n ∷ ns) r).0 ≡ at_index (n ∷ ns) (c % length (n ∷ ns))
unfolding pick
pick-answer model n [] r c h = rw (mod-one c) refl
pick-answer model n (m ∷ ns) r c h = rw h refl

pick-counter :
    (model : String) (n m : Node) (ns : List Node) (r : Registry) (c : ℕ)
    → held model r.counters ≡ c
    → c + 1 < u64
    → held model (pick model (n ∷ m ∷ ns) r).1.counters ≡ c + 1
unfolding pick
pick-counter model n m ns r c h b = rw (h, held, lookup-insert, eq_self model) (omega (arith, b))

resolves-counter :
    (k : ℕ) (model : String) (r : Registry) (n m : Node) (ns : List Node)
    → routes model r.snap.models ≡ n ∷ m ∷ ns
    → held model r.counters + k < u64
    → held model (resolves k model r).counters ≡ held model r.counters + k
unfolding resolve
resolves-counter zero model r n m ns e b = omega arith
resolves-counter (suc k) model r n m ns e b =
    ap (λ ms. held model (pick model ms (resolves k model r)).1.counters)
      (ap (λ (s : Snapshot). routes model s.models) (resolves-snap k model r) ∙ e)
    ∙ pick-counter model n m ns (resolves k model r) (held model r.counters + k)
        (resolves-counter k model r n m ns e (omega (arith, b))) (omega (arith, b))
    ∙ omega arith

-- The round robin: with `c` the counter of a model that has candidates, resolve number `k` from
-- now answers the candidate at index `c + k`, modulo their number, as long as the counter does not
-- wrap around.
pub resolve-round_robin :
    (k : ℕ) (model : String) (r : Registry)
    → 1 ≤ length (routes model r.snap.models)
    → held model r.counters + k < u64
    → (resolve model (resolves k model r)).0
      ≡ at_index
          (routes model r.snap.models)
          ((held model r.counters + k) % length (routes model r.snap.models))
unfolding resolve pick
resolve-round_robin k model r h b =
    rw (ap (λ (s : Snapshot). routes model s.models) (resolves-snap k model r))
      (go (routes model r.snap.models) refl h)
  where
    go :
        (ns : List Node)
        → routes model r.snap.models ≡ ns
        → 1 ≤ length ns
        → (pick model ns (resolves k model r)).0
          ≡ at_index ns ((held model r.counters + k) % length ns)
    go [] e h = elim h [ ]
    go (n ∷ []) e h = rw (mod-one (held model r.counters + k)) refl
    go (n ∷ m ∷ ns) e h =
        pick-answer model n (m ∷ ns) (resolves k model r) (held model r.counters + k)
          (resolves-counter k model r n m ns e b)

turn : ℕ → ℕ → ℕ → ℕ
turn n c i = (i + (n - c % n)) % n

turn_lem : (n c i : ℕ) → i < n → (c + turn n c i) % n ≡ i
unfolding turn
turn_lem n c i h =
    add-mod-mod c (i + (n - c % n)) n
    ∙ ap (λ x. x % n) around
    ∙ add-mul-mod_self_left i n (1 + c / n)
    ∙ mod-eq_of_lt h
  where
    around : c + (i + (n - c % n)) ≡ i + n * (1 + c / n)
    around =
        omega (arith, mod-lt c {m = n} (omega (arith, h)), div-add-mod c n, Nat.mul-add n 1 (c / n))

-- No candidate starves: within as many resolves of a model as it has candidates, each candidate
-- is answered, if the counter does not wrap around among them.
pub resolve-fair :
    (i : ℕ) (model : String) (r : Registry)
    → i < length (routes model r.snap.models)
    → held model r.counters + length (routes model r.snap.models) ≤ u64
    → (k : ℕ) × (k < length (routes model r.snap.models))
      × ((resolve model (resolves k model r)).0 ≡ at_index (routes model r.snap.models) i)
unfolding turn
resolve-fair i model r h b = (k, k<, answer)
  where
    n : ℕ
    n = length (routes model r.snap.models)

    k : ℕ
    k = turn n (held model r.counters) i

    k< : k < n
    k< = mod-lt (i + (n - held model r.counters % n)) {m = n} (omega (arith, h))

    answer : (resolve model (resolves k model r)).0 ≡ at_index (routes model r.snap.models) i
    answer =
        resolve-round_robin k model r (omega (arith, h)) (omega (arith, b, k<))
        ∙ ap (at_index (routes model r.snap.models)) (turn_lem n (held model r.counters) i h)
