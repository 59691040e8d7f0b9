-- ===== src/Poller/Schedule.antt =====
-- internal/poller/poller.go: when nodes are probed, the cycle of Run, SweepOnce and RefreshNode. The
-- hash of an ID is a parameter, the arithmetic is exact, and JitterFrac is its default of 1/5, as
-- cmd/proxy/main.go has it. `none` for a time is the zero time.
use local_ai_proxy.Prelude.{
  ℕ, ◌+◌, ◌-◌, ◌*◌, ◌/◌, ◌%◌, Bool, true, false, Option, none, some, String, List, [], ◌∷◌, leb,
  ltb, if◌then◌else◌, ◌==◌, ℕ_key,
}
use local_ai_proxy.Prelude.Dict.{lookup}
use local_ai_proxy.RateLimit.Tokens.{second}
use local_ai_proxy.Store.Sql.{Result, ok, err}
use local_ai_proxy.Store.Nodes.{NodeRow}
use local_ai_proxy.Poller.{NodeSpec, Poller, load, Outcome, apply}

abbrev pub default_interval : ℕ
default_interval = 15 * second

abbrev pub min_wait : ℕ
min_wait = second / 10

-- `int64`-wide intervals are numbers: the base interval, and 0 or less for the default.
abbrev pub interval_option : ℕ → ℕ
interval_option asked = if leb asked 0 then default_interval else asked

-- A probe that has ended: the node, the outcome, and when.
pub record Finish : Type 0 where
  pub spec : NodeSpec
  pub outcome : Outcome
  pub at : ℕ

-- `probeSpecs`: the outcomes in the order in which the parallel probes end.
unfoldable pub probe_specs : Bool → List Finish → Poller → Poller
probe_specs sweep [] p = p
probe_specs sweep (f ∷ fs) p = probe_specs sweep fs (apply f.spec.id f.outcome sweep f.at p)

module _ (hash : ℕ → ℕ) (interval : ℕ) where
  -- interval * (1 + 1/5 * (n / 1023.5 - 1)), for n in [0, 2047]
  unfoldable pub interval_for : ℕ → ℕ
  interval_for id = interval * (4 * 2047 + 2 * (hash id % 2048)) / (5 * 2047)

  abbrev pub due_after : ℕ → Option ℕ → Option ℕ
  due_after id none = none
  due_after id (some probed) = some (probed + interval_for id)

  abbrev pub next_due : ℕ → Poller → Option ℕ
  next_due id p = elim (lookup id p.state) [ none ↦ none | some st ↦ due_after id st.last_probe ]

  -- `!p.nextDue(s.id).After(now)`
  abbrev pub is_due : ℕ → Option ℕ → Bool
  is_due now none = true
  is_due now (some t) = leb t now

  unfoldable pub due_specs : ℕ → Poller → List NodeSpec → List NodeSpec
  due_specs now p [] = []
  due_specs now p (s ∷ specs) =
      let rest = due_specs now p specs in if is_due now (next_due s.id p) then s ∷ rest else rest

  -- The loop for the next wake; the zero time is before any other.
  abbrev pub earlier : Option ℕ → ℕ → ℕ
  earlier none next = 0
  earlier (some d) next = if ltb d next then d else next

  unfoldable pub next_wake : Poller → List NodeSpec → ℕ → ℕ
  next_wake p [] next = next
  next_wake p (s ∷ specs) next = next_wake p specs (earlier (next_due s.id p) next)

  -- `now` and `later` are the two readings of the clock; a wake in the past waits for min_wait too.
  unfoldable pub wait_of : Poller → List NodeSpec → ℕ → ℕ → ℕ
  wait_of p specs now later =
      let wait = next_wake p specs (now + interval) - later in
      if ltb wait min_wait then min_wait else wait

  -- What the reload gives to the cycle: the last set that was loaded, if it fails.
  abbrev pub specs_or_cached : Result (List NodeSpec) → Poller → List NodeSpec
  specs_or_cached (err e) p = p.last_specs
  specs_or_cached (ok specs) p = specs

  -- `finish` runs the probes of the nodes that are due.
  unfoldable pub poll_cycle :
      (String → Option String)
      → Result (List NodeRow)
      → (List NodeSpec → List Finish)
      → ℕ
      → ℕ
      → ℕ
      → Poller
      → ℕ × Poller
  poll_cycle parse_url rows finish start now later p =
      let loaded = load parse_url rows p in
      let specs = specs_or_cached loaded.0 loaded.1 in
      let probed = probe_specs false (finish (due_specs start loaded.1 specs)) loaded.1 in
      (wait_of probed specs now later, probed)

-- The error is only the load's.
abbrev pub sweep_loaded :
    Result (List NodeSpec) → (List NodeSpec → List Finish) → Poller → Result {0} Unit × Poller
sweep_loaded (err e) finish p = (err e, p)
sweep_loaded (ok specs) finish p = (ok tt, probe_specs true (finish specs) p)

unfoldable pub sweep_once :
    (String → Option String)
    → Result (List NodeRow)
    → (List NodeSpec → List Finish)
    → Poller
    → Result {0} Unit × Poller
sweep_once parse_url rows finish p =
    let loaded = load parse_url rows p in sweep_loaded loaded.0 finish loaded.1

-- The first spec with the ID is probed, and only that one.
unfoldable pub refresh_spec : ℕ → (NodeSpec → Outcome) → ℕ → List NodeSpec → Poller → Poller
refresh_spec id probe now [] p = p
refresh_spec id probe now (s ∷ specs) p =
    let rest = refresh_spec id probe now specs p in
    if s.id == id then apply s.id (probe s) true now p else rest

abbrev pub refresh_loaded :
    ℕ → (NodeSpec → Outcome) → ℕ → Result (List NodeSpec) → Poller → Result {0} Unit × Poller
refresh_loaded id probe now (err e) p = (err e, p)
refresh_loaded id probe now (ok specs) p = (ok tt, refresh_spec id probe now specs p)

unfoldable pub refresh_node :
    (String → Option String)
    → Result (List NodeRow)
    → (NodeSpec → Outcome)
    → ℕ
    → ℕ
    → Poller
    → Result {0} Unit × Poller
refresh_node parse_url rows probe now id p =
    let loaded = load parse_url rows p in refresh_loaded id probe now loaded.0 loaded.1
