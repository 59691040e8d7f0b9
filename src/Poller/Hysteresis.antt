-- ===== src/Poller/Hysteresis.antt =====
-- internal/poller/poller.go: the health of a node against the history of its probes.
use local_ai_proxy.Prelude.{
  ℕ, suc, ◌≡◌, refl, ap, Bool, true, false, ◌||◌, Option, none, some, String, List, [], ◌∷◌, arith,
  leb, if◌then◌else◌,
}
use local_ai_proxy.Registry.{Health, unknown, healthy, unhealthy}
use local_ai_proxy.Poller.{
  NodeSpec, NodeRuntime, first_runtime, Outcome, found, failed, advance, failure_threshold,
}

-- A probe: whether a sweep made it, when, and its outcome.
pub record ProbeRun : Type 0 where
  pub sweep : Bool
  pub at : ℕ
  pub outcome : Outcome

-- The latest probe stands first.
unfoldable pub after_probes : NodeSpec → List ProbeRun → NodeRuntime
after_probes s [] = first_runtime s
after_probes s (r ∷ rs) = advance r.sweep r.at r.outcome (after_probes s rs)

-- The failures since the last success.
unfoldable pub streak : List ProbeRun → List ProbeRun
streak [] = []
streak (r ∷ rs) = elim r.outcome [ found models ↦ [] | failed e ↦ r ∷ streak rs ]

-- The models that the last success has found.
abbrev pub last_found : List ProbeRun → Option (List String)
last_found [] = none
last_found (r ∷ rs) = elim r.outcome [ found models ↦ some models | failed e ↦ last_found rs ]

abbrev pub by_sweep : List ProbeRun → Bool
by_sweep [] = false
by_sweep (r ∷ rs) = r.sweep || by_sweep rs

abbrev pub two_or_more : List ProbeRun → Bool
two_or_more [] = false
two_or_more (r ∷ []) = false
two_or_more (r ∷ q ∷ rs) = true

abbrev pub before_failures : Option (List String) → Health
before_failures none = unknown
before_failures (some models) = healthy

-- A node is down if a sweep, or two probes or more, have failed since the last success; if not, it
-- is as healthy as that success made it.
abbrev pub verdict : List ProbeRun → Health
verdict rs =
    if (by_sweep (streak rs) || two_or_more (streak rs))
    then unhealthy
    else before_failures (last_found rs)

abbrev pub count_runs : List ProbeRun → ℕ
count_runs [] = 0
count_runs (r ∷ rs) = suc (count_runs rs)

pub record IsExplained (st : NodeRuntime) (rs : List ProbeRun) : Type 0 where
  pub health : st.health ≡ verdict rs
  pub failures : st.failures ≡ count_runs (streak rs)
  pub models : st.models ≡ last_found rs

-- A further failure, after the failures fs.
failed_health :
    (sweep : Bool) (r : ProbeRun) (fs : List ProbeRun) (models : Option (List String))
    → r.sweep ≡ sweep
    → (if (sweep || leb failure_threshold (suc (count_runs fs)))
        then unhealthy
        else if (by_sweep fs || two_or_more fs)
        then unhealthy
        else before_failures models)
      ≡ (if ((sweep || by_sweep fs) || two_or_more (r ∷ fs))
          then unhealthy
          else before_failures models)
failed_health sweep r [] models e = ground arith
failed_health sweep r (q ∷ []) models e = ground arith
failed_health sweep r (q ∷ t ∷ fs) models e = ground arith

extend :
    (r : ProbeRun) (o : Outcome) (st : NodeRuntime) (rs : List ProbeRun)
    → IsExplained st rs
    → IsExplained (advance r.sweep r.at o st) (record r { outcome = o } ∷ rs)
unfolding advance streak
extend r (found models) st rs h = record { health = refl; failures = refl; models = refl }
extend r (failed e) st rs h = record {
  health =
      rw (h.failures, h.health)
        (failed_health r.sweep (record r { outcome = failed e }) (streak rs) (last_found rs) refl);
  failures = ap suc h.failures;
  models = h.models;
}

-- The state machine of a node implements this view of its history: after any probes, of a sweep or
-- not, the node is unhealthy exactly if a sweep or two probes in a row have failed since its last
-- success, the counter is the number of failures since then, and the models are those it found.
pub after_probes-IsExplained :
    (s : NodeSpec) (rs : List ProbeRun) → IsExplained (after_probes s rs) rs
unfolding after_probes streak
after_probes-IsExplained s [] = record { health = refl; failures = refl; models = refl }
after_probes-IsExplained s (r ∷ rs) =
    extend r r.outcome (after_probes s rs) rs (after_probes-IsExplained s rs)
