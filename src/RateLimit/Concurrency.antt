-- ===== src/RateLimit/Concurrency.antt =====
-- internal/ratelimit/concurrency.go. A map of counts; the mutex makes each operation one step. A
-- nil limiter is `none`.
pub mod Flights
use local_ai_proxy.Prelude.{
  ℕ, ◌+◌, ◌-◌, Bool, true, false, Option, none, some, [], leb, if◌then◌else◌, ℕ_key,
}
use local_ai_proxy.Prelude.Int.{ℤ, pos, leb_ℤ}
use local_ai_proxy.Prelude.Dict.{Dict, lookup, insert, delete, held, total}

abbrev pub Slots : Type 0
Slots = Dict ℕ ℕ

abbrev pub new_concurrency : Slots
new_concurrency = []

-- `max <= 0` means no cap, and takes no slot.
unfoldable pub take_slot : ℕ → ℤ → Slots → Bool × Slots
take_slot id max s =
    if leb_ℤ max (pos 0)
    then (true, s)
    else if leb_ℤ max (pos (held id s))
    then (false, s)
    else (true, insert id (held id s + 1) s)

unfoldable pub free_slot : ℕ → Slots → Slots
free_slot id s = elim (lookup id s) [
  | none ↦ s
  | some n ↦ if leb n 1 then delete id s else insert id (n - 1) s
]

unfoldable pub try_acquire : ℕ → ℤ → Option Slots → Bool × Option Slots
try_acquire id max none = (true, none)
try_acquire id max (some s) = let (done, s') = take_slot id max s in (done, some s')

unfoldable pub release : ℕ → Option Slots → Option Slots
release id none = none
release id (some s) = some (free_slot id s)

unfoldable pub in_flight : Option Slots → ℕ
in_flight none = 0
in_flight (some s) = total s
