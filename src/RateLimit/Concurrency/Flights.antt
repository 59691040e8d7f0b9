-- ===== src/RateLimit/Concurrency/Flights.antt =====
-- Requests that come and go in any order: internal/ratelimit/concurrency.go as the middleware of
-- internal/ratelimit/middleware.go uses it, which pairs each acquired slot with one release.
use local_ai_proxy.Prelude.{
  ℕ, ◌+◌, ◌-◌, ◌≤◌, ◌≡◌, refl, Bool, true, false, Option, none, some, List, [], ◌∷◌, arith,
  if◌then◌else◌, leb, ◌==◌, ℕ_key, eq_key, length, count_if,
}
use local_ai_proxy.Prelude.Int.{ℤ, pos, ◌≤ℤ◌}
use local_ai_proxy.Prelude.Dict.{
  lookup, insert, delete, held, total, IsUnique, lookup-insert, lookup-delete, insert-IsUnique,
  delete-IsUnique, total-insert, total-delete,
}
use local_ai_proxy.RateLimit.Concurrency.{
  Slots, new_concurrency, take_slot, free_slot, try_acquire, release, in_flight,
}

-- The limiter, and the accounts of the requests that run under a slot.
pub record System : Type 0 where
  pub slots : Option Slots
  pub running : List ℕ

abbrev pub runs : ℕ → List ℕ → ℕ
runs id = count_if (λ j. j == id)

pub finish : ℕ → List ℕ → List ℕ
finish id [] = []
finish id (j ∷ js) = let rest = finish id js in if j == id then js else j ∷ rest

-- A request enters if it gets a slot under its account's cap; a running one ends at any time.
pub data Step (cap : ℕ → ℤ) (s t : System) : Type 0 where
  enters :
      (id : ℕ)
      → (try_acquire id (cap id) s.slots).0 ≡ true
      → t ≡ record { slots = (try_acquire id (cap id) s.slots).1; running = id ∷ s.running }
      → Step cap s t
  leaves :
      (id : ℕ)
      → 1 ≤ runs id s.running
      → t ≡ record { slots = release id s.slots; running = finish id s.running }
      → Step cap s t

pub data Reach (cap : ℕ → ℤ) : System → Type 0 where
  start : (s : System) → s ≡ record { slots = some new_concurrency; running = [] } → Reach cap s
  next : (s t : System) → Reach cap s → Step cap s t → Reach cap t

-- An account with nothing running has no entry.
abbrev pub entry : ℕ → Option ℕ
entry n = if leb 1 n then some n else none

pub record IsCounted (cap : ℕ → ℤ) (s : System) : Type 0 where
  pub table : Slots
  pub shape : s.slots ≡ some table
  pub unique : IsUnique table
  pub counts : (id : ℕ) → lookup id table ≡ entry (runs id s.running)
  pub flights : total table ≡ length s.running
  pub reported : in_flight s.slots ≡ length s.running
  pub fits : (id : ℕ) → pos (runs id s.running) ≤ℤ cap id

held-entry : (id n : ℕ) (s : Slots) → lookup id s ≡ entry n → held id s ≡ n
held-entry id n s e = rw (e, held) (ground arith)

runs-finish :
    (id j : ℕ) (xs : List ℕ)
    → 1 ≤ runs id xs
    → runs j (finish id xs) ≡ (if id == j then runs j xs - 1 else runs j xs)
unfolding finish
runs-finish id j [] h = absurd (omega arith)
runs-finish id j (x ∷ xs) h =
    ground (arith, runs-finish id j xs, eq_key id j, eq_key x j, eq_key x id)

length-finish : (id : ℕ) (xs : List ℕ) → 1 ≤ runs id xs → length (finish id xs) + 1 ≡ length xs
unfolding finish
length-finish id [] h = absurd (omega arith)
length-finish id (x ∷ xs) h = ground (arith, length-finish id xs)

-- What freeing one of n slots comes to.
free_slot_lem :
    (id n : ℕ) (s : Slots)
    → lookup id s ≡ entry n
    → 1 ≤ n
    → free_slot id s ≡ (if leb n 1 then delete id s else insert id (n - 1) s)
unfolding free_slot
free_slot_lem id n s e h = rw (e, free_slot) (ground arith)

lookup-free_slot :
    (id j n : ℕ) (s : Slots)
    → lookup id s ≡ entry n
    → 1 ≤ n
    → lookup j (free_slot id s) ≡ (if id == j then entry (n - 1) else lookup j s)
lookup-free_slot id j n s e h =
    rw (free_slot_lem id n s e h)
      (ground (arith, lookup-delete id j s, lookup-insert id j (n - 1) s))

freed :
    (id n : ℕ) (s : Slots) (last : Bool)
    → IsUnique s
    → lookup id s ≡ entry n
    → 1 ≤ n
    → leb n 1 ≡ last
    → IsUnique (if last then delete id s else insert id (n - 1) s)
      × (total (if last then delete id s else insert id (n - 1) s) + 1 ≡ total s)
freed id n s true u e h l =
    (delete-IsUnique id s u, ground (arith, total-delete id s u, held-entry id n s e))
freed id n s false u e h l =
    (insert-IsUnique id (n - 1) s u, omega (arith, total-insert id (n - 1) s, held-entry id n s e))

free_slot-total :
    (id n : ℕ) (s : Slots)
    → IsUnique s
    → lookup id s ≡ entry n
    → 1 ≤ n
    → IsUnique (free_slot id s) × (total (free_slot id s) + 1 ≡ total s)
free_slot-total id n s u e h = rw (free_slot_lem id n s e h) (freed id n s (leb n 1) u e h refl)

-- A slot is granted exactly under a positive cap that is not yet reached.
take_slot_lem :
    (id : ℕ) (max : ℤ) (s : Slots)
    → pos 1 ≤ℤ max
    → (take_slot id max s).0 ≡ true
    → ((take_slot id max s).1 ≡ insert id (held id s + 1) s) × (pos (held id s + 1) ≤ℤ max)
unfolding take_slot
take_slot_lem id max s h e = ground arith

module _ {cap : ℕ → ℤ} (positive : (id : ℕ) → pos 1 ≤ℤ cap id) where
  start-IsCounted :
      (s : System) → s ≡ record { slots = some new_concurrency; running = [] } → IsCounted cap s
  unfolding total lookup in_flight
  start-IsCounted s e = rw e (record {
    table = [];
    shape = refl;
    unique = tt;
    counts = λ id. refl;
    flights = refl;
    reported = refl;
    fits = λ id. omega (arith, positive id);
  })

  enters-IsCounted :
      (s : System) (id : ℕ)
      → IsCounted cap s
      → (try_acquire id (cap id) s.slots).0 ≡ true
      → IsCounted cap
          (record { slots = (try_acquire id (cap id) s.slots).1; running = id ∷ s.running })
  unfolding try_acquire in_flight
  enters-IsCounted s id c e =
      let now = held-entry id (runs id s.running) c.table (c.counts id) in
      let got = take_slot_lem id (cap id) c.table (positive id) (rw c.shape at e) in
      rw c.shape (record {
        table = (take_slot id (cap id) c.table).1;
        shape = refl;
        unique = rw got.0 (insert-IsUnique id _ c.table c.unique);
        counts = λ j. rw (got.0, lookup-insert) (ground (arith, eq_key id j, c.counts j, now));
        flights =
            rw got.0 (omega (arith, total-insert id (held id c.table + 1) c.table, c.flights));
        reported =
            rw got.0 (omega (arith, total-insert id (held id c.table + 1) c.table, c.flights));
        fits = λ j. ground (arith, eq_key id j, c.fits j, got.1, now);
      })

  leaves-IsCounted :
      (s : System) (id : ℕ)
      → IsCounted cap s
      → 1 ≤ runs id s.running
      → IsCounted cap (record { slots = release id s.slots; running = finish id s.running })
  unfolding release in_flight
  leaves-IsCounted s id c h =
      let freed = free_slot-total id (runs id s.running) c.table c.unique (c.counts id) h in
      rw c.shape (record {
        table = free_slot id c.table;
        shape = refl;
        unique = freed.0;
        counts = λ j.
            rw
              (
                lookup-free_slot id j (runs id s.running) c.table (c.counts id) h,
                runs-finish id j s.running h,
              )
              (ground (arith, eq_key id j, c.counts j));
        flights = omega (arith, freed.1, c.flights, length-finish id s.running h);
        reported = omega (arith, freed.1, c.flights, length-finish id s.running h);
        fits = λ j. rw (runs-finish id j s.running h) (ground (arith, c.fits j));
      })

  -- Where every account has a cap of at least one, however requests come and go: the limiter counts exactly the running requests of each account,
  -- never more than its cap, has no entry for an idle account, and `InFlight` is their number.
  pub Reach-IsCounted : (s : System) → Reach cap s → IsCounted cap s
  Reach-IsCounted s (start t e) = start-IsCounted t e
  Reach-IsCounted s (next t u r (enters id e same)) =
      rw same (enters-IsCounted t id (Reach-IsCounted t r) e)
  Reach-IsCounted s (next t u r (leaves id h same)) =
      rw same (leaves-IsCounted t id (Reach-IsCounted t r) h)
