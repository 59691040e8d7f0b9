-- ===== src/AuthLimit/Attempts.antt =====
-- internal/authlimit/authlimit.go over time: how often a key can be let through, and how many
-- bcrypt operations run.
use local_ai_proxy.Prelude.{
  ℕ, ◌+◌, ◌-◌, ◌*◌, ◌≤◌, ◌≡◌, refl, ap, Bool, true, false, Option, none, some, String, List, [],
  ◌∷◌, arith, if◌then◌else◌, ◌==◌, String_key, eq_key,
}
use mathlib.Core.Option
use local_ai_proxy.Prelude.Int.{pos, leb_ℤ}
use local_ai_proxy.Prelude.Dict.{
  Dict, lookup, insert, retain, keep_if, lookup-insert, lookup-retain,
}
use local_ai_proxy.RateLimit.Tokens.{Verdict}
use local_ai_proxy.RateLimit.Limiter.{Bucket, is_live}
use local_ai_proxy.RateLimit.Limiter.Levels.{
  OptionFilled, spendable, cost, admit-Pays, spendable-later, sub_split,
}
use local_ai_proxy.RateLimit.Limiter.Traffic.{kept}
use local_ai_proxy.AuthLimit.Keyed.{
  KeyBucket, KeyedLimiter, with_limit, charge, charge-admit, allow_key, prune_keys, is_recent,
}

-- A request for a key, or a tick of the background goroutine, with the clock's reading.
pub data Event : Type 0 where
  tries : String → ℕ → Event
  ticks : ℕ → Event

unfoldable pub step : Event → Option KeyedLimiter → Option KeyedLimiter
step (tries key t) l = (allow_key key t l).1
step (ticks t) l = prune_keys t l

abbrev pub clock : Event → ℕ
clock (tries key t) = t
clock (ticks t) = t

abbrev pub final_clock : ℕ → List Event → ℕ
final_clock now [] = now
final_clock now (e ∷ es) = final_clock (clock e) es

-- The clock does not go back.
abbrev pub IsTimed : ℕ → List Event → Type 0
IsTimed now [] = Unit
IsTimed now (e ∷ es) = (now ≤ clock e) × IsTimed (clock e) es

abbrev pub spent_by : String → Event → Option KeyedLimiter → ℕ
spent_by k (tries key t) l = if key == k then cost (allow_key key t l).0 else 0
spent_by k (ticks t) l = 0

-- The tokens that a key spends over a run, in parts of a token.
pub spent : String → List Event → Option KeyedLimiter → ℕ
spent k [] l = 0
spent k (e ∷ es) l = spent_by k e l + spent k es (step e l)

abbrev pub limiter_of : ℕ → Dict String KeyBucket → Option KeyedLimiter
limiter_of n buckets = some (record { buckets = buckets; capacity = pos n; refill_rate = pos n })

-- The bucket of a key under its limit.
abbrev pub bucket_of : ℕ → String → Dict String KeyBucket → Option Bucket
bucket_of n k buckets = Option.map (with_limit (pos n)) (lookup k buckets)

abbrev charged : ℕ → String → ℕ → Dict String KeyBucket → Verdict × KeyBucket
charged n key t bs = charge (pos n) (pos n) t (lookup key bs)

enabled : (n : ℕ) → 1 ≤ n → leb_ℤ (pos n) (pos 0) ≡ false
enabled n h = ground arith

allow_key_lem :
    (n t : ℕ) (key : String) (bs : Dict String KeyBucket)
    → 1 ≤ n
    → allow_key key t (limiter_of n bs)
      ≡ ((charged n key t bs).0, limiter_of n (insert key (charged n key t bs).1 bs))
unfolding allow_key
allow_key_lem n t key bs h = rw (allow_key, limiter_of, enabled n h) refl

-- What one event takes from a key, and the buckets that it leaves.
abbrev Pays : ℕ → ℕ → String → Event → Dict String KeyBucket → Type 0
Pays n now k e bs =
    (after : Dict String KeyBucket) × ((spent_by k e (limiter_of n bs)
          + spendable n (clock e) (bucket_of n k after)
        ≤ spendable n now (bucket_of n k bs) + (clock e - now) * n)
      × OptionFilled n (clock e) (bucket_of n k after))
    × (step e (limiter_of n bs) ≡ limiter_of n after)

tries-Pays :
    (n now t : ℕ) (k key : String) (bs : Dict String KeyBucket) (own : Bool)
    → (key == k) ≡ own
    → 1 ≤ n
    → now ≤ t
    → OptionFilled n now (bucket_of n k bs)
    → Pays n now k (tries key t) bs
unfolding step
tries-Pays n now t k key bs true e h p f =
    let later = spendable-later n now t (bucket_of n k bs) p f in
    let paid =
      rw (charge-admit (pos n) t (lookup k bs)) at (admit-Pays n t (bucket_of n k bs) h later.1) in
    (
      insert key (charged n key t bs).1 bs,
      rw (allow_key_lem n t key bs h, lookup-insert, e, (eq_key key k).0 e)
          (omega (arith, paid.0, later.0), paid.1),
      ap (λ (r : Verdict × Option KeyedLimiter). r.1) (allow_key_lem n t key bs h),
    )
tries-Pays n now t k key bs false e h p f =
    let later = spendable-later n now t (bucket_of n k bs) p f in
    (
      insert key (charged n key t bs).1 bs,
      rw (lookup-insert, e) (omega (arith, later.0), later.1),
      ap (λ (r : Verdict × Option KeyedLimiter). r.1) (allow_key_lem n t key bs h),
    )

keep_if-with_limit :
    (n t : ℕ) (o : Option KeyBucket)
    → Option.map (with_limit (pos n)) (keep_if (is_recent t) o)
      ≡ keep_if (is_live t) (Option.map (with_limit (pos n)) o)
unfolding is_live
keep_if-with_limit n t none = refl
keep_if-with_limit n t (some b) = ground arith

ticks-Pays :
    (n now t : ℕ) (k : String) (bs : Dict String KeyBucket)
    → 1 ≤ n
    → now ≤ t
    → OptionFilled n now (bucket_of n k bs)
    → Pays n now k (ticks t) bs
unfolding step prune_keys
ticks-Pays n now t k bs h p f =
    let later = spendable-later n now t (bucket_of n k bs) p f in
    let stays = kept n t (bucket_of n k bs) h later.1 in
    (
      retain (λ key b. is_recent t b) bs,
      rw (lookup-retain, keep_if-with_limit n t (lookup k bs))
          (omega (arith, stays.0, later.0), stays.1),
      refl,
    )

step-Pays :
    (n now : ℕ) (k : String) (e : Event) (bs : Dict String KeyBucket)
    → 1 ≤ n
    → now ≤ clock e
    → OptionFilled n now (bucket_of n k bs)
    → Pays n now k e bs
step-Pays n now k (tries key t) bs h p f = tries-Pays n now t k key bs (key == k) refl h p f
step-Pays n now k (ticks t) bs h p f = ticks-Pays n now t k bs h p f

final_clock-le : (now : ℕ) (es : List Event) → IsTimed now es → now ≤ final_clock now es
final_clock-le now [] t = omega arith
final_clock-le now (e ∷ es) t = omega (arith, t.0, final_clock-le (clock e) es t.1)

-- However the limiter is used and pruned: over any stretch of time a key spends at most the tokens
-- that it held at its start and what its limit n, which is positive, earns in that time.
pub attempts-le :
    (n now : ℕ) (k : String) (es : List Event) (bs : Dict String KeyBucket)
    → 1 ≤ n
    → OptionFilled n now (bucket_of n k bs)
    → IsTimed now es
    → spent k es (limiter_of n bs)
      ≤ spendable n now (bucket_of n k bs) + (final_clock now es - now) * n
unfolding spent
attempts-le n now k [] bs h f t = omega arith
attempts-le n now k (e ∷ es) bs h f t =
    let (after, (paid, sound), same) = step-Pays n now k e bs h t.0 f in
    rw same (
      omega (
        arith,
        paid,
        attempts-le n (clock e) k es after h sound t.1,
        ap (λ (d : ℕ). d * n)
            (sub_split now (clock e) (final_clock now (e ∷ es)) t.0
              (final_clock-le (clock e) es t.1)),
      ))
