-- ===== src/RateLimit/Limiter/Levels.antt =====
-- One bucket of internal/ratelimit/ratelimit.go under a constant limit: its tokens as numbers.
use local_ai_proxy.Prelude.{
  ℕ, ◌+◌, ◌-◌, ◌*◌, ◌≤◌, ◌≡◌, refl, ap, min, Bool, true, false, Option, none, some, arith, leb,
  if◌then◌else◌,
}
use local_ai_proxy.Prelude.Int.{pos, pos_part, ◌-ℤ◌, ◌+ℤ◌, pos-*ℤ}
use local_ai_proxy.RateLimit.Tokens.{
  token_unit, Verdict, allowed, denied, refilled_lem, retry_after,
}
use local_ai_proxy.RateLimit.Limiter.{Bucket, fresh, refill, consume, admit, give_back, is_live}

-- The bucket of a limit of n per minute with t parts, last touched at `last`.
abbrev pub bucket_at : ℕ → ℕ → ℕ → Bucket
bucket_at n t last = record {
  tokens = pos t;
  capacity = pos (n * token_unit);
  refill_rate = pos n;
  last_refill = last;
  last_access = last;
}

-- What a bucket holds at `now`: its tokens and what has been earned since, up to the capacity.
abbrev pub filled : ℕ → ℕ → ℕ → ℕ → ℕ
filled n t last now = min (n * token_unit) (t + (now - last) * n)

abbrev denial : ℕ → ℕ → Verdict
denial n s = denied (retry_after (pos token_unit -ℤ pos s) (pos n))

module _ (n now : ℕ) where
  fresh_lem : 1 ≤ n → fresh (pos n) now ≡ bucket_at n (n * token_unit - token_unit) now
  unfolding fresh ◌-ℤ◌
  fresh_lem h = rw pos-*ℤ (ground arith)

  refill_lem :
      (t last : ℕ)
      → last ≤ now
      → refill (pos n) now (bucket_at n t last) ≡ bucket_at n (filled n t last now) now
  unfolding refill
  refill_lem t last h = rw (pos-*ℤ, refilled_lem (n * token_unit) n t last now h)

  consume_lem :
      (s : ℕ)
      → consume (bucket_at n s now) ≡ (
          if leb token_unit s
          then (allowed, bucket_at n (s - token_unit) now)
          else (denial n s, bucket_at n s now))
  unfolding consume ◌-ℤ◌
  consume_lem s = ground arith

  pub admit-none :
      1 ≤ n → admit (pos n) now none ≡ (allowed, bucket_at n (n * token_unit - token_unit) now)
  unfolding admit
  admit-none h = rw (fresh_lem h)

  -- The sum is charged if it holds a whole token.
  pub admit-some :
      (t last : ℕ)
      → last ≤ now
      → admit (pos n) now (some (bucket_at n t last)) ≡ (
          let s = filled n t last now in
          if leb token_unit s
          then (allowed, bucket_at n (s - token_unit) now)
          else (denial n s, bucket_at n s now))
  unfolding admit
  admit-some t last h = rw (refill_lem t last h) (consume_lem (filled n t last now))

pub give_back_lem :
    (n t last : ℕ)
    → give_back (bucket_at n t last) ≡ bucket_at n (min (n * token_unit) (t + token_unit)) last
unfolding give_back ◌+ℤ◌
give_back_lem n t last = ground arith

-- A bucket that owes nothing and holds no more than its capacity, under the limit n.
pub record IsFilled (n now : ℕ) (b : Bucket) : Type 0 where
  pub level : ℕ
  pub last : ℕ
  pub shape : b ≡ bucket_at n level last
  pub within : level ≤ n * token_unit
  pub past : last ≤ now

-- What an ID can spend at `now`: an absent bucket is a full one.
abbrev pub spendable : ℕ → ℕ → Option Bucket → ℕ
spendable n now none = n * token_unit
spendable n now (some b) = min (n * token_unit) (pos_part b.tokens + (now - b.last_refill) * n)

abbrev pub OptionFilled : ℕ → ℕ → Option Bucket → Type 0
OptionFilled n now none = Unit
OptionFilled n now (some b) = IsFilled n now b

abbrev pub cost : Verdict → ℕ
cost allowed = token_unit
cost (denied r) = 0

pub bucket_at-IsFilled :
    (n now t last : ℕ) → t ≤ n * token_unit → last ≤ now → IsFilled n now (bucket_at n t last)
bucket_at-IsFilled n now t last h p = record {
  level = t;
  last = last;
  shape = refl;
  within = h;
  past = p;
}

abbrev Pays : ℕ → ℕ → ℕ → Verdict × Bucket → Type 0
Pays n now before (v, b) = (cost v + spendable n now (some b) ≡ before) × IsFilled n now b

spend-Pays :
    (n now s : ℕ) (enough : Bool)
    → leb token_unit s ≡ enough
    → s ≤ n * token_unit
    → Pays n now s (
        if enough
        then (allowed, bucket_at n (s - token_unit) now)
        else (denial n s, bucket_at n s now))
spend-Pays n now s true e h =
    (ground arith, bucket_at-IsFilled n now _ now (omega arith) (omega arith))
spend-Pays n now s false e h = (ground arith, bucket_at-IsFilled n now _ now h (omega arith))

-- A request pays for its admission out of what is spendable, and leaves a sound bucket.
pub admit-Pays :
    (n now : ℕ) (o : Option Bucket)
    → 1 ≤ n
    → OptionFilled n now o
    → Pays n now (spendable n now o) (admit (pos n) now o)
admit-Pays n now none h f =
    rw (admit-none n now h)
      (ground arith, bucket_at-IsFilled n now _ now (omega arith) (omega arith))
admit-Pays n now (some b) h f =
    rw (f.shape, admit-some n now f.level f.last f.past)
      (spend-Pays n now (filled n f.level f.last now) _ refl (omega arith))

-- A refund adds a token at most.
pub give_back_lem-spendable :
    (n now : ℕ) (b : Bucket)
    → IsFilled n now b
    → (spendable n now (some (give_back b)) ≤ spendable n now (some b) + token_unit)
      × IsFilled n now (give_back b)
give_back_lem-spendable n now b f =
    rw (f.shape, give_back_lem n f.level f.last)
      (omega arith, bucket_at-IsFilled n now _ f.last (omega arith) f.past)

pub le_mul : (n a b : ℕ) → a ≤ b → n * a ≤ b * n
le_mul n a b h = grind arith

pub sub_split : (a b c : ℕ) → a ≤ b → b ≤ c → c - a ≡ (b - a) + (c - b)
sub_split a b c h k = omega arith

-- What has been idle for the cutoff is full again.
pub is_live-spendable :
    (n now : ℕ) (b : Bucket)
    → 1 ≤ n
    → IsFilled n now b
    → is_live now b ≡ false
    → spendable n now (some b) ≡ n * token_unit
unfolding is_live
is_live-spendable n now b h f e =
    rw f.shape (omega (arith, le_mul n token_unit (now - f.last) long))
  where
    long : token_unit ≤ now - f.last
    long = let over = rw f.shape at e in ground arith

-- Time adds n parts in each nanosecond.
pub spendable-later :
    (n now later : ℕ) (o : Option Bucket)
    → now ≤ later
    → OptionFilled n now o
    → (spendable n later o ≤ spendable n now o + (later - now) * n) × OptionFilled n later o
spendable-later n now later none h f = (ground arith, tt)
spendable-later n now later (some b) h f = (
  rw f.shape (omega (arith, ap (λ (t : ℕ). t * n) (sub_split f.last now later f.past h))),
  record { level = f.level; last = f.last; shape = f.shape; within = f.within; past = omega arith },
)

-- A refund adds a whole token where there is room for it.
give_back-exact :
    (n now : ℕ) (b : Bucket)
    → IsFilled n now b
    → spendable n now (some b) + token_unit ≤ n * token_unit
    → spendable n now (some (give_back b)) ≡ spendable n now (some b) + token_unit
give_back-exact n now b f h =
    let room = rw f.shape at h in rw (f.shape, give_back_lem n f.level f.last) (omega arith)

spendable-le : (n now : ℕ) (o : Option Bucket) → spendable n now o ≤ n * token_unit
spendable-le n now none = omega arith
spendable-le n now (some b) = omega arith

-- A request that is let through and then refunded has cost nothing.
pub give_back-admit :
    (n now : ℕ) (o : Option Bucket)
    → 1 ≤ n
    → OptionFilled n now o
    → (admit (pos n) now o).0 ≡ allowed
    → (spendable n now (some (give_back (admit (pos n) now o).1)) ≡ spendable n now o)
      × IsFilled n now (give_back (admit (pos n) now o).1)
give_back-admit n now o h f e =
    let paid = rw e at (admit-Pays n now o h f) in
    (
      omega (
        arith,
        paid.0,
        give_back-exact n now _ paid.1 (omega (arith, paid.0, spendable-le n now o)),
      ),
      (give_back_lem-spendable n now _ paid.1).1,
    )
