-- ===== src/RateLimit/Limiter/Idle.antt =====
-- `prune` of internal/ratelimit/ratelimit.go cannot be told from leaving the buckets in place.
use local_ai_proxy.Prelude.{
  ℕ, ◌-◌, ◌*◌, ◌≤◌, ◌≡◌, refl, sym, true, false, Option, none, some, arith, ℕ_key, leb, eq_self,
  Bool-cases, inl, inr,
}
use local_ai_proxy.Prelude.Int.{pos}
use local_ai_proxy.Prelude.Dict.{lookup, lookup-insert, lookup-retain, keep_if}
use local_ai_proxy.RateLimit.Tokens.{token_unit}
use local_ai_proxy.RateLimit.Limiter.{Bucket, Limiter, refill, admit, allow, is_live, prune}
use local_ai_proxy.RateLimit.Limiter.Levels.{
  IsFilled, OptionFilled, bucket_at, filled, admit-none, admit-some, le_mul,
}

-- The limit under which a bucket was filled does not matter to the next request.
admit_relimit :
    (m n s last t : ℕ)
    → admit (pos m) t (some (bucket_at n s last)) ≡ admit (pos m) t (some (bucket_at m s last))
unfolding admit refill
admit_relimit m n s last t = refl

filled_up : (m s last t : ℕ) → token_unit ≤ t - last → filled m s last t ≡ m * token_unit
filled_up m s last t h = omega (arith, le_mul m token_unit (t - last) h)

whole : (m : ℕ) → 1 ≤ m → leb token_unit (m * token_unit) ≡ true
whole m h = ground arith

admit_idle :
    (m n now t : ℕ) (b : Bucket)
    → 1 ≤ m
    → now ≤ t
    → IsFilled n now b
    → is_live now b ≡ false
    → admit (pos m) t (some b) ≡ admit (pos m) t none
unfolding is_live
admit_idle m n now t b h p f e =
    rw
      (
        f.shape,
        admit_relimit m n f.level f.last t,
        admit-some m t f.level f.last (omega arith),
        filled_up m f.level f.last t long,
        whole m h,
        admit-none m t h,
      )
      refl
  where
    long : token_unit ≤ t - f.last
    long = let over = rw f.shape at e in let past = f.past in ground arith

admit_kept :
    (m n now t : ℕ) (o : Option Bucket)
    → 1 ≤ m
    → now ≤ t
    → OptionFilled n now o
    → admit (pos m) t (keep_if (is_live now) o) ≡ admit (pos m) t o
admit_kept m n now t none h p f = refl
admit_kept m n now t (some b) h p f = elim (Bool-cases (is_live now b)) [
  | inl e ↦ rw e
  | inr e ↦ rw e (sym (admit_idle m n now t b h p f e))
]

-- After a prune the next request of an ID has the answer, and leaves the bucket, that it would
-- have had without it, whatever positive limit it is made under.
pub allow-prune :
    (m n now t k : ℕ) (l : Limiter)
    → 1 ≤ m
    → now ≤ t
    → OptionFilled n now (lookup k l)
    → ((allow k (pos m) t (prune now l)).0 ≡ (allow k (pos m) t l).0)
      × (lookup k (allow k (pos m) t (prune now l)).1 ≡ lookup k (allow k (pos m) t l).1)
unfolding allow prune
allow-prune m n now t k l h p f =
    rw
      (
        lookup-insert,
        lookup-insert,
        lookup-retain,
        eq_self k,
        admit_kept m n now t (lookup k l) h p f,
      )
      (refl, refl)
