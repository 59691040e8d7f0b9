-- ===== src/RateLimit/Middleware/Fairness.antt =====
-- Who pays for a request that internal/ratelimit/middleware.go turns away.
use local_ai_proxy.Prelude.{
  ℕ, ◌+◌, ◌≤◌, ◌≡◌, ◌≢◌, Bool, false, Option, none, some, arith, ℕ_key, eq_key, eq_self,
}
use local_ai_proxy.Prelude.Int.{ℤ, pos}
use local_ai_proxy.Prelude.Dict.{lookup, lookup-insert}
use local_ai_proxy.Entities.{ApiKey, Resolution}
use local_ai_proxy.RateLimit.Tokens.{token_unit, allowed}
use local_ai_proxy.RateLimit.Limiter.{Limiter, allow, refund}
use local_ai_proxy.RateLimit.Limiter.Levels.{OptionFilled, spendable, admit-Pays, give_back-admit}
use local_ai_proxy.RateLimit.Limiter.Traffic.{lookup-refund}
use local_ai_proxy.RateLimit.Middleware.{
  Limits, account_rate, key_rate, too_many, rejects, Gate, limit_of, slot_gate, key_gate,
  account_gate, enter,
}

-- A request over the account's limit touches neither the key's bucket nor a slot.
pub account_reject :
    (limits : Limits) (key : Option ApiKey) (res : Option Resolution) (is_get : Bool)
    (now later secs : ℕ) (limit : ℤ) (g : Gate)
    → (enter limits key res is_get now later g).0 ≡ rejects (account_rate secs limit)
    → ((enter limits key res is_get now later g).1.keys ≡ g.keys)
      × ((enter limits key res is_get now later g).1.conc ≡ g.conc)
unfolding enter account_gate key_gate slot_gate
account_reject limits none res is_get now later secs limit g e = cc
account_reject limits (some key) none is_get now later secs limit g e = ground arith
account_reject limits (some key) (some res) is_get now later secs limit g e = ground arith

refund-allow :
    (id n now : ℕ) (l : Limiter)
    → 1 ≤ n
    → OptionFilled n now (lookup id l)
    → (allow id (pos n) now l).0 ≡ allowed
    → spendable n now (lookup id (refund id (allow id (pos n) now l).1))
      ≡ spendable n now (lookup id l)
unfolding allow refund
refund-allow id n now l h f e =
    rw (lookup-insert, eq_self id, refund, lookup-insert, eq_self id)
      (give_back-admit n now (lookup id l) h f e).0

allow-pays :
    (id n now : ℕ) (l : Limiter)
    → 1 ≤ n
    → OptionFilled n now (lookup id l)
    → (allow id (pos n) now l).0 ≡ allowed
    → token_unit + spendable n now (lookup id (allow id (pos n) now l).1)
      ≡ spendable n now (lookup id l)
unfolding allow
allow-pays id n now l h f e =
    rw (lookup-insert, eq_self id) (rw e at (admit-Pays n now (lookup id l) h f)).0

-- What each way out of the middleware has done to the accounts' buckets.
key_reject_lem :
    (limits : Limits) (key : ApiKey) (res : Resolution) (is_get : Bool) (now later secs : ℕ)
    (limit : ℤ) (g : Gate)
    → (enter limits (some key) (some res) is_get now later g).0 ≡ rejects (key_rate secs limit)
    → ((allow res.account_id (limit_of limits res) now g.accounts).0 ≡ allowed)
      × ((enter limits (some key) (some res) is_get now later g).1.accounts
          ≡ refund res.account_id (allow res.account_id (limit_of limits res) now g.accounts).1)
unfolding enter account_gate key_gate slot_gate
key_reject_lem limits key res is_get now later secs limit g e = ground arith

too_many_lem :
    (limits : Limits) (key : ApiKey) (res : Resolution) (is_get : Bool) (now later secs : ℕ)
    (limit : ℤ) (g : Gate)
    → (enter limits (some key) (some res) is_get now later g).0 ≡ rejects (too_many secs limit)
    → ((allow res.account_id (limit_of limits res) now g.accounts).0 ≡ allowed)
      × ((enter limits (some key) (some res) is_get now later g).1.accounts
          ≡ (allow res.account_id (limit_of limits res) now g.accounts).1)
      × (is_get ≡ false)
unfolding enter account_gate key_gate slot_gate
too_many_lem limits key res is_get now later secs limit g e = ground arith

module _ (limits : Limits) (key : ApiKey) (res : Resolution) (is_get : Bool) (now later secs n : ℕ)
    (limit : ℤ) (g : Gate) (same : limit_of limits res ≡ pos n) (h : 1 ≤ n)
    (f : OptionFilled n now (lookup res.account_id g.accounts)) where
  -- If the key's bucket turns the request away, the account's token has been given back.
  pub key_reject :
      (enter limits (some key) (some res) is_get now later g).0 ≡ rejects (key_rate secs limit)
      → spendable n now
          (lookup res.account_id (enter limits (some key) (some res) is_get now later g).1.accounts)
        ≡ spendable n now (lookup res.account_id g.accounts)
  key_reject e =
      let w = rw same at (key_reject_lem limits key res is_get now later secs limit g e) in
      rw w.1 (refund-allow res.account_id n now g.accounts h f w.0)

  -- If the concurrency cap turns it away, the account has paid a token for the attempt, so a
  -- client cannot poll for a slot at no cost.
  pub too_many_reject :
      (enter limits (some key) (some res) is_get now later g).0 ≡ rejects (too_many secs limit)
      → token_unit
          + spendable n now (
              lookup res.account_id
                (enter limits (some key) (some res) is_get now later g).1.accounts)
        ≡ spendable n now (lookup res.account_id g.accounts)
  too_many_reject e =
      let w = rw same at (too_many_lem limits key res is_get now later secs limit g e) in
      rw w.1 (allow-pays res.account_id n now g.accounts h f w.0)

allow-ne :
    (id j now : ℕ) (limit : ℤ) (l : Limiter)
    → id ≢ j
    → lookup j (allow id limit now l).1 ≡ lookup j l
unfolding allow
allow-ne id j now limit l h = rw lookup-insert (ground (arith, eq_key id j))

refund-ne : (id j : ℕ) (l : Limiter) → id ≢ j → lookup j (refund id l) ≡ lookup j l
refund-ne id j l h = rw lookup-refund (ground (arith, eq_key id j))

abbrev IsOther : ℕ → Option Resolution → Type 0
IsOther j none = Unit
IsOther j (some r) = r.account_id ≢ j

-- Whatever becomes of a request, the bucket of an account that it is not billed to is as it was.
pub enter-other_account :
    (limits : Limits) (key : ApiKey) (res : Option Resolution) (is_get : Bool) (now later j : ℕ)
    (g : Gate)
    → IsOther j res
    → lookup j (enter limits (some key) res is_get now later g).1.accounts ≡ lookup j g.accounts
unfolding enter account_gate key_gate slot_gate
enter-other_account limits key none is_get now later j g h = ground arith
enter-other_account limits key (some r) is_get now later j g h =
    let limit = limit_of limits r in
    ground (
      arith,
      allow-ne r.account_id j now limit g.accounts h,
      refund-ne r.account_id j (allow r.account_id limit now g.accounts).1 h,
    )

-- So are the buckets of other keys.
pub enter-other_key :
    (limits : Limits) (key : ApiKey) (res : Option Resolution) (is_get : Bool) (now later j : ℕ)
    (g : Gate)
    → key.id ≢ j
    → lookup j (enter limits (some key) res is_get now later g).1.keys ≡ lookup j g.keys
unfolding enter account_gate key_gate slot_gate
enter-other_key limits key none is_get now later j g h =
    ground (arith, allow-ne key.id j later key.rate_limit g.keys h)
enter-other_key limits key (some r) is_get now later j g h =
    ground (arith, allow-ne key.id j later key.rate_limit g.keys h)
