-- ===== src/Ratelimit.antt =====
-- ratelimit/ratelimit.go and ratelimit/middleware.go: the token bucket that a script keeps in Redis.
-- Tokens are counted in parts, `scale` parts to a token, and a rate is the number of parts that a
-- millisecond brings, so that `RefillPerSec` is `rate * 1000 / scale`; the arithmetic on doubles is
-- taken to be exact. Capacities and rates are not negative. Redis and the limiter share one clock.
pub mod Bound
pub mod History
pub mod Retry
mod Examples
use fibr.Prelude.{
  ℕ, zero, suc, ◌+◌, ◌-◌, ◌*◌, ◌/◌, min, Bool, true, false, Option, none, some, List, [], ◌∷◌, ◌++◌,
  if◌then◌else◌, ◌==◌, nat_cmp, ltb, leb,
}
use fibr.Prelude.Int.{ℤ, pos, negsuc}
use fibr.Prelude.Bytes.{Bytes, codes, bytes_cmp}
use fibr.Prelude.Assoc.{lookup, insert}

pub record Rule : Type 0 where
  pub capacity : ℕ
  pub rate : ℕ

-- The hash at a key, with the time at which it expires.
pub record Bucket : Type 0 where
  pub tokens : ℕ
  pub ts : ℕ
  pub expires : ℕ

pub record Outcome : Type 0 where
  pub allowed : Bool
  pub remaining : ℕ
  pub retry_after : ℕ

abbrev pub Server : Type 0
Server = List (Bytes × Bucket)

abbrev pub key_prefix : Bytes
key_prefix = codes "ratelimit:"

-- `if cost < 1 { cost = 1 }`
abbrev pub at_least_one : ℤ → ℕ
at_least_one (pos n) = if n == 0 then 1 else n
at_least_one (negsuc n) = 1

-- `math.Ceil` of a quotient
unfoldable pub ceil_div : ℕ → ℕ → ℕ
ceil_div x d = (x + d - 1) / d

abbrev pub unexpired : ℕ → Bucket → Option Bucket
unexpired now b = if ltb now b.expires then some b else none

-- What `HMGET` finds: a key that has expired is gone.
abbrev pub live : ℕ → Option Bucket → Option Bucket
live now none = none
live now (some b) = unexpired now b

-- What happens to the call of the script: it is run and answered, run without an answer that
-- arrives, or not run.
pub data Link : Type 0 where
  answers loses_reply refuses : Link

-- What the middleware does: it lets the request through, with or without the two headers, or answers
-- 429 with them and the seconds of `Retry-After`.
pub data Verdict : Type 0 where
  passes_unlimited : Verdict
  passes : ℕ → ℕ → Verdict
  too_many_requests : ℕ → ℕ → ℕ → Verdict

abbrev pub verdict : Rule → Option Outcome → Verdict
verdict rule none = passes_unlimited
verdict rule (some r) =
    if r.allowed
    then passes rule.capacity r.remaining
    else too_many_requests rule.capacity r.remaining r.retry_after

module _ (scale : ℕ) where
  unfoldable pub bucket_ttl_ms : Rule → ℕ
  bucket_ttl_ms rule =
      let ms = ceil_div (rule.capacity * scale) (rule.rate * 1000) * 1000 in
      if rule.rate == 0 then 1000 else if ltb ms 1000 then 1000 else ms

  -- In seconds.
  unfoldable pub retry_after : ℕ → ℕ → Rule → ℕ
  retry_after cost remaining rule =
      let secs = ceil_div ((cost - remaining) * scale) (rule.rate * 1000) in
      if rule.rate == 0 then 1 else if leb cost remaining then 1 else if ltb secs 1 then 1 else secs

  -- The tokens before the request is served.
  unfoldable pub refilled : Rule → ℕ → Option Bucket → ℕ
  refilled rule now none = rule.capacity * scale
  refilled rule now (some b) = min (rule.capacity * scale) (b.tokens + (now - b.ts) * rule.rate)

  unfoldable pub fits : Rule → ℕ → ℕ → Option Bucket → Bool
  fits rule now cost found = leb (cost * scale) (refilled rule now found)

  -- `tokenBucket`: the bucket that is stored; whether the request is allowed is `fits`.
  unfoldable pub token_bucket : Rule → ℕ → ℕ → Option Bucket → Bucket
  token_bucket rule now cost found =
      let tokens = refilled rule now found in
      record {
        tokens = if fits rule now cost found then tokens - cost * scale else tokens;
        ts = now;
        expires = now + bucket_ttl_ms rule;
      }

  abbrev pub run_script : Server → Bytes → Rule → ℕ → ℕ → Server
  run_script s key rule now cost =
      insert key (token_bucket rule now cost (live now (lookup key s))) s

  abbrev pub outcome_of : Rule → ℕ → Bool → Bucket → Outcome
  outcome_of rule cost allowed b =
      let remaining = b.tokens / scale in
      record {
        allowed = allowed;
        remaining = remaining;
        retry_after = if allowed then 0 else retry_after cost remaining rule;
      }

  abbrev pub eval : Link → Server → Bytes → Rule → ℕ → ℕ → Server × Option Outcome
  eval refuses s key rule now cost = (s, none)
  eval loses_reply s key rule now cost = (run_script s key rule now cost, none)
  eval answers s key rule now cost = (
    run_script s key rule now cost,
    some (
        outcome_of rule cost (fits rule now cost (live now (lookup key s)))
          (token_bucket rule now cost (live now (lookup key s)))),
  )

  -- None of the outcome is an error.
  unfoldable pub allow : Link → Server → Bytes → Rule → ℤ → ℕ → Server × Option Outcome
  allow link s key rule cost now = eval link s (key_prefix ++ key) rule now (at_least_one cost)

  unfoldable pub middleware : Link → Server → Bytes → Rule → ℕ → Server × Verdict
  middleware link s key rule now =
      let (s', r) = allow link s key rule (pos 1) now in (s', verdict rule r)
