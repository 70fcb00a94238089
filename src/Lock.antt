-- ===== src/Lock.antt =====
-- lock/lock.go, lock/handle.go: locks in Redis. The server is a parameter; the two scripts that it runs
-- are the source's. Times are in nanoseconds.
pub mod Held
pub mod Keeps
pub mod Server
mod Examples
use fibr.Prelude.{
  ℕ, ◌+◌, ◌*◌, ◌/◌, ◌≤◌, ◌<◌, ◌≡◌, String, Bool, true, false, ◌&&◌, Option, none, some, List, [],
  ◌∷◌, ◌⊎◌, inl, inr, leb, if◌then◌else◌, ◌==◌, string_cmp, nat_cmp,
}

pub data Reply (A : Type 0) : Type 0 where
  reply : A → Reply A
  redis_error : ℕ → Reply A

-- The commands of the server, with the time where they depend on it; `eval` runs a script.
pub record Redis (S : Type 0) : Type 0 where
  pub set_nx : String → String → ℕ → ℕ → S → S × Reply Bool
  pub get : String → ℕ → S → Option String
  pub del : String → S → S × ℕ
  pub pexpire : String → ℕ → ℕ → S → S × ℕ
  pub eval : (S → S × ℕ) → S → S × Reply ℕ

pub record Lock : Type 0 where
  pub key : String
  pub token : String

pub data Error : Type 0 where
  err_not_acquired err_not_held no_token : Error
  from_redis : ℕ → Error

pub data Attempt : Type 0 where
  acquired : Lock → Attempt
  held : Attempt
  failed : Error → Attempt

-- What one round of `Acquire` meets: its draw of a token, the time, what `ctx.Err` says after a
-- failure, and whether the context ends in the wait.
pub record Round : Type 0 where
  pub drawn : Option String
  pub time : ℕ
  pub ctx_err : Bool
  pub done : Bool

module _ {S : Type 0} (redis : Redis S) where
  unfoldable pub release_script : String → String → ℕ → S → S × ℕ
  release_script key token now s = elim (redis.get key now s) [
    | none ↦ (s, 0)
    | some v ↦ if v == token then redis.del key s else (s, 0)
  ]

  unfoldable pub extend_script : String → String → ℕ → ℕ → S → S × ℕ
  extend_script key token millis now s = elim (redis.get key now s) [
    | none ↦ (s, 0)
    | some v ↦ if v == token then redis.pexpire key millis now s else (s, 0)
  ]

  abbrev changed : S × Reply ℕ → S × Option Error
  changed (s, reply n) = (s, if n == 0 then some err_not_held else none)
  changed (s, redis_error n) = (s, some (from_redis n))

  unfoldable pub release : Lock → ℕ → S → S × Option Error
  unfolding release_script
  release lk now s = changed (redis.eval (release_script lk.key lk.token now) s)

  pub extend : Lock → ℕ → ℕ → S → S × Option Error
  unfolding extend_script
  extend lk ttl now s = changed (redis.eval (extend_script lk.key lk.token (ttl / 1000000) now) s)

  unfoldable pub try_acquire : Option String → String → ℕ → ℕ → S → S × Attempt
  try_acquire none key ttl now s = (s, failed no_token)
  try_acquire (some token) key ttl now s =
      let (s', r) = redis.set_nx key token ttl now s in
      elim r [
        | reply true ↦ (s', acquired (record { key = key; token = token }))
        | reply false ↦ (s', held)
        | redis_error n ↦ (s', failed (from_redis n))
      ]

  -- `Acquire` over the rounds that the context and the timer allow; none where they are used up.
  pub acquire : String → ℕ → List Round → S → S × Option Attempt
  unfolding try_acquire
  acquire key ttl [] s = (s, none)
  acquire key ttl (r ∷ rounds) s =
      let (s', a) = try_acquire r.drawn key ttl r.time s in
      let again = acquire key ttl rounds s' in
      elim a [
        | acquired lk ↦ (s', some (acquired lk))
        | failed e ↦ (s', some (failed (if r.ctx_err then err_not_acquired else e)))
        | held ↦ if r.done then (s', some (failed err_not_acquired)) else again
      ]

  -- `Do`, with the time at which the function has returned. What the function returns, and what it
  -- assigns to the variables around it, is its result.
  unfoldable pub with_lock :
      {A : Type 0} → Option String → String → ℕ → ℕ → ℕ → (S → S × A) → S → S × (Error ⊎ A)
  unfolding try_acquire release
  with_lock drawn key ttl now after fn s =
      let (s', a) = try_acquire drawn key ttl now s in
      elim a [
        | failed e ↦ (s', inl e)
        | held ↦ (s', inl err_not_acquired)
        | acquired lk ↦ let (s'', a) = fn s' in ((release lk after s'').0, inr a)
      ]
