-- ===== src/Outbox/Exclusive.antt =====
-- outbox/relay.go: the lock around a batch.
use fibr.Prelude.{ℕ, ◌≡◌, refl, String, Option, none, some, arith, ◌⊎◌, inl, inr}
use fibr.Lock.{Reply, reply, redis_error, from_redis, with_lock, try_acquire}
use fibr.Lock.Held.{Lawful as LockLawful}
use fibr.Outbox.{Port, Relay, Locker, Error, process, process_batch, unlocked, from_lock}
use fibr.Outbox.Laws.{Lawful, Apart}

module _ {S : Type 0} (port : Port S) (drawn : Option String) (before after : ℕ) (r : Relay)
    (s : S) where
  -- The function that `Process` hands to `Do`.
  abbrev pub batch_fn : S → S × (ℕ × Option Error)
  batch_fn t = let (t', n, e) = process_batch port r t in (t', (n, e))

  pub process-unlocked :
      r.locker ≡ none → process port drawn before after r s ≡ process_batch port r s
  unfolding process
  process-unlocked free = rw free refl

  pub process-locked :
      {l : Locker}
      → r.locker ≡ some l
      → process port drawn before after r s
        ≡ unlocked port (with_lock port.redis drawn l.lock_key l.lock_ttl before after batch_fn s)
  unfolding process
  process-locked locked = rw locked refl

Reply-cases :
    {A : Type 0} (r : Reply A) → ((a : A) × (r ≡ reply a)) ⊎ ((n : ℕ) × (r ≡ redis_error n))
Reply-cases (reply a) = inl (a, refl)
Reply-cases (redis_error n) = inr (n, refl)

-- While another replica holds the lock, `Process` returns zero, and no error or the one with which
-- Redis failed, and neither the table nor the broker changes.
pub process_held :
    {S : Type 0} (port : Port S) (law : Lawful port) (apart : Apart port law)
    (locks : LockLawful port.redis) (r : Relay) (l : Locker) (token other : String)
    (before after : ℕ) (s : S)
    → r.locker ≡ some l
    → locks.holder s before l.lock_key ≡ some other
    → ((process port (some token) before after r s).1 ≡ 0)
      × (((process port (some token) before after r s).2 ≡ none)
          ⊎ ((n : ℕ) × ((port.redis.set_nx l.lock_key token l.lock_ttl before s).1 ≡ redis_error n)
              × ((process port (some token) before after r s).2 ≡ some (from_lock (from_redis n)))))
      × (law.rows (process port (some token) before after r s).0 ≡ law.rows s)
      × (law.log (process port (some token) before after r s).0 ≡ law.log s)
unfolding process with_lock try_acquire
process_held port law apart locks r l token other before after s configured held =
    let rows = apart.set_nx-rows l.lock_key token l.lock_ttl before s in
    let log = apart.set_nx-log l.lock_key token l.lock_ttl before s in
    elim (Reply-cases (port.redis.set_nx l.lock_key token l.lock_ttl before s).1) [
      | inl (b, answers) ↦
          let taken = locks.set_nx-reply l.lock_key token l.lock_ttl before s b answers in
          (
            ground (arith, configured, held, answers, taken),
            inl (ground (arith, configured, held, answers, taken)),
            ground (arith, configured, held, answers, taken, rows),
            ground (arith, configured, held, answers, taken, log),
          )
      | inr (n, failed) ↦ (
        ground (arith, configured, failed),
        inr (n, failed, ground (arith, configured, failed)),
        ground (arith, configured, failed, rows),
        ground (arith, configured, failed, log),
      )
    ]
