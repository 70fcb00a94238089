-- ===== src/Outbox/History.antt =====
-- outbox/outbox.go, outbox/relay.go: any sequence of writes and relays, failures included.
use fibr.Prelude.{
  arith, ℕ, ◌≡◌, refl, String, Option, none, some, List, [], ◌∷◌, Option-cases, inl, inr, ◌⊎◌,
}
use fibr.Prelude.Bytes.{All-append}
use fibr.Lock.Keeps.{with_lock-keeps}
use fibr.Outbox.{
  Port, Relay, Error, Signal, tick, done, enqueue, on_inserted, process, run, unlocked,
}
use fibr.Lock.{Error as LockError, with_lock, from_redis, no_token, err_not_held, err_not_acquired}
use fibr.Outbox.Exclusive.{process-unlocked, process-locked, batch_fn}
use fibr.Outbox.Laws.{Lawful, Apart}
use fibr.Outbox.Delivery.{Delivered, Delivered-process_batch, Taken}

-- What happens to an outbox: an event is written, or a relay runs for some time.
pub data Step : Type 0 where
  enqueues : String → Option String → Step
  relays : Relay → List Signal → Step

module _ {S : Type 0} (port : Port S) (law : Lawful port) (apart : Apart port law) where
  abbrev step : Step → S → S
  step (enqueues topic body) s = (enqueue port topic body s).0
  step (relays r signals) s = run port r signals s

  abbrev pub history : List Step → S → S
  history [] s = s
  history (e ∷ es) s = history es (step e s)

  Delivered-same :
      (s s' : S)
      → law.rows s' ≡ law.rows s
      → law.log s' ≡ law.log s
      → Delivered port law s
      → Delivered port law s'
  Delivered-same s s' rows log h = rw (rows, log) h

  unlocked-state : (x : S × (LockError ⊎ (ℕ × Option Error))) → (unlocked port x).0 ≡ x.0
  unlocked-state (s, inl (from_redis n)) = refl
  unlocked-state (s, inl no_token) = refl
  unlocked-state (s, inl err_not_held) = refl
  unlocked-state (s, inl err_not_acquired) = refl
  unlocked-state (s, inr (n, none)) = refl
  unlocked-state (s, inr (n, some e)) = ground arith

  Delivered-eval :
      (f : S → S × ℕ) (s : S)
      → Delivered port law s
      → Delivered port law (f s).0
      → Delivered port law (port.redis.eval f s).0
  Delivered-eval f s h g = elim (apart.eval-either f s) [
    | inl (rows, log) ↦ Delivered-same (f s).0 (port.redis.eval f s).0 rows log g
    | inr (rows, log) ↦ Delivered-same s (port.redis.eval f s).0 rows log h
  ]

  Delivered-process :
      (drawn : Option String) (before after : ℕ) (r : Relay) (s : S)
      → Delivered port law s
      → Delivered port law (process port drawn before after r s).0
  Delivered-process drawn before after r s h = elim (Option-cases r.locker) [
    | inl free ↦
        rw (process-unlocked port drawn before after r s free)
          (Delivered-process_batch port law r s h)
    | inr (l, locked) ↦ rw (process-locked port drawn before after r s locked) (
        rw
          (unlocked-state (
            with_lock port.redis drawn l.lock_key l.lock_ttl before after
              (batch_fn port drawn before after r s) s))
          (with_lock-keeps port.redis (Delivered port law)
            (λ k v ttl now t.
              Delivered-same t (port.redis.set_nx k v ttl now t).0 (apart.set_nx-rows k v ttl now t)
                (apart.set_nx-log k v ttl now t))
            (λ k t.
              Delivered-same t (port.redis.del k t).0 (apart.del-rows k t) (apart.del-log k t))
            Delivered-eval drawn l.lock_key l.lock_ttl before after
            (batch_fn port drawn before after r s) s (Delivered-process_batch port law r) h))
  ]

  on_inserted-state : (x : S × Option ℕ) → (on_inserted port x).0 ≡ x.0
  on_inserted-state (s, none) = refl
  on_inserted-state (s, some n) = refl

  Delivered-enqueue :
      (topic : String) (body : Option String) (s : S)
      → Delivered port law s
      → Delivered port law (enqueue port topic body s).0
  unfolding enqueue
  Delivered-enqueue topic none s h = h
  Delivered-enqueue topic (some b) s h =
      let written = port.insert topic b (port.now s) s in
      let (i, rows) = law.insert-rows topic b (port.now s) s in
      rw (on_inserted-state written) (
        rw (rows, law.insert-log topic b (port.now s) s)
          (elim (Option-cases written.1) [
            | inl ok ↦ rw ok (All-append (Taken (law.log s)) (law.rows s) _ h (tt, tt))
            | inr (x, failed) ↦ rw failed h
          ]))

  Delivered-run :
      (r : Relay) (signals : List Signal) (s : S)
      → Delivered port law s
      → Delivered port law (run port r signals s)
  unfolding run
  Delivered-run r [] s h = h
  Delivered-run r (done ∷ signals) s h = h
  Delivered-run r (tick drawn before after ∷ signals) s h =
      Delivered-run r signals (process port drawn before after r s).0
        (Delivered-process drawn before after r s h)

  -- Through any sequence of writes and relays, whatever fails in them, every event that is marked as
  -- published has been taken by the broker.
  pub Delivered-history :
      (es : List Step) (s : S) → Delivered port law s → Delivered port law (history es s)
  Delivered-history [] s h = h
  Delivered-history (enqueues topic body ∷ es) s h =
      Delivered-history es (enqueue port topic body s).0 (Delivered-enqueue topic body s h)
  Delivered-history (relays r signals ∷ es) s h =
      Delivered-history es (run port r signals s) (Delivered-run r signals s h)
