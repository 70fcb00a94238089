-- ===== src/Outbox.antt =====
-- outbox/outbox.go, outbox/relay.go: events that are written with the business data and published
-- later. The database, the broker, the clock and the Redis of the lock are parameters on one state.
pub mod Laws
pub mod Batch
pub mod Drain
pub mod Delivery
pub mod Exclusive
pub mod History
pub mod Order
mod Server
mod Examples
use fibr.Prelude.{
  ℕ, zero, suc, ◌+◌, ◌≡◌, ◌⊎◌, inl, inr, String, Bool, true, false, Option, none, some, List, [],
  ◌∷◌, ltb, if◌then◌else◌,
}
use fibr.Prelude.Int.{ℤ, pos, negsuc, ltb_ℤ, pos_part}
use fibr.Lock.{Redis, with_lock, Error as LockError, err_not_acquired}

pub record Event : Type 0 where
  pub id : ℕ
  pub topic : String
  pub payload : String
  pub created_at : ℕ
  pub published_at : Option ℕ

-- The statements, and the publisher. A reply `some n` is an error, and `not_acquired` tells of one
-- whether it is, or wraps, `lock.ErrNotAcquired`.
pub record Port (S : Type 0) : Type 0 where
  pub now : S → ℕ
  pub insert : String → String → ℕ → S → S × Option ℕ
  pub select_pending : ℕ → S → ℕ ⊎ List Event
  pub set_published : ℕ → ℕ → S → S × Option ℕ
  pub publish : String → String → S → S × Option ℕ
  pub redis : Redis S
  pub not_acquired : ℕ → Bool

pub data Error : Type 0 where
  encode_payload : Error
  insert_event load_pending : ℕ → Error
  publish_event mark_event : ℕ → ℕ → Error
  from_lock : LockError → Error

-- The lock of `WithLock`: its key and ttl.
pub record Locker : Type 0 where
  pub lock_key : String
  pub lock_ttl : ℕ

pub record Relay : Type 0 where
  pub batch_size : ℕ
  pub interval : ℕ
  pub locker : Option Locker

pub data RelayOption : Type 0 where
  with_batch_size with_interval : ℤ → RelayOption
  with_locker : Option Locker → RelayOption

unfoldable pub apply_option : RelayOption → Relay → Relay
apply_option (with_batch_size n) r =
    if ltb_ℤ (pos 0) n then record r { batch_size = pos_part n } else r
apply_option (with_interval d) r = if ltb_ℤ (pos 0) d then record r { interval = pos_part d } else r
apply_option (with_locker l) r = record r { locker = l }

unfoldable pub apply_options : List RelayOption → Relay → Relay
unfolding apply_option
apply_options [] r = r
apply_options (o ∷ opts) r = apply_options opts (apply_option o r)

unfoldable pub new_relay : List RelayOption → Relay
unfolding apply_options
new_relay opts =
    apply_options opts (record { batch_size = 100; interval = 1000000000; locker = none })

-- What the select of `Run` sees: a tick, with what `Process` meets there, or the end of the context.
pub data Signal : Type 0 where
  tick : Option String → ℕ → ℕ → Signal
  done : Signal

module _ {S : Type 0} (port : Port S) where
  abbrev pub on_inserted : S × Option ℕ → S × Option Error
  on_inserted (s, none) = (s, none)
  on_inserted (s, some n) = (s, some (insert_event n))

  -- `Enqueue`, with what `json.Marshal` makes of the payload.
  unfoldable pub enqueue : String → Option String → S → S × Option Error
  enqueue topic none s = (s, some encode_payload)
  enqueue topic (some b) s = on_inserted (port.insert topic b (port.now s) s)

  -- The loop of `process` over the events that are left, with the count so far.
  unfoldable pub publish_all : List Event → ℕ → S → S × ℕ × Option Error
  publish_all [] published s = (s, published, none)
  publish_all (e ∷ events) published s =
      let (s1, sent) = port.publish e.topic e.payload s in
      let (s2, marked) = port.set_published e.id (port.now s1) s1 in
      let rest = publish_all events (suc published) s2 in
      elim sent [
        | some n ↦ (s1, published, some (publish_event e.id n))
        | none ↦ elim marked [ some n ↦ (s2, published, some (mark_event e.id n)) | none ↦ rest ]
      ]

  abbrev pub on_loaded : ℕ ⊎ List Event → S → S × ℕ × Option Error
  on_loaded (inl n) s = (s, 0, some (load_pending n))
  on_loaded (inr events) s = publish_all events 0 s

  unfoldable pub process_batch : Relay → S → S × ℕ × Option Error
  process_batch r s = on_loaded (port.select_pending r.batch_size s) s

  -- `errors.Is(err, lock.ErrNotAcquired)`, of an error of the function itself.
  abbrev wraps_not_acquired : Error → Bool
  wraps_not_acquired (load_pending n) = port.not_acquired n
  wraps_not_acquired (publish_event i n) = port.not_acquired n
  wraps_not_acquired (mark_event i n) = port.not_acquired n
  wraps_not_acquired (insert_event n) = port.not_acquired n
  wraps_not_acquired encode_payload = false
  wraps_not_acquired (from_lock e) = false

  abbrev pub unlocked : S × (LockError ⊎ (ℕ × Option Error)) → S × ℕ × Option Error
  unlocked (s, inl err_not_acquired) = (s, 0, none)
  unlocked (s, inl e) = (s, 0, some (from_lock e))
  unlocked (s, inr (n, none)) = (s, n, none)
  unlocked (s, inr (n, some e)) = if wraps_not_acquired e then (s, 0, none) else (s, n, some e)

  -- `Process`, with the draw of a token and the times of the lock.
  unfoldable pub process : Option String → ℕ → ℕ → Relay → S → S × ℕ × Option Error
  process drawn before after r s = elim r.locker [
    | none ↦ process_batch r s
    | some l ↦ unlocked (
        with_lock port.redis drawn l.lock_key l.lock_ttl before after
          (λ t. let (t', n, e) = process_batch r t in (t', (n, e))) s)
  ]

  -- `Run` up to the end of the context or of the signals; an error is only logged.
  unfoldable pub run : Relay → List Signal → S → S
  unfolding process
  run r [] s = s
  run r (done ∷ signals) s = s
  run r (tick drawn before after ∷ signals) s = run r signals (process drawn before after r s).0
