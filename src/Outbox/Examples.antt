-- ===== src/Outbox/Examples.antt =====
-- outbox/outbox.go, outbox/relay.go: runs of the code.
use fibr.Prelude.{ℕ, ◌≡◌, refl, none, some, List, [], ◌∷◌, length, map, ◌++◌, ◌⊎◌, arith}
use fibr.Prelude.Int.{pos}
use fibr.Lock.{redis_error, from_redis}
use fibr.Lock.Server.{server}
use fibr.Outbox.{
  Event, Relay, with_batch_size, with_locker, new_relay, run, process, process_batch, publish_all,
  from_lock,
}
use fibr.Outbox.Laws.{pending}
use fibr.Outbox.Drain.{ticks, run_drains}
use fibr.Outbox.Delivery.{Delivered, message}
use fibr.Outbox.History.{Step, enqueues, relays, history, Delivered-history}
use fibr.Outbox.Exclusive.{process_held}
use fibr.Outbox.Server.{World, world, world-Lawful, world-Apart, redis-Lawful, holder-locked}

abbrev order_placed : Event
order_placed = record {
  id = 0;
  topic = "orders";
  payload = "1";
  created_at = 3;
  published_at = none;
}

abbrev order_paid : Event
order_paid = record { id = 1; topic = "orders"; payload = "2"; created_at = 4; published_at = none }

abbrev busy : World
busy = record { table = order_placed ∷ order_paid ∷ []; taken = []; locks = [] }

abbrev one_by_one : Relay
one_by_one = record { batch_size = 1; interval = 5; locker = none }

abbrev after_one : World
after_one = record {
  table = record order_placed { published_at = some 7 } ∷ order_paid ∷ [];
  taken = message order_placed ∷ [];
  locks = [];
}

abbrev steps : List Step
steps = enqueues "orders" (some "3") ∷ relays one_by_one (ticks 2) ∷ enqueues "orders" none ∷ []

Delivered-history_example :
    Delivered world world-Lawful (history world world-Lawful world-Apart steps busy)
Delivered-history_example =
    Delivered-history world world-Lawful world-Apart steps busy (tt, (tt, tt))

run_drains_example :
    (length (pending (world-Lawful.rows (run world one_by_one (ticks 2) busy))) ≡ 0)
    × (world-Lawful.log (run world one_by_one (ticks 2) busy)
        ≡ world-Lawful.log busy
          ++ map (λ x. (x.topic, x.payload)) (pending (world-Lawful.rows busy)))
unfolding process_batch publish_all
run_drains_example =
    run_drains world world-Lawful one_by_one 2 busy refl (refl, (refl, tt)) (omega arith)

abbrev shared : Relay
shared = record one_by_one { locker = some (record { lock_key = "relay"; lock_ttl = 100 }) }

abbrev elsewhere : World
elsewhere = record busy { locks = (server.set_nx "relay" "b" 1000 0 []).0 }

process_held_example :
    ((process world (some "a") 10 20 shared elsewhere).1 ≡ 0)
    × (((process world (some "a") 10 20 shared elsewhere).2 ≡ none)
        ⊎ ((n : ℕ) × ((world.redis.set_nx "relay" "a" 100 10 elsewhere).1 ≡ redis_error n)
            × ((process world (some "a") 10 20 shared elsewhere).2
                ≡ some (from_lock (from_redis n)))))
    × (world-Lawful.rows (process world (some "a") 10 20 shared elsewhere).0
        ≡ world-Lawful.rows elsewhere)
    × (world-Lawful.log (process world (some "a") 10 20 shared elsewhere).0
        ≡ world-Lawful.log elsewhere)
process_held_example =
    process_held world world-Lawful world-Apart redis-Lawful shared
      (record { lock_key = "relay"; lock_ttl = 100 }) "a" "b" 10 20 elsewhere refl
      (holder-locked busy)

-- Options that make no sense are passed over.
default_batch :
    new_relay (with_batch_size (pos 0) ∷ with_locker none ∷ [])
    ≡ record { batch_size = 100; interval = 1000000000; locker = none }
unfolding new_relay
default_batch = refl
