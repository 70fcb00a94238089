-- ===== src/Outbox/Drain.antt =====
-- outbox/relay.go: a relay whose calls succeed leaves no event pending.
use fibr.Prelude.{
  ℕ, zero, suc, ◌-◌, ◌*◌, ◌≤◌, ◌≡◌, refl, sym, ap, ◌∙◌, ◌++◌, map, min, nat_cmp, none, List, [],
  ◌∷◌, take, drop, length, append_nil, append_assoc, arith,
}
use fibr.Outbox.{Port, Relay, Signal, tick, run, process_batch}
use fibr.Outbox.Laws.{Lawful, pending}
use fibr.Outbox.Exclusive.{process-unlocked}
use fibr.Outbox.Delivery.{message}
use fibr.Outbox.Order.{process_batch-log}
use fibr.Outbox.Batch.{process_batch-pending, process_batch_count}

length-drop : {A : Type 0} (n : ℕ) (xs : List A) → length (drop n xs) ≡ length xs - n
length-drop zero xs = omega arith
length-drop (suc n) [] = omega arith
length-drop (suc n) (x ∷ xs) = ground (arith, length-drop n xs)

min-suc : (m n : ℕ) → min (suc m) (suc n) ≡ suc (min m n)
min-suc m n = ground arith

drop-min : {A : Type 0} (n : ℕ) (xs : List A) → drop (min n (length xs)) xs ≡ drop n xs
drop-min zero xs = ground arith
drop-min (suc n) [] = ground arith
drop-min (suc n) (x ∷ xs) = ap (λ m. drop m (x ∷ xs)) (min-suc n (length xs)) ∙ drop-min n xs

map-take-drop :
    {A B : Type 0} (f : A → B) (n : ℕ) (xs : List A)
    → map f (take n xs) ++ map f (drop n xs) ≡ map f xs
map-take-drop f zero xs = refl
map-take-drop f (suc n) [] = refl
map-take-drop f (suc n) (x ∷ xs) = ap (λ l. f x ∷ l) (map-take-drop f n xs)

nothing_left : {A : Type 0} (xs : List A) → length xs ≡ 0 → xs ≡ []
nothing_left [] h = refl
nothing_left (x ∷ xs) h = absurd (omega (arith, h))

abbrev pub ticks : ℕ → List Signal
ticks zero = []
ticks (suc k) = tick none 0 0 ∷ ticks k

module _ {S : Type 0} (port : Port S) (law : Lawful port) where
  -- The next `k` batches go through without an error.
  abbrev pub Healthy : Relay → ℕ → S → Type 0
  Healthy r zero s = Unit
  Healthy r (suc k) s = ((process_batch port r s).2 ≡ none) × Healthy r k (process_batch port r s).0

  -- A batch without an error takes the oldest events, up to the batch size.
  process_batch-drop :
      (r : Relay) (s : S)
      → (process_batch port r s).2 ≡ none
      → pending (law.rows (process_batch port r s).0) ≡ drop r.batch_size (pending (law.rows s))
  process_batch-drop r s ok =
      let result = process_batch port r s in
      let moved = process_batch-pending port law r s result.0 result.1 result.2 refl in
      moved.0
      ∙ ap (λ n. drop n (pending (law.rows s))) (process_batch_count port law r s ok)
      ∙ drop-min r.batch_size (pending (law.rows s))

  -- A relay without a lock, whose next batches go through without an error, has handed every pending
  -- event to the broker after as many ticks as there are batches: the topics and payloads in the order
  -- of the ids, each once and nothing else, and no event is pending then.
  pub run_drains :
      (r : Relay) (k : ℕ) (s : S)
      → r.locker ≡ none
      → Healthy r k s
      → length (pending (law.rows s)) ≤ k * r.batch_size
      → (length (pending (law.rows (run port r (ticks k) s))) ≡ 0)
        × (law.log (run port r (ticks k) s)
            ≡ law.log s ++ map (λ x. (x.topic, x.payload)) (pending (law.rows s)))
  unfolding run
  run_drains r zero s free ok fits = (
    omega (arith, fits),
    sym (append_nil (law.log s))
        ∙ ap (λ es. law.log s ++ map message es)
            (sym (nothing_left (pending (law.rows s)) (omega (arith, fits)))),
  )
  run_drains r (suc k) s free ok fits =
      let later = (process_batch port r s).0 in
      let all = pending (law.rows s) in
      let left = process_batch-drop r s ok.0 in
      let (empty, sent) =
        run_drains r k later free ok.1
          (rw left (omega (arith, fits, length-drop r.batch_size all))) in
      rw (process-unlocked port none 0 0 r s free, run)
        (
          empty,
          sent
              ∙ ap (λ es. law.log later ++ map message es) left
              ∙ ap (λ l. l ++ map message (drop r.batch_size all))
                  (process_batch-log port law r s ok.0)
              ∙ append_assoc (law.log s) (map message (take r.batch_size all))
                  (map message (drop r.batch_size all))
              ∙ ap (λ es. law.log s ++ es) (map-take-drop message r.batch_size all),
        )
