-- ===== src/Outbox/Order.antt =====
-- outbox/relay.go: a batch without errors, as the broker sees it.
use fibr.Prelude.{
  ℕ, suc, ◌+◌, ◌≡◌, Option, take, In, sym, ◌∙◌, none, List, [], ◌∷◌, ◌++◌, map, append_assoc,
  append_nil, arith, inl, inr,
}
use fibr.Outbox.{Error, Event, Port, Relay, publish_all, process_batch}
use fibr.Outbox.Laws.{Lawful, Message}
use fibr.Outbox.Batch.{
  refused, unmarked, published, publish_all-First, after_publish, after_mark, batch,
  process_batch-cases,
}
use fibr.Outbox.Delivery.{message}

module _ {S : Type 0} (port : Port S) (law : Lawful port) where
  log-published :
      (e : Event) (s : S)
      → (port.publish e.topic e.payload s).1 ≡ none
      → law.log (after_mark port e s) ≡ law.log s ++ message e ∷ []
  log-published e s ok =
      law.set-log e.id (port.now (after_publish port e s)) (after_publish port e s)
      ∙ law.publish-log e.topic e.payload s ok

  log-publish_all :
      (es : List Event) (n : ℕ) (s : S)
      → (publish_all port es n s).2 ≡ none
      → law.log (publish_all port es n s).0 ≡ law.log s ++ map message es
  log-publish_all [] n s h = unfold publish_all in sym (append_nil (law.log s))
  log-publish_all (e ∷ es) n s h = elim (publish_all-First port e es n s) [
    | refused x failed r ↦ absurd (ground (arith, r))
    | unmarked x ok failed r ↦ absurd (ground (arith, r))
    | published ok marked r ↦ rw (r) (
        log-publish_all es (suc n) (after_mark port e s) (ground (arith, r))
        ∙ rw (log-published e s ok) (append_assoc (law.log s) (message e ∷ []) (map message es)))
  ]

  -- Of the events of a batch the first `k` are in the log, with all that was there.
  abbrev Sends : List Event → ℕ → S → S × ℕ × Option Error → Type 0
  Sends es n s r =
      (k : ℕ) × (r.1 ≡ n + k)
      × ((m : Message) → In m (law.log s ++ map message (take k es)) → In m (law.log r.0))

  -- A batch without errors hands the broker the messages of the oldest pending events, in the order
  -- of their ids, each once, and nothing else.
  pub process_batch-log :
      (r : Relay) (s : S)
      → (process_batch port r s).2 ≡ none
      → law.log (process_batch port r s).0 ≡ law.log s ++ map message (batch port law r s)
  process_batch-log r s h = elim (process_batch-cases port law r s) [
    | inl (x, stopped) ↦ absurd (ground (arith, stopped))
    | inr runs ↦ rw runs (log-publish_all (batch port law r s) 0 s (ground (arith, runs)))
  ]
