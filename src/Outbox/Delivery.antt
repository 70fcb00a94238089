-- ===== src/Outbox/Delivery.antt =====
-- outbox/outbox.go, outbox/relay.go: an event is marked only after the broker took it.
use fibr.Prelude.{
  ℕ, suc, ◌≡◌, sym, subst, inl, inr, true, Option, none, some, List, [], ◌∷◌, ◌++◌, ◌==◌, nat_cmp,
  drop, All, In, In-append_last, Option-cases, Bool-cases, take-drop, arith,
}
use fibr.Outbox.{Event, Port, Relay, publish_all, process_batch}
use fibr.Outbox.Laws.{Lawful, Message, pending, mark, Ascending}
use fibr.Outbox.Batch.{
  refused, unmarked, published, publish_all-First, after_publish, after_mark, rows-after_mark,
  pending-after_mark, batch, process_batch-cases, mark-All,
}

abbrev pub message : Event → Message
message e = (e.topic, e.payload)

abbrev TakenAt : List Message → Message → Option ℕ → Type 0
TakenAt log m none = Unit
TakenAt log m (some t) = In m log

-- A row that is marked is one that the broker took.
abbrev pub Taken : List Message → Event → Type 0
Taken log e = TakenAt log (message e) e.published_at

TakenAt-keeps :
    (log log' : List Message) (m : Message) (o : Option ℕ)
    → (In m log → In m log')
    → TakenAt log m o
    → TakenAt log' m o
TakenAt-keeps log log' m none keeps h = tt
TakenAt-keeps log log' m (some t) keeps h = keeps h

Taken-All :
    (log log' : List Message) (rows : List Event)
    → ((m : Message) → In m log → In m log')
    → All (Taken log) rows
    → All (Taken log') rows
Taken-All log log' [] keeps all = tt
Taken-All log log' (r ∷ rows) keeps all = (
  TakenAt-keeps log log' (message r) r.published_at (keeps (message r)) all.0,
  Taken-All log log' rows keeps all.1,
)

Taken-mark :
    (log : List Message) (t : ℕ) (e : Event) (es rows : List Event)
    → Ascending rows
    → pending rows ≡ e ∷ es
    → In (message e) log
    → All (Taken log) rows
    → All (Taken log) (mark e.id t rows)
Taken-mark log t e es [] up h took all = tt
Taken-mark log t e es (r ∷ rows) up h took all = elim (Option-cases r.published_at) [
  | inl fresh ↦
      let same : r ≡ e = ground (arith, fresh) in
      let kept : mark e.id t rows ≡ rows =
        subst (λ x. mark x.id t rows ≡ rows) same (mark-All r.id t rows up.0) in
      let id_same : (r.id == e.id) ≡ true = ground (arith, same) in
      rw id_same
        (subst (λ x. In (message x) log) (sym same) took, subst (All (Taken log)) (sym kept) all.1)
  | inr (at, past) ↦
      let rest = Taken-mark log t e es rows up.1 (ground (arith, past)) took all.1 in
      elim (Bool-cases (r.id == e.id)) [
        | inl same ↦ rw same (subst (TakenAt log (message r)) past all.0, rest)
        | inr other ↦ rw other (all.0, rest)
      ]
]

module _ {S : Type 0} (port : Port S) (law : Lawful port) where
  -- Every event that is marked as published has been taken by the broker.
  abbrev pub Delivered : S → Type 0
  Delivered s = All (Taken (law.log s)) (law.rows s)

  Delivered-after_publish : (e : Event) (s : S) → Delivered s → Delivered (after_publish port e s)
  Delivered-after_publish e s h = rw (law.publish-rows e.topic e.payload s) (
      Taken-All (law.log s) (law.log (after_publish port e s)) (law.rows s)
        (law.publish-keeps e.topic e.payload s) h)

  In-after_publish :
      (e : Event) (s : S)
      → (port.publish e.topic e.payload s).1 ≡ none
      → In (message e) (law.log (after_publish port e s))
  In-after_publish e s ok =
      rw (law.publish-log e.topic e.payload s ok) (In-append_last (message e) (law.log s))

  pub log-after_mark :
      (e : Event) (s : S) → law.log (after_mark port e s) ≡ law.log (after_publish port e s)
  log-after_mark e s = law.set-log e.id (port.now (after_publish port e s)) (after_publish port e s)

  Delivered-after_mark :
      (e : Event) (es : List Event) (s : S)
      → (port.publish e.topic e.payload s).1 ≡ none
      → pending (law.rows s) ≡ e ∷ es
      → Delivered s
      → Delivered (after_mark port e s)
  Delivered-after_mark e es s ok next h =
      let s1 = after_publish port e s in
      let t = port.now s1 in
      let before : All (Taken (law.log s1)) (law.rows s) =
        subst (All (Taken (law.log s1))) (law.publish-rows e.topic e.payload s)
          (Delivered-after_publish e s h) in
      rw (log-after_mark e s) (
        rw (rows-after_mark port law e s) (elim (Option-cases (port.set_published e.id t s1).1) [
          | inl marked ↦ rw marked (
              Taken-mark (law.log s1) t e es (law.rows s) (law.rows-Ascending s) next
                (In-after_publish e s ok) before)
          | inr (x, failed) ↦ rw failed before
        ]))

  Delivered-publish_all :
      (es rest : List Event) (n : ℕ) (s : S)
      → pending (law.rows s) ≡ es ++ rest
      → Delivered s
      → Delivered (publish_all port es n s).0
  Delivered-publish_all [] rest n s next h = unfold publish_all in h
  Delivered-publish_all (e ∷ es) rest n s next h = elim (publish_all-First port e es n s) [
    | refused x failed r ↦ rw r (Delivered-after_publish e s h)
    | unmarked x ok failed r ↦ rw r (Delivered-after_mark e (es ++ rest) s ok next h)
    | published ok marked r ↦ rw r (
        Delivered-publish_all es rest (suc n) (after_mark port e s)
          (pending-after_mark port law e (es ++ rest) s marked next)
          (Delivered-after_mark e (es ++ rest) s ok next h))
  ]

  pub Delivered-process_batch :
      (r : Relay) (s : S) → Delivered s → Delivered (process_batch port r s).0
  Delivered-process_batch r s h = elim (process_batch-cases port law r s) [
    | inl (x, stopped) ↦ rw stopped h
    | inr runs ↦
        let all = pending (law.rows s) in
        rw runs (
          Delivered-publish_all (batch port law r s) (drop r.batch_size all) 0 s
            (sym (take-drop r.batch_size all)) h)
  ]
