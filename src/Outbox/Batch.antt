-- ===== src/Outbox/Batch.antt =====
-- outbox/relay.go: what one batch does to the events that are pending.
use fibr.Prelude.{
  ℕ, suc, ◌+◌, ◌≤◌, ◌<◌, ◌≡◌, refl, sym, ap, subst, ◌∙◌, inl, inr, min, Option, none, some, List,
  [], ◌∷◌, ◌++◌, nat_cmp, take, drop, length, length-take, All, arith, Option-cases, Sum-cases,
  take-drop, ◌⊎◌,
}
use fibr.Outbox.{
  Event, Port, Relay, Error, publish_all, process_batch, publish_event, mark_event, load_pending,
}
use fibr.Outbox.Laws.{Lawful, pending, mark, Ascending, on_error}

pub mark-All : (i t : ℕ) (es : List Event) → All (λ x. i < x.id) es → mark i t es ≡ es
mark-All i t [] h = refl
mark-All i t (e ∷ es) h = ground (arith, mark-All i t es h.1)

-- The first pending event, marked, leaves the others pending.
pending-mark :
    (t : ℕ) (e : Event) (es rows : List Event)
    → Ascending rows
    → pending rows ≡ e ∷ es
    → pending (mark e.id t rows) ≡ es
pending-mark t e es [] up h = ground arith
pending-mark t e es (r ∷ rows) up h = elim (Option-cases r.published_at) [
  | inl fresh ↦ ground (arith, fresh, mark-All r.id t rows up.0)
  | inr (at, past) ↦ ground (arith, past, pending-mark t e es rows up.1)
]

module _ {S : Type 0} (port : Port S) where
  abbrev pub after_publish : Event → S → S
  after_publish e s = (port.publish e.topic e.payload s).0

  abbrev pub after_mark : Event → S → S
  after_mark e s = (port.set_published e.id (port.now (after_publish e s)) (after_publish e s)).0

  -- What the first event of a batch meets.
  pub data First (e : Event) (es : List Event) (n : ℕ) (s : S) (r : S × ℕ × Option Error)
      : Type 0 where
    refused :
        (x : ℕ)
        → (port.publish e.topic e.payload s).1 ≡ some x
        → r ≡ (after_publish e s, n, some (publish_event e.id x))
        → First e es n s r
    unmarked :
        (x : ℕ)
        → (port.publish e.topic e.payload s).1 ≡ none
        → (port.set_published e.id (port.now (after_publish e s)) (after_publish e s)).1 ≡ some x
        → r ≡ (after_mark e s, n, some (mark_event e.id x))
        → First e es n s r
    published :
        (port.publish e.topic e.payload s).1 ≡ none
        → (port.set_published e.id (port.now (after_publish e s)) (after_publish e s)).1 ≡ none
        → r ≡ publish_all port es (suc n) (after_mark e s)
        → First e es n s r

  pub publish_all-First :
      (e : Event) (es : List Event) (n : ℕ) (s : S) → First e es n s (publish_all port (e ∷ es) n s)
  unfolding publish_all
  publish_all-First e es n s = elim (Option-cases (port.publish e.topic e.payload s).1) [
    | inr (x, failed) ↦ refused x failed (ground (arith, failed))
    | inl ok ↦
        elim (Option-cases
          (port.set_published e.id (port.now (after_publish e s)) (after_publish e s)).1) [
            | inr (x, failed) ↦ unmarked x ok failed (ground (arith, ok, failed))
            | inl marked ↦ published ok marked (ground (arith, ok, marked))
          ]
  ]

module _ {S : Type 0} (port : Port S) (law : Lawful port) where
  -- Of the events of a batch the first `k` are published and marked, all of them without an error.
  abbrev Advances : List Event → List Event → ℕ → S × ℕ × Option Error → Type 0
  Advances es rest n r =
      (k : ℕ) × (r.1 ≡ n + k)
      × (pending (law.rows r.0) ≡ drop k (es ++ rest))
      × (k ≤ length es)
      × ((k ≡ length es) ⊎ ((x : Error) × (r.2 ≡ some x)))

  pub rows-after_mark :
      (e : Event) (s : S)
      → law.rows (after_mark port e s)
        ≡ on_error
            (port.set_published e.id (port.now (after_publish port e s)) (after_publish port e s)).1
            (mark e.id (port.now (after_publish port e s)) (law.rows s))
            (law.rows s)
  rows-after_mark e s =
      law.set-rows e.id (port.now (after_publish port e s)) (after_publish port e s)
      ∙ rw (law.publish-rows e.topic e.payload s) refl

  pub pending-after_mark :
      (e : Event) (es : List Event) (s : S)
      → (port.set_published e.id (port.now (after_publish port e s)) (after_publish port e s)).1
        ≡ none
      → pending (law.rows s) ≡ e ∷ es
      → pending (law.rows (after_mark port e s)) ≡ es
  pending-after_mark e es s marked h = rw (rows-after_mark e s) (
      rw marked (
        pending-mark (port.now (after_publish port e s)) e es (law.rows s) (law.rows-Ascending s)
          h))

  publish_all-Advances :
      (es rest : List Event) (n : ℕ) (s : S)
      → pending (law.rows s) ≡ es ++ rest
      → Advances es rest n (publish_all port es n s)
  publish_all-Advances [] rest n s h =
      unfold publish_all in (0, omega arith, h, omega arith, inl refl)
  publish_all-Advances (e ∷ es) rest n s h = elim (publish_all-First port e es n s) [
    | refused x failed r ↦ subst (Advances (e ∷ es) rest n) (sym r) (
      0,
      omega arith,
      rw (law.publish-rows e.topic e.payload s) h,
      omega arith,
      inr (publish_event e.id x, refl),
    )
    | unmarked x ok failed r ↦ subst (Advances (e ∷ es) rest n) (sym r) (
      0,
      omega arith,
      rw (rows-after_mark e s) (rw failed h),
      omega arith,
      inr (mark_event e.id x, refl),
    )
    | published ok marked r ↦ subst (Advances (e ∷ es) rest n) (sym r) (
        let (k, count, left, fits, all) =
          publish_all-Advances es rest (suc n) (after_mark port e s)
            (pending-after_mark e (es ++ rest) s marked h) in
        (
          suc k,
          omega (arith, count),
          left,
          omega (arith, fits),
          elim all [ inl full ↦ inl (ap suc full) | inr error ↦ inr error ],
        ))
  ]

  -- The events that a batch takes.
  abbrev pub batch : Relay → S → List Event
  batch r s = take r.batch_size (pending (law.rows s))

  pub process_batch-cases :
      (r : Relay) (s : S)
      → ((x : Error) × (process_batch port r s ≡ (s, 0, some x)))
        ⊎ (process_batch port r s ≡ publish_all port (batch r s) 0 s)
  unfolding process_batch
  process_batch-cases r s = elim (Sum-cases (port.select_pending r.batch_size s)) [
    | inl (x, failed) ↦ inl (load_pending x, rw failed refl)
    | inr (es, loaded) ↦ inr (rw (loaded, law.select-rows r.batch_size s loaded) refl)
  ]

  batch-Advances :
      (r : Relay) (s : S)
      → Advances
          (batch r s)
          (drop r.batch_size (pending (law.rows s)))
          0
          (publish_all port (batch r s) 0 s)
  batch-Advances r s =
      let all = pending (law.rows s) in
      publish_all-Advances (batch r s) (drop r.batch_size all) 0 s
        (sym (take-drop r.batch_size all))

  -- The first of the pending events, as many as a batch returns, are pending no longer, and the others
  -- stay pending, whatever error stops it.
  pub process_batch-pending :
      (r : Relay) (s s' : S) (n : ℕ) (e : Option Error)
      → process_batch port r s ≡ (s', n, e)
      → (pending (law.rows s') ≡ drop n (pending (law.rows s))) × (n ≤ r.batch_size)
  process_batch-pending r s s' n e h =
      let all = pending (law.rows s) in
      elim (process_batch-cases r s) [
        | inl (x, stopped) ↦ ground (arith, stopped)
        | inr runs ↦
            let (k, count, left, fits, whole) = batch-Advances r s in
            ground (
              arith,
              runs,
              count,
              left,
              fits,
              take-drop r.batch_size all,
              length-take r.batch_size all,
            )
      ]

  -- Without an error the count is that of all pending events, up to the batch size.
  pub process_batch_count :
      (r : Relay) (s : S)
      → (process_batch port r s).2 ≡ none
      → (process_batch port r s).1 ≡ min r.batch_size (length (pending (law.rows s)))
  process_batch_count r s h =
      let all = pending (law.rows s) in
      elim (process_batch-cases r s) [
        | inl (x, stopped) ↦ absurd (ground (arith, stopped))
        | inr runs ↦
            let (k, count, left, fits, whole) = batch-Advances r s in
            elim whole [
              | inl full ↦ rw (runs) (omega (arith, count, full, length-take r.batch_size all))
              | inr (x, stopped) ↦ absurd (ground (arith, runs, stopped))
            ]
      ]
