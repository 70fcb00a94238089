-- ===== src/Cache/Load.antt =====
-- cache/cache.go: `GetOrLoad`, where no other call for the key is under way.
use fibr.Prelude.{
  ℕ, ◌≤◌, ◌≡◌, refl, ap, ◌∙◌, String, Option, none, some, inl, inr, arith, Option-cases,
}
use fibr.Cache.{Cache, Loaded, Error, Flight, value, failed, get, load_locked, get_or_load}
use fibr.Cache.Invariant.{Inv, get-Inv}
use fibr.Cache.Views.{view, get-view}

module _ {V : Type 0} where
  -- The cached value, or else what the loader returns.
  abbrev pub answer : Option V → Loaded V → Loaded V
  answer (some v) outcome = value v
  answer none outcome = outcome

  load_locked_value :
      (k : String) (now : ℕ) (outcome : Loaded V) (c : Cache V)
      → (load_locked k now outcome c).1 ≡ answer (get k now c).1 outcome
  unfolding load_locked
  load_locked_value k now (value x) c = elim (Option-cases (get k now c).1) [
    | inl p ↦ rw (p, load_locked) refl
    | inr (y, p) ↦ rw (p, load_locked) refl
  ]
  load_locked_value k now (failed e) c = elim (Option-cases (get k now c).1) [
    | inl p ↦ rw (p, load_locked) refl
    | inr (y, p) ↦ rw (p, load_locked) refl
  ]

  load_locked_failed :
      (k : String) (now : ℕ) (e : Error) (c : Cache V)
      → (load_locked k now (failed e) c).0 ≡ (get k now c).0
  unfolding load_locked
  load_locked_failed k now e c = elim (Option-cases (get k now c).1) [
    | inl p ↦ rw (p, load_locked) refl
    | inr (y, p) ↦ rw (p, load_locked) refl
  ]

  -- `GetOrLoad` returns the value that a `Get` would return, or else what the loader returns.
  get_or_load-answer :
      (flight : Flight V) (k : String) (now : ℕ) (outcome : Loaded V) (c : Cache V)
      → ((f : Cache V → Cache V × Loaded V) (d : Cache V) → flight f d ≡ f d)
      → Inv c
      → (get_or_load flight k now outcome c).1 ≡ answer (view now k c) outcome
  unfolding get_or_load
  get_or_load-answer flight k now outcome c alone v =
      let d = (get k now c).0 in
      let first = get-view k k now now c v (omega arith) in
      elim (Option-cases (get k now c).1) [
        | inr (y, p) ↦ rw (p, get_or_load) (rw (← first.0) (rw p refl))
        | inl p ↦
            rw (p, get_or_load)
              (rw (alone (load_locked k now outcome) d) (
                load_locked_value k now outcome d
                ∙ ap (λ o. answer o outcome)
                    ((get-view k k now now d (get-Inv k now c v) (omega arith)).0 ∙ first.1)))
      ]

  -- Where the loader fails, what any `Get` returns at the time of the call or later is as before it.
  pub get_or_load_failed-view :
      (flight : Flight V) (k j : String) (now later : ℕ) (e : Error) (c : Cache V)
      → ((f : Cache V → Cache V × Loaded V) (d : Cache V) → flight f d ≡ f d)
      → Inv c
      → now ≤ later
      → view later j (get_or_load flight k now (failed e) c).0 ≡ view later j c
  unfolding get_or_load
  get_or_load_failed-view flight k j now later e c alone v h =
      let d = (get k now c).0 in
      let first = (get-view k j now later c v h).1 in
      elim (Option-cases (get k now c).1) [
        | inr (y, p) ↦ rw (p, get_or_load) first
        | inl p ↦
            rw (p, get_or_load)
              (rw (alone (load_locked k now (failed e)) d) (
                rw (load_locked_failed k now e d)
                  ((get-view k j now later d (get-Inv k now c v) h).1 ∙ first)))
      ]
