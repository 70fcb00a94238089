-- ===== src/Cache/Sweep.antt =====
-- cache/cache.go: what a sweep of the janitor removes.
use fibr.Prelude.{
  ℕ, ◌&&◌, ◌∙◌, Option, ◌≡◌, refl, String, none, some, true, false, inl, inr, List, [], ◌∷◌, arith,
  All, if◌then◌else◌, ◌==◌, string_cmp, Option-cases, Bool-cases,
}
use fibr.Prelude.Assoc.{lookup, lookup-delete, Found, Found-self}
use text.Mathlib.TextEquality.{eq_iff}
use fibr.Cache.{Cache, Entry, sweep, sweep_from, sweep_entry, remove_locked, expired}
use fibr.Cache.Invariant.{Inv}

module _ {V : Type 0} where
  -- The entries still to be looked at stand under their own keys, as in the map `m`.
  abbrev pub Listed : List (String × Entry V) → List (String × Entry V) → Type 0
  Listed m es = All (λ p. (lookup p.0 m ≡ some p.1) × (p.1.key ≡ p.0)) es

  Listed-Found :
      (m es : List (String × Entry V))
      → ((k : String) (e : Entry V) → lookup k m ≡ some e → e.key ≡ k)
      → Found m es
      → Listed m es
  Listed-Found m [] named f = tt
  Listed-Found m ((k, e) ∷ es) named f = ((f.0, named k e f.0), Listed-Found m es named f.1)

  pub sweep_entry-lookup :
      (now : ℕ) (k : String) (d : Entry V) (c : Cache V)
      → lookup k (sweep_entry now d c).items
        ≡ (if expired now d && d.key == k then none else lookup k c.items)
  unfolding sweep_entry remove_locked
  sweep_entry-lookup now k d c = ground (arith, lookup-delete d.key k c.items)

  -- A live entry stays.
  sweep_from-lookup :
      (now : ℕ) (k : String) (m es : List (String × Entry V)) (c : Cache V) {e : Entry V}
      → Listed m es
      → lookup k m ≡ some e
      → expired now e ≡ false
      → lookup k (sweep_from now es c).items ≡ lookup k c.items
  unfolding sweep_from
  sweep_from-lookup now k m [] c f p x = refl
  sweep_from-lookup now k m ((j, d) ∷ es) c {e} f p x =
      sweep_from-lookup now k m es (sweep_entry now d c) {e = e} f.1 p x
      ∙ ground (arith, f.0, sweep_entry-lookup now k d c, eq_iff d.key k)

  -- A key without an entry gets none.
  sweep_from-none :
      (now : ℕ) (k : String) (es : List (String × Entry V)) (c : Cache V)
      → lookup k c.items ≡ none
      → lookup k (sweep_from now es c).items ≡ none
  unfolding sweep_from
  sweep_from-none now k [] c p = p
  sweep_from-none now k ((j, d) ∷ es) c p =
      sweep_from-none now k es (sweep_entry now d c) (ground (arith, sweep_entry-lookup now k d c))

  sweep_from_removes :
      (now : ℕ) (k : String) (m es : List (String × Entry V)) (c : Cache V) {e : Entry V}
      → Listed m es
      → lookup k es ≡ some e
      → expired now e ≡ true
      → lookup k (sweep_from now es c).items ≡ none
  unfolding sweep_from lookup
  sweep_from_removes now k m [] c f p x = cc
  sweep_from_removes now k m ((j, d) ∷ es) c {e} f p x = elim (Bool-cases (j == k)) [
    | inl h ↦
        sweep_from-none now k es (sweep_entry now d c)
          (ground (arith, f.0, sweep_entry-lookup now k d c, eq_iff j k, eq_iff d.key k))
    | inr h ↦ sweep_from_removes now k m es (sweep_entry now d c) {e = e} f.1 (ground arith) x
  ]

  abbrev pub kept : ℕ → Option (Entry V) → Option (Entry V)
  kept now none = none
  kept now (some e) = if expired now e then none else some e

  pub Listed-self : (c : Cache V) → Inv c → Listed c.items c.items
  Listed-self c v =
      Listed-Found c.items c.items v.named
        (Found-self c.items (λ j. omega (arith, v.once j, v.same j)))

  -- A sweep removes the entries that have expired, and no other, whatever the order of its visits.
  sweep-lookup :
      (now : ℕ) (k : String) (c : Cache V)
      → Inv c
      → lookup k (sweep now c).items ≡ kept now (lookup k c.items)
  unfolding sweep
  sweep-lookup now k c v =
      let f = Listed-self c v in
      elim (Option-cases (lookup k c.items)) [
        | inl p ↦ rw p (sweep_from-none now k c.items c p)
        | inr (e, p) ↦ elim (Bool-cases (expired now e)) [
          | inl x ↦ rw p (rw x (sweep_from_removes now k c.items c.items c f p x))
          | inr x ↦ sweep_from-lookup now k c.items c.items c f p x ∙ rw p (rw x refl)
        ]
      ]
